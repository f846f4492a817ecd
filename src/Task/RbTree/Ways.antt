-- ===== src/Task/RbTree/Ways.antt =====
-- The way of `RbInsert` down the tree.
use info.Prelude.{
  ℕ, zero, suc, ◌+◌, ◌≤◌, ◌<◌, ◌≡◌, refl, ◌∙◌, inl, inr, true, false, arith, ltb, ◌==◌,
  if◌then◌else◌, Bool-cases,
}
use info.Prelude.Maps.{put_self}
use info.Task.RbTree.{left, right, Rq, relink, set_child, set_parent, init_node, descend}
use info.Task.RbTree.Trees.{
  Tree, leaf, node, fork, Ctx, top, under, root, above, count, count_ctx, At, Around, Zip, At-Agree,
}
use info.Task.RbTree.Links.{
  relink_self, relink_other, Agree_trans, Agree-set_child, Agree-set_parent, Agree-set_red, absent,
}
use info.Task.RbTree.Fixup.{depth}
use info.Task.RbTree.Keys.{size}
use info.Task.RbTree.Moves.{Zip-down}

-- The place of a new process in a tree.
unfoldable pub way : (ℕ → ℕ) → ℕ → Ctx → Tree → Ctx
way vruntime n c leaf = c
way vruntime n c (node d l k r) =
    let lower = way vruntime n (under left d k r c) l in
    let upper = way vruntime n (under right d k l c) r in
    if ltb (vruntime n) (vruntime k) then lower else upper

pub way-Zip :
    (rounds : ℕ) (vruntime : ℕ → ℕ) (n : ℕ) (c : Ctx) (t : Tree) (q : Rq)
    → size t < rounds
    → Zip q c t
    → (descend rounds vruntime n (above c) (root t) q ≡ above (way vruntime n c t))
      × Zip q (way vruntime n c t) leaf
unfolding way size descend At fork
way-Zip zero vruntime n c t q high z = absurd (omega arith)
way-Zip (suc rounds) vruntime n c leaf q high z = (refl, z)
way-Zip (suc rounds) vruntime n c (node d l k r) q high z =
    let a = z.inside in
    let has : (k == 0) ≡ false = ground (arith, a.0) in
    elim (Bool-cases (ltb (vruntime n) (vruntime k))) [
      | inl less ↦
          let (e, z1) =
            way-Zip rounds vruntime n (under left d k r c) l q (omega arith)
              (Zip-down q left d k r c l z) in
          rw (has, less, a.3) (e, z1)
      | inr more ↦
          let (e, z1) =
            way-Zip rounds vruntime n (under right d k l c) r q (omega arith)
              (Zip-down q right d k l c r z) in
          rw (has, more, a.4) (e, z1)
    ]

pub depth-way :
    (vruntime : ℕ → ℕ) (n : ℕ) (c : Ctx) (t : Tree) → depth (way vruntime n c t) ≤ depth c + size t
unfolding way size depth
depth-way vruntime n c leaf = omega arith
depth-way vruntime n c (node d l k r) =
    let a = depth-way vruntime n (under left d k r c) l in
    let b = depth-way vruntime n (under right d k l c) r in
    elim (Bool-cases (ltb (vruntime n) (vruntime k))) [
      | inl less ↦ rw less (omega (arith, a))
      | inr more ↦ rw more (omega (arith, b))
    ]

-- The number of times a process occurs stays the same down the way.
pub count-way :
    (vruntime : ℕ → ℕ) (n j : ℕ) (c : Ctx) (t : Tree)
    → count_ctx j (way vruntime n c t) ≡ count_ctx j c + count j t
unfolding way count count_ctx
count-way vruntime n j c leaf = omega arith
count-way vruntime n j c (node d l k r) =
    let a = count-way vruntime n j (under left d k r c) l in
    let b = count-way vruntime n j (under right d k l c) r in
    elim (Bool-cases (ltb (vruntime n) (vruntime k))) [
      | inl less ↦ rw less (omega (arith, a))
      | inr more ↦ rw more (omega (arith, b))
    ]

-- The side of the parent that the comparison with it says.
unfoldable pub Compared : (ℕ → ℕ) → ℕ → Ctx → Type 0
Compared vruntime n top = Unit {0}
Compared vruntime n (under left d k far up) = ltb (vruntime n) (vruntime k) ≡ true
Compared vruntime n (under right d k far up) = ltb (vruntime n) (vruntime k) ≡ false

pub way-Compared :
    (vruntime : ℕ → ℕ) (n : ℕ) (c : Ctx) (t : Tree)
    → Compared vruntime n c
    → Compared vruntime n (way vruntime n c t)
unfolding way Compared
way-Compared vruntime n c leaf h = h
way-Compared vruntime n c (node d l k r) h = elim (Bool-cases (ltb (vruntime n) (vruntime k))) [
  | inl less ↦ rw less (way-Compared vruntime n (under left d k r c) l less)
  | inr more ↦ rw more (way-Compared vruntime n (under right d k l c) r more)
]

-- `RbInitNode` of a process that is not in the tree.
pub init_Zip : (n : ℕ) (t : Tree) (q : Rq) → count n t ≡ 0 → Zip q top t → Zip (init_node n q) top t
unfolding init_node Around count_ctx
init_Zip n t q gone z = record {
  around = z.around;
  inside =
      At-Agree q (init_node n q) 0 t
        (λ k h.
          let ne = absent n k t gone h in
          let a = set_child left n 0 q in
          let b = set_child right n 0 a in
          let c = set_parent n 0 b in
          Agree_trans k q a (init_node n q) (Agree-set_child k left n 0 q ne) (
            Agree_trans k a b (init_node n q) (Agree-set_child k right n 0 a ne) (
              Agree_trans k b c (init_node n q) (Agree-set_parent k n 0 b ne)
                (Agree-set_red k n true c ne))))
        z.inside;
  once = z.once;
}

-- The links of the process after `RbInitNode`.
pub record Fresh (n : ℕ) (q : Rq) : Type 0 where
  pub red : q.is_red n ≡ true
  pub no_left : q.child left n ≡ 0
  pub no_right : q.child right n ≡ 0

pub init-Fresh : (n : ℕ) (q : Rq) → Fresh n (init_node n q)
unfolding init_node
init-Fresh n q = record {
  red = put_self q.is_red n true;
  no_left = relink_other left n 0 n (relink left n 0 q.child) ∙ relink_self left n 0 q.child;
  no_right = relink_self right n 0 (relink left n 0 q.child);
}
