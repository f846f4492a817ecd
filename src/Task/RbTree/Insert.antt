-- ===== src/Task/RbTree/Insert.antt =====
-- `RbInsert` on the tree, and the sorted list of the processes that it stands for.
use info.Prelude.{
  ℕ, zero, suc, ◌<◌, ◌≡◌, refl, sym, ap, ◌∙◌, ◌≢◌, inl, inr, true, false, List, [], ◌∷◌, ◌++◌,
  arith, ◌==◌, Bool-cases,
}
use info.Task.RbTree.{
  left, Rq, init_node, descend, attach, rb_insert, repair, after_insert, find_leftmost,
}
use info.Task.RbTree.Trees.{
  Tree, leaf, node, plug, Ctx, top, under, root, above, count, count_ctx, At, Around, Zip, AgreeAt,
  At-Agree,
}
use info.Task.RbTree.Moves.{Zip-plug}
use info.Task.RbTree.Fixup.{fix, depth}
use info.Task.RbTree.Keys.{size, keys}
use info.Task.RbTree.Ways.{
  way, way-Zip, depth-way, count-way, Compared, way-Compared, Fresh, init_Zip, init-Fresh,
}
use info.Task.RbTree.Attach.{red_node, blacken, attach-top, attach-under, insert_fixup-Zip}

-- The tree with a new process in a place.
unfoldable pub place : ℕ → Ctx → Tree
place n top = node false leaf n leaf
place n (under sd d k far top) = plug (under sd d k far top) (red_node n)
place n (under sd d k far (under sd' g j uncle up)) =
    blacken (fix (under sd d k far (under sd' g j uncle up)) (red_node n))

-- The first of some processes, or the null pointer.
unfoldable pub first : List ℕ → ℕ
first [] = 0
first (k ∷ ks) = k

pub first-append :
    (a : List ℕ) (x : ℕ) (b m : List ℕ) → first ((a ++ x ∷ b) ++ m) ≡ first (a ++ x ∷ b)
unfolding first
first-append [] x b m = refl
first-append (y ∷ a) x b m = refl

pub find_leftmost_lem :
    (rounds p : ℕ) (t : Tree) (q : Rq)
    → size t < rounds
    → root t ≢ 0
    → At q p t
    → find_leftmost rounds (root t) q ≡ first (keys t)
unfolding find_leftmost keys size At first
find_leftmost_lem zero p t q high nz a = absurd (omega arith)
find_leftmost_lem (suc rounds) p leaf q high nz a = absurd (nz refl)
find_leftmost_lem (suc rounds) p (node c leaf k r) q high nz a =
    let no : (q.child left k == 0) ≡ true = ground (arith, a.3) in rw no refl
find_leftmost_lem (suc rounds) p (node c (node d l j m) k r) q high nz a =
    let has : (q.child left k == 0) ≡ false = ground (arith, a.3, a.5.0) in
    rw (has, a.3)
      (find_leftmost_lem rounds k (node d l j m) q (omega arith) a.5.0 a.5
        ∙ sym (first-append (keys l) j (keys m) (k ∷ keys r)))

-- Other fields than the links make no difference.
pub after_Zip :
    (rounds : ℕ) (vruntime : ℕ → ℕ) (t : Tree) (q : Rq)
    → Zip q top t
    → Zip (after_insert rounds vruntime q) top t
unfolding after_insert AgreeAt Around
after_Zip rounds vruntime t q z = elim (Bool-cases (q.rb_root == 0)) [
  | inl empty ↦ rw empty z
  | inr full ↦ rw full (record {
    around = z.around;
    inside = At-Agree q _ 0 t (λ k h. (refl, refl, refl, refl)) z.inside;
    once = z.once;
  })
]

relabelled : (f : ℕ) (t : Tree) (q : Rq) → Zip q top t → Zip (record q { leftmost = f }) top t
unfolding AgreeAt Around
relabelled f t q z = record {
  around = z.around;
  inside = At-Agree q (record q { leftmost = f }) 0 t (λ k h. (refl, refl, refl, refl)) z.inside;
  once = z.once;
}

repair-Zip :
    (rounds : ℕ) (vruntime : ℕ → ℕ) (n : ℕ) (c : Ctx) (q : Rq)
    → n ≢ 0
    → depth c < rounds
    → Fresh n q
    → Compared vruntime n c
    → count_ctx n c ≡ 0
    → Zip q c leaf
    → Zip (repair rounds n (attach vruntime n (above c) q)) top (place n c)
unfolding repair place Around At
repair-Zip rounds vruntime n top q nz deep f side gone z =
    let q1 = attach vruntime n 0 q in
    let z1 = attach-top vruntime n q nz f in
    let no_parent : (q1.parent n == 0) ≡ true = ground (arith, z1.inside.1) in
    rw no_parent (relabelled n (node false leaf n leaf) q1 z1)
repair-Zip rounds vruntime n (under sd d k far top) q nz deep f side gone z =
    let q1 = attach vruntime n k q in
    let c : Ctx = under sd d k far top in
    let z1 = attach-under vruntime n sd d k far top q nz f side gone z in
    let some_parent : (k == 0) ≡ false = ground (arith, z.around.0) in
    let no_grand : (q1.parent k == 0) ≡ true = ground (arith, z1.around.1) in
    rw (z1.inside.1, some_parent, no_grand) (Zip-plug q1 c (red_node n) z1)
repair-Zip rounds vruntime n (under sd d k far (under sd' g j uncle up)) q nz deep f side gone z =
    let q1 = attach vruntime n k q in
    let c : Ctx = under sd d k far (under sd' g j uncle up) in
    let z1 = attach-under vruntime n sd d k far (under sd' g j uncle up) q nz f side gone z in
    let some_parent : (k == 0) ≡ false = ground (arith, z.around.0) in
    let some_grand : (j == 0) ≡ false = ground (arith, z.around.6.0) in
    rw (z1.inside.1, some_parent, z1.around.1, some_grand)
      (insert_fixup-Zip rounds c (red_node n) q1 nz deep z1)

-- The links before the end of `RbInsert`.
unfoldable pub repaired : ℕ → (ℕ → ℕ) → ℕ → Tree → Rq → Rq
repaired rounds vruntime n t q =
    repair rounds n (attach vruntime n (above (way vruntime n top t)) (init_node n q))

-- `RbInsert` of a process that is not in the tree.
pub rb_insert-Zip :
    (rounds : ℕ) (vruntime : ℕ → ℕ) (n : ℕ) (t : Tree) (q : Rq)
    → n ≢ 0
    → count n t ≡ 0
    → size t < rounds
    → Zip q top t
    → (rb_insert rounds vruntime n q
        ≡ after_insert rounds vruntime (repaired rounds vruntime n t q))
      × Zip (repaired rounds vruntime n t q) top (place n (way vruntime n top t))
unfolding rb_insert repaired Around depth count_ctx Compared
rb_insert-Zip rounds vruntime n t q nz gone high z =
    let q1 = init_node n q in
    let c : Ctx = way vruntime n top t in
    let z1 = init_Zip n t q gone z in
    let (e, z2) = way-Zip rounds vruntime n top t q1 high z1 in
    let has : (n == 0) ≡ false = ground arith in
    let deep = depth-way vruntime n top t in
    (
      rw has refl
          ∙ ap (λ y. after_insert rounds vruntime (repair rounds n (attach vruntime n y q1)))
              (ap (λ x. descend rounds vruntime n 0 x q1) z1.around ∙ e),
      repair-Zip rounds vruntime n c q1 nz (omega arith) (init-Fresh n q)
          (way-Compared vruntime n top t tt) (omega (arith, count-way vruntime n n top t, gone)) z2,
    )
