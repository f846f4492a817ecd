-- ===== src/Task/RbTree/Attach.antt =====
-- The new node of `RbInsert` in its place.
use info.Prelude.{
  ℕ, subst, ◌+◌, ◌≤◌, ◌<◌, ◌≡◌, refl, sym, ap, ◌∙◌, ◌≢◌, inl, inr, Bool, true, false, arith, ◌==◌,
  Bool-cases,
}
use info.Prelude.Maps.{put_self}
use info.Task.RbTree.{
  Side, left, right, Rq, set_parent, attach, insert_fixup, insert_loop, rb_set_black,
}
use info.Task.RbTree.Trees.{
  Tree, leaf, node, fork, Ctx, top, under, root, is, count, count_ctx, At, Around, Zip,
  Around-Agree, is-zero,
}
use info.Task.RbTree.Links.{relink_ne, Agree-set_parent, put_hole, absent_ctx, Around-put_hole}
use info.Task.RbTree.Moves.{paint_black}
use info.Task.RbTree.Fixup.{fix, depth, loop_Zip}
use info.Task.RbTree.Ways.{Compared, Fresh}

-- A new process counts once.
pub once_new : (f : ℕ → ℕ) (j n : ℕ) → f n ≡ 0 → f j ≤ 1 → f j + is j n ≤ 1
once_new f j n gone le = elim (Bool-cases (j == n)) [
  | inl same ↦
      let e : j ≡ n = ground (arith, same) in
      let zero_j : f j ≡ 0 = ap f e ∙ gone in rw same (omega arith)
  | inr other ↦ rw other (omega arith)
]

abbrev pub red_node : ℕ → Tree
red_node n = node true leaf n leaf

attach-hole :
    (vruntime : ℕ → ℕ) (n : ℕ) (sd : Side) (d : Bool) (k : ℕ) (far : Tree) (up : Ctx) (q : Rq)
    → k ≢ 0
    → Compared vruntime n (under sd d k far up)
    → attach vruntime n k q ≡ put_hole (under sd d k far up) n (set_parent n k q)
unfolding attach put_hole Compared
attach-hole vruntime n left d k far up q nz less =
    let has : (k == 0) ≡ false = ground arith in rw (has, less) refl
attach-hole vruntime n right d k far up q nz more =
    let has : (k == 0) ≡ false = ground arith in rw (has, more) refl

pub attach-top :
    (vruntime : ℕ → ℕ) (n : ℕ) (q : Rq)
    → n ≢ 0
    → Fresh n q
    → Zip (attach vruntime n 0 q) top (node false leaf n leaf)
unfolding attach Around At count count_ctx
attach-top vruntime n q nz f = record {
  around = refl;
  inside = (nz, put_self q.parent n 0, put_self q.is_red n false, f.no_left, f.no_right, tt, tt);
  once = λ j. omega (arith, once_new (λ k. 0) j n refl (omega arith));
}

pub attach-under :
    (vruntime : ℕ → ℕ) (n : ℕ) (sd : Side) (d : Bool) (k : ℕ) (far : Tree) (up : Ctx) (q : Rq)
    → n ≢ 0
    → Fresh n q
    → Compared vruntime n (under sd d k far up)
    → count_ctx n (under sd d k far up) ≡ 0
    → Zip q (under sd d k far up) leaf
    → Zip (attach vruntime n k q) (under sd d k far up) (red_node n)
unfolding put_hole Around At count count_ctx
attach-under vruntime n sd d k far up q nz f side gone z =
    let c : Ctx = under sd d k far up in
    let q1 = set_parent n k q in
    let around1 =
      Around-Agree q q1 0 c refl (λ j h. Agree-set_parent j n k q (absent_ctx n j c gone h))
        z.around in
    let ne : k ≢ n = λ e. is-zero n k (omega (arith, gone)) (sym e) in
    let new : Zip (put_hole c n q1) c (red_node n) = record {
      around = Around-put_hole c 0 n q1 (λ j. omega (arith, z.once j)) around1;
      inside = (
        nz,
        put_self q.parent n k,
        f.red,
        relink_ne sd left k n n q.child ne ∙ f.no_left,
        relink_ne sd right k n n q.child ne ∙ f.no_right,
        tt,
        tt,
      );
      once = λ j. omega (arith, once_new (λ i. count_ctx i c) j n gone (omega (arith, z.once j)));
    } in
    subst (λ r. Zip r c (red_node n)) (sym (attach-hole vruntime n sd d k far up q z.around.0 side))
      new

abbrev pub blacken : Tree → Tree
blacken leaf = leaf
blacken (node c l k r) = node false l k r

blacken-Zip : (q : Rq) (t : Tree) → Zip q top t → Zip (rb_set_black q.rb_root q) top (blacken t)
unfolding Around fork
blacken-Zip q leaf z =
    let none_there : (q.rb_root == 0) ≡ true = ground (arith, z.around) in rw none_there z
blacken-Zip q (node c l k r) z =
    subst (λ m. Zip (rb_set_black m q) top (node false l k r)) (sym z.around)
      (paint_black q top left c l k r z)

-- `RbInsertColorFixup` at the root of a tree in its place.
pub insert_fixup-Zip :
    (rounds : ℕ) (c : Ctx) (t : Tree) (q : Rq)
    → root t ≢ 0
    → depth c < rounds
    → Zip q c t
    → Zip (insert_fixup rounds (root t) q) top (blacken (fix c t))
unfolding insert_fixup
insert_fixup-Zip rounds c t q nz deep z =
    blacken-Zip (insert_loop rounds (root t) q) (fix c t) (loop_Zip rounds c t q nz deep z)
