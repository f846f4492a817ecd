-- ===== src/Task/RbTree/Erase.antt =====
-- The tree that `RbErase` leaves, before its colours.
use info.Prelude.{
  ℕ, subst, ◌≤◌, ◌<◌, ◌≡◌, refl, sym, ap, ◌∙◌, ◌≢◌, inl, inr, Bool, true, false, ◌∷◌, ◌++◌,
  append-nil, arith, ◌==◌,
}
use info.Task.RbTree.{
  left, right, Rq, set_child, rb_set_parent, replace_node, replace_by, find_leftmost, unlink,
}
use info.Task.RbTree.Trees.{
  Tree, leaf, node, fork, Ctx, under, root, count, count_ctx, At, Zip, AgreeAt, is_self,
}
use info.Task.RbTree.Moves.{Zip-up, Zip-down}
use info.Task.RbTree.Keys.{keys, size}
use info.Task.RbTree.Insert.{first, first-append, find_leftmost_lem}
use info.Task.RbTree.Replace.{Agree-rb_set_parent, replace_Zip}
use info.Task.RbTree.Succeed.{take_over}
use info.Task.RbTree.Lift.{unleft, keys-unleft, count-unleft, lift_Zip, first_links}
use info.Task.RbTree.Unlink.{far_Zip, near_Zip}

-- The children of a process without it.
unfoldable pub without : Bool → Tree → Tree → Tree
without d leaf r = r
without d (node dl ll kl rl) leaf = node dl ll kl rl
without d (node dl ll kl rl) (node dr lr kr rr) =
    node d (node dl ll kl rl) (first (keys (node dr lr kr rr))) (unleft (node dr lr kr rr))

pub keys-without : (d : Bool) (l r : Tree) → keys (without d l r) ≡ keys l ++ keys r
unfolding without keys size
keys-without d leaf r = refl
keys-without d (node dl ll kl rl) leaf = sym (append-nil (keys (node dl ll kl rl)))
keys-without d (node dl ll kl rl) (node dr lr kr rr) =
    ap (λ m. keys (node dl ll kl rl) ++ m) (sym (keys-unleft (node dr lr kr rr) (omega arith)))

-- The parent of the first process, where the tree has more than it on its left.
first_links_under :
    (q : Rq) (p : ℕ) (d : Bool) (l : Tree) (k : ℕ) (r : Tree)
    → root l ≢ 0
    → ((j : ℕ) → count j (node d l k r) ≤ 1)
    → At q p (node d l k r)
    → let y : ℕ = first (keys (node d l k r)) in
      (y ≢ 0) × (q.child right y ≢ y) × (0 < count (q.parent y) (node d l k r))
unfolding keys first At count
first_links_under q p d leaf k r nz once a = absurd (nz refl)
first_links_under q p d (node dl ll kl rl) k r nz once a =
    let sub : Tree = node dl ll kl rl in
    let (y_nz, right_y, parent_y) = first_links q k sub nz (λ j. omega (arith, once j)) a.5 in
    subst (λ y. (y ≢ 0) × (q.child right y ≢ y) × (0 < count (q.parent y) (node d sub k r)))
      (sym (first-append (keys ll) kl (keys rl) (k ∷ keys r)))
      (
        y_nz,
        right_y,
        elim parent_y [
          | inl at_k ↦ rw at_k (omega (arith, is_self k))
          | inr below ↦ omega (arith, below)
        ],
      )

-- The branch in which the successor is not the second child itself.
replace_by-far :
    (n y : ℕ) (q : Rq)
    → let q1 = rb_set_parent (q.child right y) y q in
      let lifted = replace_node y (q.child right y) q1 in
      let moved = set_child right y (lifted.child right n) lifted in
      q1.parent y ≢ n
      → replace_by n y q ≡ take_over n y (rb_set_parent (moved.child right n) y moved)
unfolding replace_by
replace_by-far n y q apart =
    let other : ((rb_set_parent (q.child right y) y q).parent y == n) ≡ false = ground arith in
    rw other refl

pub replace_by-Zip :
    (c : Ctx) (d : Bool) (l r : Tree) (n : ℕ) (q : Rq)
    → root r ≢ 0
    → Zip q c (node d l n r)
    → let y : ℕ = first (keys r) in Zip (replace_by n y q) c (node d l y (unleft r))
unfolding unleft keys first At count count_ctx size AgreeAt fork
replace_by-Zip c d l leaf n q nz z = absurd (nz refl)
replace_by-Zip c d l (node dr leaf y xr) n q nz z =
    let (e, taken) = near_Zip c d dr l xr n y q z in
    subst (λ s. Zip s c (node d l y xr)) (sym e) taken
replace_by-Zip c d l (node dr (node dm lm km rm) kr rr) n q nz z =
    let r : Tree = node dr (node dm lm km rm) kr rr in
    let y : ℕ = first (keys r) in
    let x : ℕ = q.child right y in
    let at_r = z.inside.6 in
    let once_r : (k : ℕ) → count k r ≤ 1 = λ k. omega (arith, z.once k) in
    let (y_nz, right_y, parent_y) =
      first_links_under q n dr (node dm lm km rm) kr rr at_r.5.0 once_r at_r in
    let lifted = replace_node y x (rb_set_parent x y q) in
    let z1 : Zip lifted c (node d l n (unleft r)) =
      Zip-up lifted right d n l c (unleft r)
        (lift_Zip (under right d n l c) r q (omega arith) (Zip-down q right d n l c r z)) in
    let counted = count-unleft y r (omega arith) in
    let taken =
      far_Zip c d l (unleft r) n y lifted y_nz (omega (arith, z.once y, counted, is_self y)) z1 in
    let parent_same : (rb_set_parent x y q).parent y ≡ q.parent y =
      (Agree-rb_set_parent y x y q (λ h. right_y)).0 in
    let self = is_self n in
    let gone_n : q.parent y ≢ n = λ e. omega (arith, parent_y, ap (λ k. count k r) e, z.once n) in
    let same = replace_by-far n y q (λ e. gone_n (sym parent_same ∙ e)) in
    subst (λ s. Zip s c (node d l y (unleft r))) (sym same) taken

-- The links after the branches of `RbErase`.
pub unlink-Zip :
    (rounds : ℕ) (c : Ctx) (d : Bool) (l r : Tree) (n : ℕ) (q : Rq)
    → size r < rounds
    → Zip q c (node d l n r)
    → Zip (unlink rounds n q).0 c (without d l r)
unfolding unlink without At count size
unlink-Zip rounds c d leaf r n q enough z =
    let (nz, parent_n, red_n, left_n, right_n, at_l, at_r) = z.inside in
    let self = is_self n in
    let no : (q.child left n == 0) ≡ true = ground (arith, left_n) in
    rw (no, right_n)
      (replace_Zip c n n r q z.around parent_n nz (omega (arith, z.once n))
        (λ k. omega (arith, z.once k)) at_r)
unlink-Zip rounds c d (node dl ll kl rl) leaf n q enough z =
    let l : Tree = node dl ll kl rl in
    let (nz, parent_n, red_n, left_n, right_n, at_l, at_r) = z.inside in
    let self = is_self n in
    let some_left : (q.child left n == 0) ≡ false = ground (arith, left_n, at_l.0) in
    let no : (q.child right n == 0) ≡ true = ground (arith, right_n) in
    rw (some_left, no, left_n)
      (replace_Zip c n n l q z.around parent_n nz (omega (arith, z.once n))
        (λ k. omega (arith, z.once k)) at_l)
unlink-Zip rounds c d (node dl ll kl rl) (node dr lr kr rr) n q enough z =
    let r : Tree = node dr lr kr rr in
    let (nz, parent_n, red_n, left_n, right_n, at_l, at_r) = z.inside in
    let some_left : (q.child left n == 0) ≡ false = ground (arith, left_n, at_l.0) in
    let some_right : (q.child right n == 0) ≡ false = ground (arith, right_n, at_r.0) in
    let found : find_leftmost rounds (q.child right n) q ≡ first (keys r) =
      ap (λ x. find_leftmost rounds x q) right_n
      ∙ find_leftmost_lem rounds n r q enough at_r.0 at_r in
    rw (some_left, some_right, found) (replace_by-Zip c d (node dl ll kl rl) r n q at_r.0 z)
