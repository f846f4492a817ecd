-- ===== src/Task/RbTree/Lift.antt =====
-- The successor is lifted out of the second child, in `RbErase`.
use info.Prelude.{
  ℕ, subst, ◌+◌, ◌≤◌, ◌<◌, ◌≡◌, refl, sym, ap, ◌∙◌, ◌≢◌, ◌⊎◌, inl, inr, ◌∷◌, ◌++◌, arith,
}
use info.Task.RbTree.{left, right, Rq, rb_set_parent, replace_node}
use info.Task.RbTree.Trees.{
  Tree, leaf, node, fork, Ctx, under, root, is, count, count_ctx, At, Around, Zip, AgreeAt,
  Around-Agree, is_self, is-zero, count-root,
}
use info.Task.RbTree.Links.{not_root, absent_ctx}
use info.Task.RbTree.Moves.{Zip-up, Zip-down}
use info.Task.RbTree.Keys.{keys, size}
use info.Task.RbTree.Insert.{first, first-append}
use info.Task.RbTree.Replace.{Agree-rb_set_parent, rb_set_parent-rb_root, adopt, replace_Zip}

-- A tree without its first process.
unfoldable pub unleft : Tree → Tree
unleft leaf = leaf
unleft (node d leaf y r) = r
unleft (node d (node dl ll kl rl) k r) = node d (unleft (node dl ll kl rl)) k r

pub keys-unleft : (t : Tree) → 0 < size t → keys t ≡ first (keys t) ∷ keys (unleft t)
unfolding keys unleft first size
keys-unleft leaf has = absurd (omega arith)
keys-unleft (node d leaf y r) has = refl
keys-unleft (node d (node dl ll kl rl) k r) has =
    let sub : Tree = node dl ll kl rl in
    ap (λ m. m ++ k ∷ keys r) (keys-unleft (node dl ll kl rl) (omega arith))
    ∙ ap (λ y. y ∷ keys (unleft sub) ++ k ∷ keys r)
        (sym (first-append (keys ll) kl (keys rl) (k ∷ keys r)))

pub count-unleft :
    (k : ℕ) (t : Tree) → 0 < size t → count k t ≡ is k (first (keys t)) + count k (unleft t)
unfolding keys unleft first size count
count-unleft k leaf has = absurd (omega arith)
count-unleft k (node d leaf y r) has = omega arith
count-unleft k (node d (node dl ll kl rl) j r) has =
    let sub : Tree = node dl ll kl rl in
    let same : is k (first (keys sub)) ≡ is k (first (keys sub ++ j ∷ keys r)) =
      ap (λ y. is k y) (sym (first-append (keys ll) kl (keys rl) (j ∷ keys r))) in
    omega (arith, count-unleft k (node dl ll kl rl) (omega arith), same)

-- The first process of a tree is replaced by what is on its right.
pub lift_Zip :
    (c : Ctx) (t : Tree) (q : Rq)
    → 0 < size t
    → Zip q c t
    → let y : ℕ = first (keys t) in
      let x : ℕ = q.child right y in Zip (replace_node y x (rb_set_parent x y q)) c (unleft t)
unfolding keys unleft first size At count Around count_ctx fork AgreeAt
lift_Zip c leaf q has z = absurd (omega arith)
lift_Zip c (node d leaf y xr) q has z =
    let (nz, parent_y, red_y, left_y, right_y, at_l, at_r) = z.inside in
    let q1 = rb_set_parent (root xr) y q in
    let self = is_self y in
    let other : root xr ≢ 0 → (count_ctx (root xr) c ≡ 0) × (root xr ≢ y) = λ h.
      let there = count-root xr h in
      (
        omega (arith, z.once (root xr)),
        λ e. is-zero (root xr) y (omega (arith, z.once (root xr))) e,
      ) in
    let keep = Agree-rb_set_parent y (root xr) y q (λ h. (other h).1) in
    let lifted =
      replace_Zip c y y xr q1
        (Around-Agree q q1 y c (rb_set_parent-rb_root (root xr) y q)
          (λ k h. Agree-rb_set_parent k (root xr) y q (λ i. absent_ctx (root xr) k c (other i).0 h))
          z.around)
        (keep.0 ∙ parent_y) nz (omega (arith, z.once y)) (λ k. omega (arith, z.once k))
        (adopt q y y xr (λ k. omega (arith, z.once k)) at_r) in
    rw right_y lifted
lift_Zip c (node d (node dl ll kl rl) k r) q has z =
    let sub : Tree = node dl ll kl rl in
    let e : first (keys sub) ≡ first (keys sub ++ k ∷ keys r) =
      sym (first-append (keys ll) kl (keys rl) (k ∷ keys r)) in
    let lifted =
      lift_Zip (under left d k r c) (node dl ll kl rl) q (omega arith)
        (Zip-down q left d k r c sub z) in
    subst
      (λ y.
        Zip (replace_node y (q.child right y) (rb_set_parent (q.child right y) y q)) c
          (node d (unleft sub) k r))
      e (Zip-up _ left d k r c (unleft sub) lifted)

-- The links of the first process of a tree.
pub first_links :
    (q : Rq) (p : ℕ) (t : Tree)
    → root t ≢ 0
    → ((k : ℕ) → count k t ≤ 1)
    → At q p t
    → let y : ℕ = first (keys t) in
      (y ≢ 0) × (q.child right y ≢ y) × ((q.parent y ≡ p) ⊎ (0 < count (q.parent y) t))
unfolding keys first At count
first_links q p leaf nz once a = absurd (nz refl)
first_links q p (node d leaf y r) nz once a =
    let self = is_self y in
    (nz, λ e. not_root y r (omega (arith, once y)) nz (sym e ∙ a.4), inl a.1)
first_links q p (node d (node dl ll kl rl) k r) nz once a =
    let sub : Tree = node dl ll kl rl in
    let e : first (keys sub) ≡ first (keys sub ++ k ∷ keys r) =
      sym (first-append (keys ll) kl (keys rl) (k ∷ keys r)) in
    let (y_nz, right_y, parent_y) =
      first_links q k (node dl ll kl rl) a.5.0 (λ j. omega (arith, once j)) a.5 in
    subst
      (λ y.
        (y ≢ 0)
        × (q.child right y ≢ y)
        × ((q.parent y ≡ p) ⊎ (0 < count (q.parent y) (node d sub k r))))
      e
      (
        y_nz,
        right_y,
        inr (elim parent_y [
          | inl at_k ↦ rw at_k (omega (arith, is_self k))
          | inr below ↦ omega (arith, below)
        ]),
      )
