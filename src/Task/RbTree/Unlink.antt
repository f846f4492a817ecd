-- ===== src/Task/RbTree/Unlink.antt =====
-- A process with two children and its successor, in `RbErase`.
use info.Prelude.{
  ℕ, subst, ◌+◌, ◌≤◌, ◌≡◌, refl, sym, ap, ◌∙◌, ◌≢◌, inl, inr, Bool, true, arith, ◌==◌, Bool-cases,
}
use info.Prelude.Maps.{put, put_self, put_ne}
use info.Task.RbTree.{Side, right, Rq, set_child, rb_set_parent, replace_by}
use info.Task.RbTree.Trees.{
  Tree, leaf, node, Ctx, root, above, is, count, count_ctx, At, Zip, AgreeAt, At-Agree,
  Around-Agree, is_self, is-zero, count-root,
}
use info.Task.RbTree.Links.{relink_self, Agree-set_child, absent, absent_ctx}
use info.Task.RbTree.Attach.{once_new}
use info.Task.RbTree.Stops.{parent-root}
use info.Task.RbTree.Replace.{
  Agree-rb_set_parent, rb_set_parent-rb_root, rb_set_parent-child, adopt,
}
use info.Task.RbTree.Succeed.{take_over, take_over-Zip}

-- A process that is in no place changes its links.
moved_Zip :
    (c : Ctx) (t : Tree) (y : ℕ) (q : Rq) (v : ℕ)
    → count_ctx y c ≡ 0
    → count y t ≡ 0
    → Zip q c t
    → Zip (set_child right y v q) c t
moved_Zip c t y q v gone_c gone_t z =
    let q' = set_child right y v q in
    record {
      around =
          Around-Agree q q' (root t) c refl
            (λ k h. Agree-set_child k right y v q (absent_ctx y k c gone_c h)) z.around;
      inside =
          At-Agree q q' (above c) t (λ k h. Agree-set_child k right y v q (absent y k t gone_t h))
            z.inside;
      once = z.once;
    }

-- With the first process of the second child lifted out, the links after which it takes the place over.
pub far_Zip :
    (c : Ctx) (d : Bool) (l r : Tree) (n y : ℕ) (q : Rq)
    → y ≢ 0
    → count_ctx y c + count y (node d l n r) ≡ 0
    → Zip q c (node d l n r)
    → let moved = set_child right y (q.child right n) q in
      Zip (take_over n y (rb_set_parent (moved.child right n) y moved)) c (node d l y r)
unfolding At count AgreeAt
far_Zip c d l r n y q y_nz gone z =
    let m : ℕ = root r in
    let moved = set_child right y m q in
    let z1 = moved_Zip c (node d l n r) y q m (omega (arith, gone)) (omega (arith, gone)) z in
    let (n_nz, parent_n, red_n, left_n, right_n, at_l, at_r) = z1.inside in
    let q2 = rb_set_parent m y moved in
    let other : m ≢ 0 → (count_ctx m c ≡ 0) × (count m l ≡ 0) × (m ≢ n) = λ h.
      let there = count-root r h in
      (
        omega (arith, z.once m),
        omega (arith, z.once m),
        λ e. is-zero m n (omega (arith, z.once m)) e,
      ) in
    let keep = Agree-rb_set_parent n m y moved (λ h. (other h).2) in
    let self = is_self n in
    let same_child = rb_set_parent-child m y moved in
    let sum : (k : ℕ) → count_ctx k c + count k l + count k r + is k n + is k y ≤ 1 = λ k.
      omega (arith, once_new (λ i. count_ctx i c + count i (node d l n r)) k y gone (z.once k)) in
    let result =
      take_over-Zip c d l r n y q2
        (Around-Agree moved q2 n c (rb_set_parent-rb_root m y moved)
          (λ k h. Agree-rb_set_parent k m y moved (λ i. absent_ctx m k c (other i).0 h)) z1.around)
        (keep.0 ∙ parent_n) (keep.1 ∙ red_n) (keep.2 ∙ left_n)
        (At-Agree moved q2 n l
          (λ k h. Agree-rb_set_parent k m y moved (λ i. absent m k l (other i).1 h)) at_l)
        (ap (λ (f : Side → ℕ → ℕ). f right y) same_child ∙ relink_self right y m q.child)
        (adopt moved n y r (λ k. omega (arith, z.once k)) at_r) n_nz y_nz sum in
    subst
      (λ u.
        let set = set_child right y u q in
        Zip (take_over n y (rb_set_parent (set.child right n) y set)) c (node d l y r))
      (sym z.inside.4)
      (subst (λ w. Zip (take_over n y (rb_set_parent w y moved)) c (node d l y r)) (sym right_n)
        result)

-- A parent that is set to what it is.
idle : (x y k : ℕ) (q : Rq) → (x ≢ 0 → q.parent x ≡ y) → AgreeAt k q (rb_set_parent x y q)
unfolding AgreeAt
idle x y k q same = elim (Bool-cases (x == 0)) [
  | inl z ↦ rw z (refl, refl, refl, refl)
  | inr z ↦ elim (Bool-cases (k == x)) [
    | inl here ↦
        let e : k ≡ x = ground (arith, here) in
        rw z (
          ap (λ j. put q.parent x y j) e
              ∙ put_self q.parent x y
              ∙ sym (same (λ i. ground arith))
              ∙ ap q.parent (sym e),
          refl,
          refl,
          refl,
        )
    | inr other ↦ rw z (put_ne q.parent {i = x} {j = k} y (λ e. ground arith), refl, refl, refl)
  ]
]

-- The second child is the successor.
pub near_Zip :
    (c : Ctx) (d dr : Bool) (l xr : Tree) (n y : ℕ) (q : Rq)
    → Zip q c (node d l n (node dr leaf y xr))
    → (replace_by n y q ≡ take_over n y (rb_set_parent (q.child right y) y q))
      × Zip (take_over n y (rb_set_parent (q.child right y) y q)) c (node d l y xr)
unfolding replace_by At count AgreeAt
near_Zip c d dr l xr n y q z =
    let (n_nz, parent_n, red_n, left_n, right_n, at_l, at_r) = z.inside in
    let x : ℕ = root xr in
    let q1 = rb_set_parent x y q in
    let same = idle x y in
    let links : (k : ℕ) → AgreeAt k q q1 = λ k. idle x y k q (λ nz. parent-root q y xr nz at_r.6) in
    let x_is : q.child right y ≡ x = at_r.4 in
    let taken =
      take_over-Zip c d l xr n y q1
        (Around-Agree q q1 n c (rb_set_parent-rb_root x y q) (λ k h. links k) z.around)
        ((links n).0 ∙ parent_n) ((links n).1 ∙ red_n) ((links n).2 ∙ left_n)
        (At-Agree q q1 n l (λ k h. links k) at_l) ((links y).3 ∙ x_is)
        (At-Agree q q1 y xr (λ k h. links k) at_r.6) n_nz at_r.0 (λ k. omega (arith, z.once k)) in
    let direct : (q1.parent y == n) ≡ true = ground (arith, (links y).0, at_r.1) in
    (
      rw (x_is, direct) refl,
      subst (λ m. Zip (take_over n y (rb_set_parent m y q)) c (node d l y xr)) (sym x_is) taken,
    )
