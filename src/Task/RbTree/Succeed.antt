-- ===== src/Task/RbTree/Succeed.antt =====
-- The successor takes the place of a process with two children: the end of `RbErase`'s third branch.
use info.Prelude.{ℕ, subst, ◌+◌, ◌≤◌, ◌≡◌, sym, ap, ◌∙◌, ◌≢◌, Bool, arith}
use info.Prelude.Maps.{put_self}
use info.Task.RbTree.{Side, left, right, Rq, set_child, set_red, rb_set_parent, replace_node}
use info.Task.RbTree.Trees.{
  Tree, node, Ctx, root, above, is, count, count_ctx, At, Around, Zip, AgreeAt, At-Agree,
  Around-Agree, is_self, is-zero, count-root,
}
use info.Task.RbTree.Links.{
  relink_self, relink_ne, relink-flip, Agree_trans, Agree-set_child, Agree-set_red, put_hole,
  Agree-put_hole, absent, absent_ctx,
}
use info.Task.RbTree.Rotations.{At-moved}
use info.Task.RbTree.Replace.{
  Agree-rb_set_parent, rb_set_parent-rb_root, rb_set_parent-is_red, rb_set_parent-child,
  rb_set_parent_self, put_in, Agree-put_in, Around-put_in, replace_node-put_in,
}

-- `y` gets the place, the left child and the colour of `n`.
abbrev pub take_over : ℕ → ℕ → Rq → Rq
take_over n y q =
    let q3 = replace_node n y q in
    let q4 = set_child left y (q3.child left n) q3 in
    let q5 = rb_set_parent (q4.child left n) y q4 in set_red y (q5.is_red n) q5

-- `n` in a place with two children, and `y`, which is in none, with the second of them.
module _ (c : Ctx) (d : Bool) (l r : Tree) (n y : ℕ) (q : Rq) (around : Around q n c)
    (parent_n : q.parent n ≡ above c) (red_n : q.is_red n ≡ d) (left_n : q.child left n ≡ root l)
    (at_l : At q n l) (right_y : q.child right y ≡ root r) (at_r : At q y r) (n_nz : n ≢ 0)
    (y_nz : y ≢ 0)
    (sum : (k : ℕ) → count_ctx k c + count k l + count k r + is k n + is k y ≤ 1) where
  once_n : (count_ctx n c ≡ 0) × (count n l ≡ 0) × (is n y ≡ 0)
  once_n =
      let self = is_self n in (omega (arith, sum n), omega (arith, sum n), omega (arith, sum n))

  once_y : (count_ctx y c ≡ 0) × (count y l ≡ 0) × (count y r ≡ 0)
  once_y =
      let self = is_self y in (omega (arith, sum y), omega (arith, sum y), omega (arith, sum y))

  y≢n : y ≢ n
  y≢n e = is-zero n y once_n.2 (sym e)

  -- The links when each is in its place.
  unfoldable succeeded : Rq
  succeeded = set_red y d (rb_set_parent (root l) y (set_child left y (root l) (put_in c y q)))

  -- Only `y`, the first child and the process above change.
  Agree-succeeded : (k : ℕ) → y ≢ k → (root l ≢ 0 → root l ≢ k) → AgreeAt k (put_in c y q) succeeded
  unfolding succeeded
  Agree-succeeded k ny nl =
      let q3 = put_in c y q in
      let q4 = set_child left y (root l) q3 in
      let q5 = rb_set_parent (root l) y q4 in
      Agree_trans k q3 q4 (set_red y d q5) (Agree-set_child k left y (root l) q3 ny) (
        Agree_trans k q4 q5 (set_red y d q5) (Agree-rb_set_parent k (root l) y q4 nl)
          (Agree-set_red k y d q5 ny))

  Agree-all :
      (k : ℕ) → count_ctx k c ≡ 0 → y ≢ k → (root l ≢ 0 → root l ≢ k) → AgreeAt k q succeeded
  Agree-all k gone ny nl =
      Agree_trans k q (put_in c y q) succeeded (Agree-put_in k c y q gone (λ h. ny))
        (Agree-succeeded k ny nl)

  n_links : AgreeAt n q (put_in c y q)
  n_links = Agree-put_in n c y q once_n.0 (λ h. y≢n)

  take_over-succeeded : take_over n y q ≡ succeeded
  unfolding succeeded AgreeAt
  take_over-succeeded =
      let q3 = put_in c y q in
      let q4 = set_child left y (root l) q3 in
      let q5 = rb_set_parent (root l) y q4 in
      let first_is : q3.child left n ≡ root l = n_links.2 ∙ left_n in
      let still : q4.child left n ≡ root l =
        relink_ne left left y (root l) n q3.child y≢n ∙ first_is in
      let colour_is : q5.is_red n ≡ d =
        ap (λ (f : ℕ → Bool). f n) (rb_set_parent-is_red (root l) y q4) ∙ n_links.1 ∙ red_n in
      ap
        (λ (r : Rq).
          let r4 = set_child left y (r.child left n) r in
          let r5 = rb_set_parent (r4.child left n) y r4 in set_red y (r5.is_red n) r5)
        (replace_node-put_in c n y q around parent_n n_nz once_n.0)
      ∙ ap
          (λ m.
            let r4 = set_child left y m q3 in
            let r5 = rb_set_parent (r4.child left n) y r4 in set_red y (r5.is_red n) r5)
          first_is
      ∙ ap (λ m. let r5 = rb_set_parent m y q4 in set_red y (r5.is_red n) r5) still
      ∙ ap (λ b. set_red y b q5) colour_is

  once_m : root l ≢ 0 → (count_ctx (root l) c ≡ 0) × (count (root l) r ≡ 0) × (y ≢ root l)
  once_m nz =
      let there = count-root l nz in
      (
        omega (arith, sum (root l)),
        omega (arith, sum (root l)),
        λ e. omega (arith, there, ap (λ k. count k l) e, once_y.1),
      )

  -- The links of the first child, other than its parent.
  child_links :
      root l ≢ 0
      → (succeeded.parent (root l) ≡ y)
        × (succeeded.is_red (root l) ≡ q.is_red (root l))
        × (succeeded.child left (root l) ≡ q.child left (root l))
        × (succeeded.child right (root l) ≡ q.child right (root l))
  unfolding succeeded AgreeAt
  child_links nz =
      let m : ℕ = root l in
      let q3 = put_in c y q in
      let q4 = set_child left y m q3 in
      let ne = (once_m nz).2 in
      let a = Agree-put_in m c y q (once_m nz).0 (λ h. ne) in
      let b = Agree-set_child m left y m q3 ne in
      let e = Agree-set_red m y d (rb_set_parent m y q4) ne in
      let same_child = rb_set_parent-child m y q4 in
      (
        rb_set_parent_self m y q4 nz,
        e.1 ∙ ap (λ (f : ℕ → Bool). f m) (rb_set_parent-is_red m y q4) ∙ a.1,
        ap (λ (f : Side → ℕ → ℕ). f left m) same_child ∙ b.2 ∙ a.2,
        ap (λ (f : Side → ℕ → ℕ). f right m) same_child ∙ b.3 ∙ a.3,
      )

  inside_succeeded : At succeeded (above c) (node d l y r)
  unfolding succeeded AgreeAt At put_in
  inside_succeeded =
      let q3 = put_in c y q in
      let q4 = set_child left y (root l) q3 in
      let kept = Agree-rb_set_parent y (root l) y q4 (λ nz e. (once_m nz).2 (sym e)) in
      let holes = Agree-put_hole y c y q once_y.0 in
      (
        y_nz,
        kept.0 ∙ rb_set_parent_self y (above c) (put_hole c y q) y_nz,
        put_self (rb_set_parent (root l) y q4).is_red y d,
        kept.2 ∙ relink_self left y (root l) q3.child,
        kept.3
            ∙ relink-flip left y (root l) y q3.child
            ∙ ap (λ (f : Side → ℕ → ℕ). f right y)
                (rb_set_parent-child y (above c) (put_hole c y q))
            ∙ holes.3
            ∙ right_y,
        At-moved q succeeded n y l (λ k. omega (arith, sum k))
            (λ k h ne.
              Agree-all k (omega (arith, sum k, h)) (absent y k l once_y.1 h) (λ nz e. ne (sym e)))
            child_links at_l,
        At-Agree q succeeded y r
            (λ k h.
              Agree-all k (omega (arith, sum k, h)) (absent y k r once_y.2 h)
                (λ nz. absent (root l) k r (once_m nz).1 h))
            at_r,
      )

  pub take_over-Zip : Zip (take_over n y q) c (node d l y r)
  unfolding succeeded count
  take_over-Zip =
      subst (λ s. Zip s c (node d l y r)) (sym take_over-succeeded)
        (record {
          around =
              Around-Agree (put_in c y q) succeeded y c
                (rb_set_parent-rb_root (root l) y (set_child left y (root l) (put_in c y q)))
                (λ k h.
                  Agree-succeeded k (absent_ctx y k c once_y.0 h)
                    (λ nz. absent_ctx (root l) k c (once_m nz).0 h))
                (Around-put_in c n y q (λ k. omega (arith, sum k)) (λ nz. once_y.0) around);
          inside = inside_succeeded;
          once = λ k. omega (arith, sum k);
        })
