-- ===== src/Task/RbTree/Rotate.antt =====
-- A rotation of the links is a rotation of the tree.
use info.Prelude.{ℕ, subst, ◌+◌, ◌≤◌, ◌<◌, ◌≡◌, sym, ap, ◌∙◌, ◌≢◌, Bool, arith}
use info.Task.RbTree.{Side, left, right, flip, Rq, relink, rotate}
use info.Task.RbTree.Trees.{
  Tree, fork, Ctx, root, above, is, count, count_ctx, At, Around, Zip, AgreeAt, At-Agree, is_self,
  is-zero, count-root, count-fork, root-fork, Fork, At→Fork, Fork→At,
}
use info.Task.RbTree.Links.{relink_self, relink_ne, relink-flip, relink_other, absent}
use info.Task.RbTree.Rotations.{
  At-moved, rotated, Agree-rotated, rotated-red, rotated-parent_x, rotated-parent_y,
  rotated-parent_b, rotated-child, rotate-rotated, Around-rotated,
}

-- A node `x`, with a node `y` as its child on the far side, in a hole.
module _ (sd : Side) (c : Ctx) (rx ry : Bool) (a b d : Tree) (x y : ℕ) (q : Rq)
    (f : Fork q (above c) sd rx a x (fork sd ry b y d)) (g : Fork q x sd ry b y d)
    (sum : (k : ℕ)
      → count_ctx k c + (count k a + is k x + (count k b + is k y + count k d)) ≤ 1) where
  once_x : (count_ctx x c ≡ 0) × (count x a ≡ 0) × (count x b ≡ 0) × (count x d ≡ 0) × (is x y ≡ 0)
  once_x =
      let self = is_self x in
      (
        omega (arith, sum x),
        omega (arith, sum x),
        omega (arith, sum x),
        omega (arith, sum x),
        omega (arith, sum x),
      )

  once_y : (count_ctx y c ≡ 0) × (count y a ≡ 0) × (count y b ≡ 0) × (count y d ≡ 0)
  once_y =
      let self = is_self y in
      (omega (arith, sum y), omega (arith, sum y), omega (arith, sum y), omega (arith, sum y))

  once_b :
      root b ≢ 0
      → (count_ctx (root b) c ≡ 0)
        × (count (root b) a ≡ 0)
        × (is (root b) x ≡ 0)
        × (is (root b) y ≡ 0)
        × (count (root b) d ≡ 0)
  once_b nz =
      let there = count-root b nz in
      (
        omega (arith, sum (root b)),
        omega (arith, sum (root b)),
        omega (arith, sum (root b)),
        omega (arith, sum (root b)),
        omega (arith, sum (root b)),
      )

  x≢y : x ≢ y
  x≢y = is-zero x y once_x.4

  turned : Rq
  turned = rotated sd c x y (root b) q

  Agree-turned :
      (k : ℕ) → x ≢ k → y ≢ k → (root b ≢ 0 → root b ≢ k) → count_ctx k c ≡ 0 → AgreeAt k q turned
  unfolding turned
  Agree-turned k = Agree-rotated sd c x y (root b) k q

  Agree-a : (k : ℕ) → 0 < count k a → AgreeAt k q turned
  Agree-a k h =
      Agree-turned k (absent x k a once_x.1 h) (absent y k a once_y.1 h)
        (λ nz. absent (root b) k a (once_b nz).1 h) (omega (arith, sum k))

  Agree-b : (k : ℕ) → 0 < count k b → k ≢ root b → AgreeAt k q turned
  Agree-b k h ne =
      Agree-turned k (absent x k b once_x.2 h) (absent y k b once_y.2 h) (λ nz e. ne (sym e))
        (omega (arith, sum k))

  Agree-d : (k : ℕ) → 0 < count k d → AgreeAt k q turned
  Agree-d k h =
      Agree-turned k (absent x k d once_x.3 h) (absent y k d once_y.3 h)
        (λ nz. absent (root b) k d (once_b nz).4 h) (omega (arith, sum k))

  child-turned :
      (e : Side) (k : ℕ)
      → count_ctx k c ≡ 0
      → turned.child e k ≡ relink sd y x (relink (flip sd) x (root b) q.child) e k
  unfolding turned
  child-turned e k gone = rotated-child sd c x y (root b) e k q gone

  At-b : At turned x b
  unfolding turned
  At-b =
      At-moved q turned y x b (λ k. omega (arith, sum k)) Agree-b
        (λ nz.
          let (gone, in_a, ne_x, ne_y, in_d) = once_b nz in
          let nx : x ≢ root b = λ e. is-zero (root b) x ne_x (sym e) in
          let ny : y ≢ root b = λ e. is-zero (root b) y ne_y (sym e) in
          (
            rotated-parent_b sd c x y (root b) q nz nx ny,
            ap (λ (r : ℕ → Bool). r (root b)) (rotated-red sd c x y (root b) q),
            child-turned left (root b) gone
                ∙ relink_ne sd left y x (root b) (relink (flip sd) x (root b) q.child) ny
                ∙ relink_ne (flip sd) left x (root b) (root b) q.child nx,
            child-turned right (root b) gone
                ∙ relink_ne sd right y x (root b) (relink (flip sd) x (root b) q.child) ny
                ∙ relink_ne (flip sd) right x (root b) (root b) q.child nx,
          ))
        g.near_at

  Fork-x : Fork turned y sd rx a x b
  unfolding turned
  Fork-x = record {
    present = f.present;
    parent_is = rotated-parent_x sd c x y (root b) q;
    red_is = ap (λ (r : ℕ → Bool). r x) (rotated-red sd c x y (root b) q) ∙ f.red_is;
    near_is =
        child-turned sd x once_x.0
        ∙ relink_ne sd sd y x x (relink (flip sd) x (root b) q.child) (λ e. x≢y (sym e))
        ∙ relink_other sd x (root b) x q.child
        ∙ f.near_is;
    far_is =
        child-turned (flip sd) x once_x.0
        ∙ relink-flip sd y x x (relink (flip sd) x (root b) q.child)
        ∙ relink_self (flip sd) x (root b) q.child;
    near_at = At-Agree q turned x a Agree-a f.near_at;
    far_at = At-b;
  }

  Fork-y : Fork turned (above c) sd ry (fork sd rx a x b) y d
  unfolding turned
  Fork-y = record {
    present = g.present;
    parent_is = rotated-parent_y sd c x y (root b) q x≢y;
    red_is = ap (λ (r : ℕ → Bool). r y) (rotated-red sd c x y (root b) q) ∙ g.red_is;
    near_is =
        child-turned sd y once_y.0
        ∙ relink_self sd y x (relink (flip sd) x (root b) q.child)
        ∙ sym (root-fork sd rx a x b);
    far_is =
        child-turned (flip sd) y once_y.0
        ∙ relink-flip sd y x y (relink (flip sd) x (root b) q.child)
        ∙ relink_ne (flip sd) (flip sd) x (root b) y q.child x≢y
        ∙ g.far_is;
    near_at = Fork→At turned y sd rx a x b Fork-x;
    far_at = At-Agree q turned y d Agree-d g.far_at;
  }

  rotate-turned : Around q x c → rotate sd x q ≡ turned
  unfolding turned
  rotate-turned around =
      rotate-rotated sd c x y (root b) q (f.far_is ∙ root-fork sd ry b y d) g.near_is f.present
        g.present x≢y (λ nz. is-zero (root b) x (once_b nz).2) around f.parent_is once_x.0 once_y.0
        (λ nz. (once_b nz).0)

  turned-Zip : Around q x c → Zip turned c (fork sd ry (fork sd rx a x b) y d)
  unfolding turned
  turned-Zip around = record {
    around =
        subst (λ k. Around turned k c) (sym (root-fork sd ry (fork sd rx a x b) y d))
          (Around-rotated sd c x y (root b) q (λ k. omega (arith, sum k)) once_x.0 once_y.0
            (λ nz. (once_b nz).0) around);
    inside = Fork→At turned (above c) sd ry (fork sd rx a x b) y d Fork-y;
    once = λ k.
        omega (arith, sum k, count-fork k sd ry (fork sd rx a x b) y d, count-fork k sd rx a x b);
  }

-- If the links are those of a tree in a context, with no process twice, and the root of the tree
-- has a child on one side, then the rotation at the root to the other side gives the links of
-- the rotated tree in the same context, for both sides and with the colours kept.
pub rotate-Zip :
    (sd : Side) (c : Ctx) (rx ry : Bool) (a b d : Tree) (x y : ℕ) (q : Rq)
    → Zip q c (fork sd rx a x (fork sd ry b y d))
    → Zip (rotate sd x q) c (fork sd ry (fork sd rx a x b) y d)
rotate-Zip sd c rx ry a b d x y q zip =
    let f = At→Fork q (above c) sd rx a x (fork sd ry b y d) zip.inside in
    let g = At→Fork q x sd ry b y d f.far_at in
    let sum : (k : ℕ)
        → count_ctx k c + (count k a + is k x + (count k b + is k y + count k d)) ≤ 1 =
      λ k.
        omega (
          arith,
          zip.once k,
          count-fork k sd rx a x (fork sd ry b y d),
          count-fork k sd ry b y d,
        ) in
    let around : Around q x c =
      subst (λ k. Around q k c) (root-fork sd rx a x (fork sd ry b y d)) zip.around in
    subst (λ r. Zip r c (fork sd ry (fork sd rx a x b) y d))
      (sym (rotate-turned sd c rx ry a b d x y q f g sum around))
      (turned-Zip sd c rx ry a b d x y q f g sum around)
