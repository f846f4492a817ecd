-- ===== src/Task/RbTree/Rotations.antt =====
-- A rotation of the links is a rotation of the tree.
use info.Prelude.{
  ℕ, ◌≤◌, ◌<◌, ◌≡◌, refl, sym, ap, ◌∙◌, ◌≢◌, inl, inr, false, arith, ◌==◌, if◌then◌else◌,
  Bool-cases,
}
use info.Prelude.Maps.{put, put_self, put_ne}
use info.Task.RbTree.{Side, left, right, flip, Rq, relink, set_child, set_parent, hang, rotate}
use info.Task.RbTree.Trees.{
  Tree, leaf, node, Ctx, top, under, root, above, count, count_ctx, At, Around, AgreeAt,
  Around-Agree, At-Agree, Agree-side, is_self,
}
use info.Task.RbTree.Links.{
  relink-same, Agree_trans, Agree-set_child, Agree-set_parent, put_hole, Agree-put_hole, absent,
  absent_ctx, Around-put_hole, hang_lem,
}

-- A tree whose root has another parent.
pub At-moved :
    (q q' : Rq) (p p' : ℕ) (t : Tree)
    → ((k : ℕ) → count k t ≤ 1)
    → ((k : ℕ) → 0 < count k t → k ≢ root t → AgreeAt k q q')
    → (root t ≢ 0
        → (q'.parent (root t) ≡ p')
          × (q'.is_red (root t) ≡ q.is_red (root t))
          × (q'.child left (root t) ≡ q.child left (root t))
          × (q'.child right (root t) ≡ q.child right (root t)))
    → At q p t
    → At q' p' t
unfolding At count
At-moved q q' p p' leaf once same moved a = tt
At-moved q q' p p' (node c l k r) once same moved (nz, e, d, f, g, a, b) =
    let (parent', red', left', right') = moved nz in
    let self = is_self k in
    (
      nz,
      parent',
      red' ∙ d,
      left' ∙ f,
      right' ∙ g,
      At-Agree q q' k l
          (λ j h. same j (omega arith) (λ i. absent k j l (omega (arith, once k)) h (sym i))) a,
      At-Agree q q' k r
          (λ j h. same j (omega arith) (λ i. absent k j r (omega (arith, once k)) h (sym i))) b,
    )

-- The links after each step of a rotation, with the processes that it is about.
module _ (sd : Side) (c : Ctx) (x y b : ℕ) where
  unfoldable pub step2 : Rq → Rq
  step2 q = let q1 = set_child (flip sd) x b q in if b == 0 then q1 else set_parent b x q1

  unfoldable pub rotated : Rq → Rq
  rotated q = set_parent x y (set_child sd y x (put_hole c y (set_parent y (above c) (step2 q))))

  Agree-step2 : (k : ℕ) (q : Rq) → x ≢ k → (b ≢ 0 → b ≢ k) → AgreeAt k q (step2 q)
  unfolding step2
  Agree-step2 k q nx nb = elim (Bool-cases (b == 0)) [
    | inl z ↦ rw z (Agree-set_child k (flip sd) x b q nx)
    | inr z ↦
        let q1 = set_child (flip sd) x b q in
        rw z (
          Agree_trans k q q1 (set_parent b x q1) (Agree-set_child k (flip sd) x b q nx)
            (Agree-set_parent k b x q1 (nb (λ e. ground arith))))
  ]

  pub Agree-rotated :
      (k : ℕ) (q : Rq)
      → x ≢ k
      → y ≢ k
      → (b ≢ 0 → b ≢ k)
      → count_ctx k c ≡ 0
      → AgreeAt k q (rotated q)
  unfolding rotated
  Agree-rotated k q nx ny nb nc =
      let q2 = step2 q in
      let q3 = set_parent y (above c) q2 in
      let q4 = put_hole c y q3 in
      let q5 = set_child sd y x q4 in
      Agree_trans k q q2 (rotated q) (Agree-step2 k q nx nb) (
        Agree_trans k q2 q3 (rotated q) (Agree-set_parent k y (above c) q2 ny) (
          Agree_trans k q3 q4 (rotated q) (Agree-put_hole k c y q3 nc) (
            Agree_trans k q4 q5 (rotated q) (Agree-set_child k sd y x q4 ny)
              (Agree-set_parent k x y q5 nx))))

  step2-parent : (k : ℕ) (q : Rq) → (b ≢ 0 → b ≢ k) → (step2 q).parent k ≡ q.parent k
  unfolding step2
  step2-parent k q nb = elim (Bool-cases (b == 0)) [
    | inl z ↦ rw z refl
    | inr z ↦ rw z (put_ne q.parent {i = b} {j = k} x (nb (λ e. ground arith)))
  ]

  step2-parent_b : (q : Rq) → b ≢ 0 → (step2 q).parent b ≡ x
  unfolding step2
  step2-parent_b q nz =
      let has_b : (b == 0) ≡ false = ground arith in rw has_b (put_self q.parent b x)

  step2-others :
      (q : Rq)
      → ((step2 q).child ≡ relink (flip sd) x b q.child)
        × ((step2 q).is_red ≡ q.is_red)
        × ((step2 q).rb_root ≡ q.rb_root)
  unfolding step2
  step2-others q = elim (Bool-cases (b == 0)) [
    | inl z ↦ rw z (refl, refl, refl)
    | inr z ↦ rw z (refl, refl, refl)
  ]

  put_hole-others :
      (d : Ctx) (q : Rq)
      → ((put_hole d y q).parent ≡ q.parent) × ((put_hole d y q).is_red ≡ q.is_red)
  unfolding put_hole
  put_hole-others top q = (refl, refl)
  put_hole-others (under e f p far up) q = (refl, refl)

  pub rotated-red : (q : Rq) → (rotated q).is_red ≡ q.is_red
  unfolding rotated
  rotated-red q = (put_hole-others c (set_parent y (above c) (step2 q))).1 ∙ (step2-others q).1

  pub rotated-parent_x : (q : Rq) → (rotated q).parent x ≡ y
  unfolding rotated
  rotated-parent_x q = put_self (put_hole c y (set_parent y (above c) (step2 q))).parent x y

  rotated-parent :
      (k : ℕ) (q : Rq) → x ≢ k → (rotated q).parent k ≡ put (step2 q).parent y (above c) k
  unfolding rotated
  rotated-parent k q nx =
      let q3 = set_parent y (above c) (step2 q) in
      put_ne (put_hole c y q3).parent {i = x} {j = k} y nx
      ∙ ap (λ (f : ℕ → ℕ). f k) (put_hole-others c q3).0

  pub rotated-parent_y : (q : Rq) → x ≢ y → (rotated q).parent y ≡ above c
  rotated-parent_y q ne = rotated-parent y q ne ∙ put_self (step2 q).parent y (above c)

  pub rotated-parent_b : (q : Rq) → b ≢ 0 → x ≢ b → y ≢ b → (rotated q).parent b ≡ x
  rotated-parent_b q nz nx ny =
      rotated-parent b q nx
      ∙ put_ne (step2 q).parent {i = y} {j = b} (above c) ny
      ∙ step2-parent_b q nz

  pub rotated-child :
      (d : Side) (k : ℕ) (q : Rq)
      → count_ctx k c ≡ 0
      → (rotated q).child d k ≡ relink sd y x (relink (flip sd) x b q.child) d k
  unfolding rotated
  rotated-child d k q gone =
      let q3 = set_parent y (above c) (step2 q) in
      relink-same sd d y x k (put_hole c y q3).child (relink (flip sd) x b q.child) (
        Agree-side k q3 (put_hole c y q3) d (Agree-put_hole k c y q3 gone)
        ∙ ap (λ (f : Side → ℕ → ℕ). f d k) (step2-others q).0)

  -- The links around the hole, before it is filled again.
  Around-step3 :
      (q : Rq)
      → count_ctx x c ≡ 0
      → count_ctx y c ≡ 0
      → (b ≢ 0 → count_ctx b c ≡ 0)
      → Around q x c
      → Around (set_parent y (above c) (step2 q)) x c
  Around-step3 q gx gy gb =
      let q2 = step2 q in
      Around-Agree q (set_parent y (above c) q2) x c (step2-others q).2 (λ k h.
        Agree_trans k q q2 (set_parent y (above c) q2)
          (Agree-step2 k q (absent_ctx x k c gx h) (λ z. absent_ctx b k c (gb z) h))
          (Agree-set_parent k y (above c) q2 (absent_ctx y k c gy h)))

  pub Around-rotated :
      (q : Rq)
      → ((k : ℕ) → count_ctx k c ≤ 1)
      → count_ctx x c ≡ 0
      → count_ctx y c ≡ 0
      → (b ≢ 0 → count_ctx b c ≡ 0)
      → Around q x c
      → Around (rotated q) y c
  unfolding rotated
  Around-rotated q once gx gy gb a =
      let q3 = set_parent y (above c) (step2 q) in
      let q4 = put_hole c y q3 in
      let q5 = set_child sd y x q4 in
      Around-Agree q4 (rotated q) y c refl
        (λ k h.
          Agree_trans k q4 q5 (rotated q) (Agree-set_child k sd y x q4 (absent_ctx y k c gy h))
            (Agree-set_parent k x y q5 (absent_ctx x k c gx h)))
        (Around-put_hole c x y q3 once (Around-step3 q gx gy gb a))

  -- The rotation, where its reads give these processes.
  pub rotate-rotated :
      (q : Rq)
      → q.child (flip sd) x ≡ y
      → q.child sd y ≡ b
      → x ≢ 0
      → y ≢ 0
      → x ≢ y
      → (b ≢ 0 → b ≢ x)
      → Around q x c
      → q.parent x ≡ above c
      → count_ctx x c ≡ 0
      → count_ctx y c ≡ 0
      → (b ≢ 0 → count_ctx b c ≡ 0)
      → rotate sd x q ≡ rotated q
  unfolding rotate rotated step2
  rotate-rotated q ey eb xz yz ne nb around ep gx gy gb =
      let q2 = step2 q in
      let q3 = set_parent y (above c) q2 in
      let e2 : q2.parent x ≡ above c = step2-parent x q nb ∙ ep in
      let hung : hang sd x y q3 ≡ put_hole c y q3 =
        hang_lem sd c x y q3 (Around-step3 q gx gy gb around)
          (put_ne q2.parent {i = y} {j = x} (above c) (λ e. ne (sym e)) ∙ e2) xz gx in
      let x0 : (x == 0) ≡ false = ground arith in
      let y0 : (y == 0) ≡ false = ground arith in
      let yx : (y == x) ≡ false = ground (arith, ne) in
      rw (ey, eb, x0, y0, yx)
        (ap (λ s. set_parent x y (set_child sd y x s))
          (ap (λ p. hang sd x y (set_parent y p q2)) e2 ∙ hung))
