-- ===== src/Task/RbTree/Replace.antt =====
-- `RbReplaceNode` on the tree.
use info.Prelude.{
  ℕ, subst, ◌+◌, ◌≤◌, ◌≡◌, refl, sym, ap, ◌∙◌, ◌≢◌, inl, inr, false, arith, ◌==◌, Bool-cases,
}
use info.Prelude.Maps.{put_self}
use info.Task.RbTree.{left, Rq, set_parent, rb_set_parent, replace_node}
use info.Task.RbTree.Trees.{
  Tree, Ctx, top, under, root, above, count, count_ctx, At, Around, Zip, AgreeAt, At-Agree,
  Around-Agree, count-root,
}
use info.Task.RbTree.Links.{
  Agree_refl, Agree_trans, Agree-set_parent, put_hole, Agree-put_hole, absent_ctx, Around-put_hole,
  hang_lem,
}
use info.Task.RbTree.Rotations.{At-moved}

pub rb_set_parent-set : (p v : ℕ) (q : Rq) → p ≢ 0 → rb_set_parent p v q ≡ set_parent p v q
rb_set_parent-set p v q nz = let has : (p == 0) ≡ false = ground arith in rw has refl

pub rb_set_parent-rb_root : (p v : ℕ) (q : Rq) → (rb_set_parent p v q).rb_root ≡ q.rb_root
rb_set_parent-rb_root p v q = elim (Bool-cases (p == 0)) [ inl z ↦ rw z refl | inr z ↦ rw z refl ]

pub rb_set_parent-is_red : (p v : ℕ) (q : Rq) → (rb_set_parent p v q).is_red ≡ q.is_red
rb_set_parent-is_red p v q = elim (Bool-cases (p == 0)) [ inl z ↦ rw z refl | inr z ↦ rw z refl ]

pub rb_set_parent-child : (p v : ℕ) (q : Rq) → (rb_set_parent p v q).child ≡ q.child
rb_set_parent-child p v q = elim (Bool-cases (p == 0)) [ inl z ↦ rw z refl | inr z ↦ rw z refl ]

pub rb_set_parent_self : (p v : ℕ) (q : Rq) → p ≢ 0 → (rb_set_parent p v q).parent p ≡ v
rb_set_parent_self p v q nz =
    ap (λ (r : Rq). r.parent p) (rb_set_parent-set p v q nz) ∙ put_self q.parent p v

pub Agree-rb_set_parent : (k p v : ℕ) (q : Rq) → (p ≢ 0 → p ≢ k) → AgreeAt k q (rb_set_parent p v q)
Agree-rb_set_parent k p v q ne = elim (Bool-cases (p == 0)) [
  | inl z ↦ rw z (Agree_refl k q)
  | inr z ↦ rw z (Agree-set_parent k p v q (ne (λ e. ground arith)))
]

-- A tree whose root gets another parent.
pub adopt :
    (q : Rq) (p p' : ℕ) (t : Tree)
    → ((k : ℕ) → count k t ≤ 1)
    → At q p t
    → At (rb_set_parent (root t) p' q) p' t
adopt q p p' t once a =
    At-moved q (rb_set_parent (root t) p' q) p p' t once
      (λ k h ne. Agree-rb_set_parent k (root t) p' q (λ nz e. ne (sym e)))
      (λ nz.
        let has : (root t == 0) ≡ false = ground (arith, nz) in
        rw has (put_self q.parent (root t) p', refl, refl, refl))
      a

-- A process in the hole of a context, with the parent that it has there.
unfoldable pub put_in : Ctx → ℕ → Rq → Rq
put_in c y q = rb_set_parent y (above c) (put_hole c y q)

pub Agree-put_in :
    (k : ℕ) (c : Ctx) (y : ℕ) (q : Rq)
    → count_ctx k c ≡ 0
    → (y ≢ 0 → y ≢ k)
    → AgreeAt k q (put_in c y q)
unfolding put_in
Agree-put_in k c y q gone ne =
    Agree_trans k q (put_hole c y q) (put_in c y q) (Agree-put_hole k c y q gone)
      (Agree-rb_set_parent k y (above c) (put_hole c y q) ne)

pub Around-put_in :
    (c : Ctx) (x y : ℕ) (q : Rq)
    → ((k : ℕ) → count_ctx k c ≤ 1)
    → (y ≢ 0 → count_ctx y c ≡ 0)
    → Around q x c
    → Around (put_in c y q) y c
unfolding put_in
Around-put_in c x y q once gone a =
    Around-Agree (put_hole c y q) (put_in c y q) y c
      (rb_set_parent-rb_root y (above c) (put_hole c y q))
      (λ k h.
        Agree-rb_set_parent k y (above c) (put_hole c y q) (λ nz. absent_ctx y k c (gone nz) h))
      (Around-put_hole c x y q once a)

put_hole-parent : (c : Ctx) (y k : ℕ) (q : Rq) → (put_hole c y q).parent k ≡ q.parent k
unfolding put_hole
put_hole-parent top y k q = refl
put_hole-parent (under sd c p far up) y k q = refl

pub replace_node-put_in :
    (c : Ctx) (n y : ℕ) (q : Rq)
    → Around q n c
    → q.parent n ≡ above c
    → n ≢ 0
    → count_ctx n c ≡ 0
    → replace_node n y q ≡ put_in c y q
unfolding replace_node put_in
replace_node-put_in c n y q a e nz gone =
    ap (λ r. rb_set_parent y (r.parent n) r) (hang_lem left c n y q a e nz gone)
    ∙ ap (λ p. rb_set_parent y p (put_hole c y q)) (put_hole-parent c y n q ∙ e)

-- `RbReplaceNode` of a process by the root of a tree below it.
pub replace_Zip :
    (c : Ctx) (n p : ℕ) (s : Tree) (q : Rq)
    → Around q n c
    → q.parent n ≡ above c
    → n ≢ 0
    → count_ctx n c ≡ 0
    → ((k : ℕ) → count_ctx k c + count k s ≤ 1)
    → At q p s
    → Zip (replace_node n (root s) q) c s
unfolding put_in
replace_Zip c n p s q a e nz gone once at =
    let other : root s ≢ 0 → count_ctx (root s) c ≡ 0 =
      λ has. omega (arith, once (root s), count-root s has) in
    let placed : Zip (put_in c (root s) q) c s = record {
      around = Around-put_in c n (root s) q (λ k. omega (arith, once k)) other a;
      inside =
          adopt (put_hole c (root s) q) p (above c) s (λ k. omega (arith, once k))
            (At-Agree q (put_hole c (root s) q) p s
              (λ k h. Agree-put_hole k c (root s) q (omega (arith, once k, h))) at);
      once = once;
    } in
    subst (λ r. Zip r c s) (sym (replace_node-put_in c n (root s) q a e nz gone)) placed
