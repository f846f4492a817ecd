-- ===== src/Task/RbTree/Links.antt =====
-- What a change of one link leaves as it was.
use info.Prelude.{
  ℕ, ◌≤◌, ◌<◌, ◌≡◌, refl, sym, ap, ◌∙◌, ◌≢◌, Bool, true, false, arith, ◌==◌, if◌then◌else◌,
}
use info.Prelude.Maps.{put, put_self, put_ne}
use info.Task.RbTree.{
  Side, left, right, flip, Rq, relink, set_child, set_parent, set_red, set_root, hang,
}
use info.Task.RbTree.Trees.{
  Tree, Ctx, top, under, root, above, count, count_ctx, Around, AgreeAt, Around-Agree, At-Agree,
  is_self, count-root,
}

pub relink_self : (sd : Side) (p v : ℕ) (f : Side → ℕ → ℕ) → relink sd p v f sd p ≡ v
unfolding relink
relink_self left p v f = put_self (f left) p v
relink_self right p v f = put_self (f right) p v

pub relink_ne : (sd d : Side) (p v k : ℕ) (f : Side → ℕ → ℕ) → p ≢ k → relink sd p v f d k ≡ f d k
unfolding relink
relink_ne left left p v k f ne = put_ne (f left) {i = p} {j = k} v ne
relink_ne left right p v k f ne = refl
relink_ne right left p v k f ne = refl
relink_ne right right p v k f ne = put_ne (f right) {i = p} {j = k} v ne

pub relink-flip :
    (sd : Side) (p v k : ℕ) (f : Side → ℕ → ℕ) → relink sd p v f (flip sd) k ≡ f (flip sd) k
unfolding relink
relink-flip left p v k f = refl
relink-flip right p v k f = refl

pub relink_other : (sd : Side) (p v k : ℕ) (f : Side → ℕ → ℕ) → relink (flip sd) p v f sd k ≡ f sd k
unfolding relink
relink_other left p v k f = refl
relink_other right p v k f = refl

pub relink-same :
    (sd d : Side) (p v k : ℕ) (f g : Side → ℕ → ℕ)
    → f d k ≡ g d k
    → relink sd p v f d k ≡ relink sd p v g d k
unfolding relink put
relink-same left left p v k f g e = ap (λ w. if k == p then v else w) e
relink-same left right p v k f g e = e
relink-same right left p v k f g e = e
relink-same right right p v k f g e = ap (λ w. if k == p then v else w) e

pub Agree_refl : (k : ℕ) (q : Rq) → AgreeAt k q q
unfolding AgreeAt
Agree_refl k q = (refl, refl, refl, refl)

pub Agree_trans : (k : ℕ) (q r s : Rq) → AgreeAt k q r → AgreeAt k r s → AgreeAt k q s
unfolding AgreeAt
Agree_trans k q r s a b = (b.0 ∙ a.0, b.1 ∙ a.1, b.2 ∙ a.2, b.3 ∙ a.3)

pub Agree-set_child :
    (k : ℕ) (sd : Side) (p v : ℕ) (q : Rq) → p ≢ k → AgreeAt k q (set_child sd p v q)
unfolding AgreeAt
Agree-set_child k sd p v q ne =
    (refl, refl, relink_ne sd left p v k q.child ne, relink_ne sd right p v k q.child ne)

pub Agree-set_parent : (k p v : ℕ) (q : Rq) → p ≢ k → AgreeAt k q (set_parent p v q)
unfolding AgreeAt
Agree-set_parent k p v q ne = (put_ne q.parent {i = p} {j = k} v ne, refl, refl, refl)

pub Agree-set_red : (k p : ℕ) (c : Bool) (q : Rq) → p ≢ k → AgreeAt k q (set_red p c q)
unfolding AgreeAt
Agree-set_red k p c q ne = (refl, put_ne q.is_red {i = p} {j = k} c ne, refl, refl)

-- The hole of a context with another process in it.
unfoldable pub put_hole : Ctx → ℕ → Rq → Rq
put_hole top y q = set_root y q
put_hole (under sd c p far up) y q = set_child sd p y q

pub Agree-put_hole :
    (k : ℕ) (c : Ctx) (y : ℕ) (q : Rq) → count_ctx k c ≡ 0 → AgreeAt k q (put_hole c y q)
unfolding put_hole count_ctx AgreeAt
Agree-put_hole k top y q h = (refl, refl, refl, refl)
Agree-put_hole k (under sd c p far up) y q h = Agree-set_child k sd p y q (λ e. ground arith)

pub absent : (k j : ℕ) (t : Tree) → count k t ≡ 0 → 0 < count j t → k ≢ j
absent k j t gone has e = omega (arith, ap (λ i. count i t) e)

pub absent_ctx : (k j : ℕ) (c : Ctx) → count_ctx k c ≡ 0 → 0 < count_ctx j c → k ≢ j
absent_ctx k j c gone has e = omega (arith, ap (λ i. count_ctx i c) e)

pub not_root : (k : ℕ) (t : Tree) → count k t ≡ 0 → k ≢ 0 → k ≢ root t
not_root k t gone nz e =
    let there : root t ≢ 0 = λ z. nz (e ∙ z) in
    omega (arith, count-root t there, ap (λ i. count i t) e)

pub Around-put_hole :
    (c : Ctx) (x y : ℕ) (q : Rq)
    → ((k : ℕ) → count_ctx k c ≤ 1)
    → Around q x c
    → Around (put_hole c y q) y c
unfolding put_hole Around count_ctx
Around-put_hole top x y q once a = refl
Around-put_hole (under sd c p far up) x y q once (nz, e, d, f, g, a, b) =
    let self = is_self p in
    let other : (k : ℕ) → p ≢ k → AgreeAt k q (set_child sd p y q) =
      λ k. Agree-set_child k sd p y q in
    (
      nz,
      e,
      d,
      relink_self sd p y q.child,
      relink-flip sd p y p q.child ∙ g,
      At-Agree q (set_child sd p y q) p far
          (λ k h. other k (absent p k far (omega (arith, once p)) h)) a,
      Around-Agree q (set_child sd p y q) p up refl
          (λ k h. other k (absent_ctx p k up (omega (arith, once p)) h)) b,
    )

hang-top : (sd : Side) (x y : ℕ) (q : Rq) → q.parent x ≡ 0 → hang sd x y q ≡ set_root y q
unfolding hang
hang-top sd x y q e = let no_parent : (q.parent x == 0) ≡ true = ground arith in rw no_parent refl

hang-here :
    (sd : Side) (x y p : ℕ) (q : Rq)
    → q.parent x ≡ p
    → p ≢ 0
    → x ≡ q.child sd p
    → hang sd x y q ≡ set_child sd p y q
unfolding hang
hang-here sd x y p q e nz f =
    let has_parent : (p == 0) ≡ false = ground arith in
    let here : (x == q.child sd p) ≡ true = ground arith in rw (e, has_parent, here) refl

hang-there :
    (sd : Side) (x y p : ℕ) (q : Rq)
    → q.parent x ≡ p
    → p ≢ 0
    → x ≢ q.child sd p
    → hang sd x y q ≡ set_child (flip sd) p y q
unfolding hang
hang-there sd x y p q e nz f =
    let has_parent : (p == 0) ≡ false = ground arith in
    let there : (x == q.child sd p) ≡ false = ground arith in rw (e, has_parent, there) refl

-- What `hang` changes where the process is in a hole.
pub hang_lem :
    (sd : Side) (c : Ctx) (x y : ℕ) (q : Rq)
    → Around q x c
    → q.parent x ≡ above c
    → x ≢ 0
    → count_ctx x c ≡ 0
    → hang sd x y q ≡ put_hole c y q
unfolding put_hole Around count_ctx
hang_lem sd top x y q a e nz gone = hang-top sd x y q e
hang_lem left (under left c p far up) x y q a e nz gone = hang-here left x y p q e a.0 (sym a.3)
hang_lem right (under right c p far up) x y q a e nz gone = hang-here right x y p q e a.0 (sym a.3)
hang_lem left (under right c p far up) x y q a e nz gone =
    hang-there left x y p q e a.0 (λ f. not_root x far (omega arith) nz (f ∙ a.4))
hang_lem right (under left c p far up) x y q a e nz gone =
    hang-there right x y p q e a.0 (λ f. not_root x far (omega arith) nz (f ∙ a.4))
