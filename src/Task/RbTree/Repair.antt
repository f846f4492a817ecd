-- ===== src/Task/RbTree/Repair.antt =====
-- `RbEraseColorFixup` ends within the depth of the tree, with the processes in order.
use info.Prelude.{
  ℕ, subst, zero, suc, ◌<◌, ◌≡◌, refl, sym, ap, ◌∙◌, ◌≢◌, ◌⊎◌, inl, inr, Bool, true, false, not,
  ◌&&◌, ◌||◌, Option, none, some, List, arith, ◌==◌, if◌then◌else◌, Bool-cases,
}
use info.Prelude.Maps.{put, put_self}
use info.Task.RbTree.{
  Side, left, flip, Rq, rb_set_red, rb_set_black, rb_is_red, rotate, side_of, Fixed, fixed, fault,
  erase_turn, erase_sibling, erase_fixup,
}
use info.Task.RbTree.Trees.{
  Tree, fork, plug, Ctx, top, under, above, count, count_ctx, is_self, At→Fork,
}
use info.Task.RbTree.Sorting.{times, count-times}
use info.Task.RbTree.Places.{
  child_in, Holds, count-plug, Place-of, rb_set_red-Holds, rb_set_black-Holds,
}
use info.Task.RbTree.Kept.{
  rotate-is_red, Outcome, if_Outcome, erase_sibling-Holds, Turned, erase_turn-Holds,
}

-- From `p` on, so many parents lead to the null pointer at most.
unfoldable pub Climbs : (ℕ → ℕ) → ℕ → ℕ → Type 0
Climbs parent zero p = p ≡ 0
Climbs parent (suc k) p = (p ≡ 0) ⊎ Climbs parent k (parent p)

turn_Outcome :
    (ks : List ℕ) (o : Option Rq)
    → Turned ks o
    → Outcome ks (elim o [ none ↦ fault | some q ↦ fixed (rb_set_black q.rb_root q) ])
unfolding Turned
turn_Outcome ks none h = tt
turn_Outcome ks (some q) h = rb_set_black-Holds q ks q.rb_root h

rb_set_red-parent : (s : ℕ) (q : Rq) → (rb_set_red s q).parent ≡ q.parent
rb_set_red-parent s q = elim (Bool-cases (s == 0)) [ inl z ↦ rw z refl | inr z ↦ rw z refl ]

and_left : (a b : Bool) → (a && b) ≡ true → (a && true) ≡ true
and_left true b e = refl
and_left false b e = e

or_last : (a b c : Bool) → c ≡ true → (a || b || c) ≡ true
or_last true b c e = refl
or_last false true c e = refl
or_last false false c e = e

-- Red paint elsewhere leaves a red process red.
still_red : (s p : ℕ) (q : Rq) → rb_is_red p q ≡ true → rb_is_red p (rb_set_red s q) ≡ true
unfolding put
still_red s p q red = elim (Bool-cases (s == 0)) [
  | inl z ↦ rw z red
  | inr z ↦ elim (Bool-cases (p == s)) [
    | inl h ↦ rw (z, h) (and_left (not (p == 0)) (q.is_red p) red)
    | inr h ↦ rw (z, h) red
  ]
]

red_of : (p : ℕ) (q : Rq) → p ≢ 0 → q.is_red p ≡ true → rb_is_red p q ≡ true
red_of p q nz e = let has : (p == 0) ≡ false = ground arith in rw (has, e) refl

rb_set_red_self : (p : ℕ) (q : Rq) → p ≢ 0 → (rb_set_red p q).is_red p ≡ true
rb_set_red_self p q nz =
    let has : (p == 0) ≡ false = ground arith in rw has (put_self q.is_red p true)

-- Where the sibling is red, the parent is red afterwards.
parent_red :
    (sd : Side) (p s : ℕ) (q : Rq)
    → p ≢ 0
    → rb_is_red p (rotate sd p (rb_set_red p (rb_set_black s q))) ≡ true
parent_red sd p s q nz =
    let painted = rb_set_red p (rb_set_black s q) in
    red_of p (rotate sd p painted) nz (
      ap (λ (f : ℕ → Bool). f p) (rotate-is_red sd p painted)
      ∙ rb_set_red_self p (rb_set_black s q) nz)

-- A red process ends the loop.
ends :
    (rounds n p : ℕ) (q : Rq) (ks : List ℕ)
    → 0 < rounds
    → rb_is_red n q ≡ true
    → Holds q ks
    → Outcome ks (erase_fixup rounds n p q)
unfolding erase_fixup
ends zero n p q ks more red h = absurd (omega arith)
ends (suc rounds) n p q ks more red h =
    let stops : (n == q.rb_root || p == 0 || rb_is_red n q) ≡ true =
      or_last (n == q.rb_root) (p == 0) (rb_is_red n q) red in
    rw stops (rb_set_black-Holds q ks n h)

pub parent_there : (c : Ctx) (t : Tree) → above c ≢ 0 → 0 < count (above c) (plug c t)
unfolding count_ctx
parent_there top t nz = absurd (nz refl)
parent_there (under sd b k far up) t nz =
    omega (arith, count-plug k (under sd b k far up) t, is_self k)

-- The parent of a process in the tree.
parent_in :
    (p : ℕ) (q : Rq) (ks : List ℕ)
    → Holds q ks
    → 0 < times p ks
    → q.parent p ≢ 0
    → 0 < times (q.parent p) ks
parent_in p q ks h has nz =
    let at = Place-of q ks left p h has in
    let t : Tree = fork left at.red at.near p at.far in
    let f = At→Fork q (above at.ctx) left at.red at.near p at.far at.zip.inside in
    let m : ℕ = above at.ctx in
    let there = parent_there at.ctx t (λ e. nz (f.parent_is ∙ e)) in
    let known : times m ks ≡ count m (plug at.ctx t) =
      ap (times m) (sym at.in_order) ∙ sym (count-times m (plug at.ctx t)) in
    let found : 0 < times m ks = omega (arith, known, there) in
    subst (λ k. 0 < times k ks) (sym f.parent_is) found

or_mid : (a b c : Bool) → (a || b || c) ≡ false → b ≡ false
or_mid true b c e = ground (arith, e)
or_mid false true c e = ground (arith, e)
or_mid false false c e = refl

erase_sibling-red :
    (sd : Side) (p : ℕ) (q : Rq)
    → let s : ℕ = q.child (flip sd) p in
      rb_is_red s q ≡ true → erase_sibling sd p q ≡ rotate sd p (rb_set_red p (rb_set_black s q))
unfolding erase_sibling
erase_sibling-red sd p q red = rw red refl

erase_sibling-black :
    (sd : Side) (p : ℕ) (q : Rq)
    → rb_is_red (q.child (flip sd) p) q ≡ false
    → erase_sibling sd p q ≡ q
unfolding erase_sibling
erase_sibling-black sd p q black = rw black refl

-- The rounds after one with black nephews.
rest_Outcome :
    (rounds : ℕ) (sd : Side) (p : ℕ) (q : Rq) (ks : List ℕ)
    → Holds q ks
    → 0 < times p ks
    → p ≢ 0
    → 0 < rounds
    → ((r : Rq)
        → Holds r ks
        → r.parent ≡ q.parent
        → Outcome ks (erase_fixup rounds p (r.parent p) r))
    → let q1 = erase_sibling sd p q in
      let q2 = rb_set_red (q1.child (flip sd) p) q1 in
      Outcome ks (erase_fixup rounds p (q2.parent p) q2)
rest_Outcome rounds sd p q ks h has nz more next =
    let s0 : ℕ = q.child (flip sd) p in
    let q1 = erase_sibling sd p q in
    let s : ℕ = q1.child (flip sd) p in
    let q2 = rb_set_red s q1 in
    let h2 = rb_set_red-Holds q1 ks s (erase_sibling-Holds sd p q ks h has) in
    elim (Bool-cases (rb_is_red s0 q)) [
      | inl red ↦
          ends rounds p (q2.parent p) q2 ks more
            (still_red s p q1 (
              subst (λ r. rb_is_red p r ≡ true) (sym (erase_sibling-red sd p q red))
                (parent_red sd p s0 q nz)))
            h2
      | inr black ↦
          next q2 h2
            (rb_set_red-parent s q1 ∙ ap (λ (r : Rq). r.parent) (erase_sibling-black sd p q black))
    ]

-- A round, where the loop is known to end after it.
round_Outcome :
    (rounds n p : ℕ) (q : Rq) (ks : List ℕ)
    → Holds q ks
    → (p ≢ 0 → 0 < times p ks)
    → 0 < rounds
    → (p ≢ 0
        → (r : Rq) → Holds r ks
        → r.parent ≡ q.parent
        → Outcome ks (erase_fixup rounds p (r.parent p) r))
    → Outcome ks (erase_fixup (suc rounds) n p q)
unfolding erase_fixup
round_Outcome rounds n p q ks h has more next =
    let sd : Side = side_of n p q in
    let s0 : ℕ = q.child (flip sd) p in
    let q1 = erase_sibling sd p q in
    let s : ℕ = q1.child (flip sd) p in
    let q2 = rb_set_red s q1 in
    let rest = erase_fixup rounds p (q2.parent p) q2 in
    let black_nephews : Bool =
      not (rb_is_red (q1.child sd s) q1) && not (rb_is_red (q1.child (flip sd) s) q1) in
    let last : Fixed = elim (erase_turn sd p s q1) [
      | none ↦ fault
      | some q3 ↦ fixed (rb_set_black q3.rb_root q3)
    ] in
    let nephews : Fixed = if black_nephews then rest else last in
    let turn : Fixed = if s == 0 then fault else nephews in
    let done : Fixed = fixed (rb_set_black n q) in
    let sibling : Fixed = if s0 == 0 then done else turn in
    if_Outcome ks (n == q.rb_root || p == 0 || rb_is_red n q) done sibling
      (rb_set_black-Holds q ks n h)
      (λ goes.
        let zero_p : (p == 0) ≡ false = or_mid (n == q.rb_root) (p == 0) (rb_is_red n q) goes in
        let nz : p ≢ 0 = λ e. ground (arith, zero_p, e) in
        let h1 = erase_sibling-Holds sd p q ks h (has nz) in
        if_Outcome ks (s0 == 0) done turn (rb_set_black-Holds q ks n h) (λ some_sibling.
          if_Outcome ks (s == 0) fault nephews tt (λ still.
            let s_nz : s ≢ 0 = λ e. ground (arith, still, e) in
            if_Outcome ks black_nephews rest last
              (rest_Outcome rounds sd p q ks h (has nz) nz more (next nz))
              (λ red. turn_Outcome ks (erase_turn sd p s q1) (
                erase_turn-Holds sd p s q1 ks h1 (has nz)
                  (child_in (flip sd) p q1 ks h1 (has nz) s_nz))))))

-- With more rounds than there are parents above, the loop ends with the processes in order, or at a null
-- pointer.
pub fixup_Outcome :
    (k rounds n p : ℕ) (q : Rq) (ks : List ℕ)
    → Holds q ks
    → (p ≢ 0 → 0 < times p ks)
    → Climbs q.parent k p
    → suc k < rounds
    → Outcome ks (erase_fixup rounds n p q)
unfolding Climbs
fixup_Outcome k zero n p q ks h has climbs enough = absurd (omega arith)
fixup_Outcome zero (suc rounds) n p q ks h has climbs enough =
    round_Outcome rounds n p q ks h has (omega arith) (λ nz. absurd (nz climbs))
fixup_Outcome (suc k) (suc rounds) n p q ks h has (inl climbs) enough =
    round_Outcome rounds n p q ks h has (omega arith) (λ nz. absurd (nz climbs))
fixup_Outcome (suc k) (suc rounds) n p q ks h has (inr climbs) enough =
    round_Outcome rounds n p q ks h has (omega arith) (λ nz r hr e.
      fixup_Outcome k rounds p (r.parent p) r ks hr (parent_in p r ks hr (has nz))
        (subst (λ (f : ℕ → ℕ). Climbs f k (f p)) (sym e) climbs) (omega arith))
