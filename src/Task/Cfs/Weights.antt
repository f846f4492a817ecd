-- ===== src/Task/Cfs/Weights.antt =====
-- Nice values, weights, and how fast virtual time runs.
use info.Prelude.{
  ℕ, subst, zero, suc, ◌+◌, ◌-◌, ◌*◌, ◌/◌, ◌%◌, ◌^◌, ◌≤◌, ◌<◌, ◌≡◌, refl, ap, ◌∙◌, inl, inr, Bool,
  true, false, ◌&&◌, arith, ltb, ◌==◌, ltb→lt, Bool-cases, get_or,
}
use native.Mathlib.Nat.{le-div_iff_mul-le, div-mul-le_self, div-le_self, le_trans, mul-le-mul_left}
use info.Prelude.Int.{ℤ, pos, negsuc, pos_part, neg_part, sub_ℕ, add_ℤ, ltb_ℤ}
use info.Task.Cfs.{
  prio_to_weight, clamp_nice, nice2weight, search_weight, weight2nice, Entity, calc_vruntime_delta,
  update_vruntime,
}

-- The index of a nice value in the table.
index : ℤ → ℕ
index nice = pos_part (add_ℤ (clamp_nice nice) (pos 20))

index_bound : (nice : ℤ) → index nice < 40
unfolding index clamp_nice
index_bound (pos n) = ground arith
index_bound (negsuc n) = ground arith

index_clamp : (nice : ℤ) → sub_ℕ (index nice) 20 ≡ clamp_nice nice
unfolding index clamp_nice
index_clamp (pos n) = ground arith
index_clamp (negsuc n) = ground arith

-- A test of every number below a bound.
all_below : ℕ → (ℕ → Bool) → Bool
all_below zero f = true
all_below (suc n) f = f n && all_below n f

and_left : (a b : Bool) → (a && b) ≡ true → a ≡ true
and_left true b h = refl
and_left false b h = h

and_right : (a b : Bool) → (a && b) ≡ true → b ≡ true
and_right true b h = h
and_right false b h = absurd (cc h)

all_below_lem : (n : ℕ) (f : ℕ → Bool) → all_below n f ≡ true → (i : ℕ) → i < n → f i ≡ true
unfolding all_below
all_below_lem zero f h i b = absurd (omega arith)
all_below_lem (suc n) f h i b = elim (Bool-cases (i == n)) [
  | inl q ↦ let same : i ≡ n = ground arith in ap f same ∙ and_left (f n) (all_below n f) h
  | inr q ↦ all_below_lem n f (and_right (f n) (all_below n f) h) i (ground arith)
]

same_nice : ℤ → ℤ → Bool
same_nice a b = (pos_part a == pos_part b) && (neg_part a == neg_part b)

same_nice-true : (a b : ℤ) → same_nice a b ≡ true → a ≡ b
unfolding same_nice
same_nice-true (pos a) (pos b) h = ap pos (ground arith)
same_nice-true (pos a) (negsuc b) h = absurd (ground arith)
same_nice-true (negsuc a) (pos b) h = absurd (ground arith)
same_nice-true (negsuc a) (negsuc b) h = ap negsuc (ground arith)

abbrev round_trips : ℕ → Bool
round_trips i = same_nice (weight2nice (get_or prio_to_weight i 0)) (sub_ℕ i 20)

table_round_trips : all_below 40 round_trips ≡ true
unfolding all_below same_nice weight2nice search_weight
table_round_trips = refl

-- Weight2Nice of Nice2Weight of any nice value is that value clamped to the range from -20 to
-- 19.
weight2nice-nice2weight : (nice : ℤ) → weight2nice (nice2weight nice) ≡ clamp_nice nice
unfolding nice2weight index
weight2nice-nice2weight nice =
    same_nice-true _ _
      (all_below_lem 40 round_trips table_round_trips (index nice) (index_bound nice))
    ∙ index_clamp nice

-- The entry of the table at an index.
weight_at : ℕ → ℕ
weight_at i = get_or prio_to_weight i 0

falls : ℕ → Bool
falls i = ltb (weight_at (i + 1)) (weight_at i)

table_falls : all_below 39 falls ≡ true
unfolding all_below falls weight_at
table_falls = refl

falls_at : (i : ℕ) → i < 39 → weight_at (i + 1) < weight_at i
unfolding falls
falls_at i h = ltb→lt _ _ (all_below_lem 39 falls table_falls i h)

-- The table falls strictly.
falls_by : (d i : ℕ) → i + suc d < 40 → weight_at (i + suc d) < weight_at i
falls_by zero i h = falls_at i (omega arith)
falls_by (suc d) i h =
    let one = falls_at i (omega arith) in
    let rest = falls_by d (i + 1) (omega arith) in
    let same : weight_at (i + 1 + suc d) ≡ weight_at (i + suc (suc d)) =
      ap weight_at (omega arith) in
    omega (arith, one, rest, same)

div_antitone : (x v w : ℕ) → 0 < v → v ≤ w → x / w ≤ x / v
div_antitone x v w p h =
    (le-div_iff_mul-le p).1 (le_trans (mul-le-mul_left (x / w) h) (div-mul-le_self x w))

in_words : ℕ → Bool
in_words i = ltb 0 (weight_at i) && ltb (weight_at i) (2 ^ 32)

table_in_words : all_below 40 in_words ≡ true
unfolding all_below in_words weight_at
table_in_words = refl

pub nice2weight_bounds : (nice : ℤ) → (0 < nice2weight nice) × (nice2weight nice < 2 ^ 32)
unfolding nice2weight index weight_at in_words
nice2weight_bounds nice =
    let ok = all_below_lem 40 in_words table_in_words (index nice) (index_bound nice) in
    (ltb→lt _ _ (and_left _ _ ok), ltb→lt _ _ (and_right (ltb 0 (weight_at (index nice))) _ ok))

index_order : (a b : ℤ) → ltb_ℤ (clamp_nice a) (clamp_nice b) ≡ true → index a < index b
unfolding index clamp_nice
index_order (pos m) (pos n) h = ground arith
index_order (pos m) (negsuc n) h = ground arith
index_order (negsuc m) (pos n) h = ground arith
index_order (negsuc m) (negsuc n) h = ground arith

weight_at_order : (i j : ℕ) → i < j → j < 40 → weight_at j < weight_at i
weight_at_order i j h b =
    let same : i + suc (j - i - 1) ≡ j = omega arith in
    subst (λ k. weight_at k < weight_at i) same (falls_by (j - i - 1) i (omega arith))

-- A lower nice value has a higher weight.
nice2weight_order :
    (a b : ℤ) → ltb_ℤ (clamp_nice a) (clamp_nice b) ≡ true → nice2weight b < nice2weight a
unfolding nice2weight index weight_at
nice2weight_order a b h = weight_at_order (index a) (index b) (index_order a b h) (index_bound b)

-- The virtual run time after `delta` at a weight that is a 32-bit word.
update_vruntime-vruntime :
    (delta w : ℕ) (e : Entity) (min_vruntime : ℕ)
    → 0 < w
    → w < 2 ^ 32
    → (update_vruntime delta (record e { weight = w }) min_vruntime).0.vruntime
      ≡ (e.vruntime + calc_vruntime_delta delta w) % 2 ^ 64
unfolding update_vruntime
update_vruntime-vruntime delta w e min_vruntime p h =
    let some_weight : (w == 0) ≡ false = ground arith in
    let word : w % 2 ^ 32 ≡ w = omega arith in rw (some_weight, word) refl

calc_vruntime_delta_antitone :
    (delta v w : ℕ) → 0 < v → v ≤ w → calc_vruntime_delta delta w ≤ calc_vruntime_delta delta v
unfolding calc_vruntime_delta
calc_vruntime_delta_antitone delta v w p h = div_antitone (delta * 1024 % 2 ^ 64) v w p h

calc_vruntime_delta_bound : (delta w : ℕ) → 0 < w → calc_vruntime_delta delta w ≤ delta * 1024
unfolding calc_vruntime_delta
calc_vruntime_delta_bound delta w p = le_trans (div-le_self (delta * 1024 % 2 ^ 64) w) (omega arith)

-- If nice value a is below b, both clamped to the range from -20 to 19, and the run time does
-- not overflow, UpdateVruntime never takes virtual run time back, and with the weight of a
-- advances it by no more than with the weight of b.
pub update_vruntime_fair :
    (a b : ℤ) (delta : ℕ) (e : Entity) (min_vruntime : ℕ)
    → ltb_ℤ (clamp_nice a) (clamp_nice b) ≡ true
    → e.vruntime + delta * 1024 < 2 ^ 64
    → (e.vruntime
        ≤ (update_vruntime delta (record e { weight = nice2weight a }) min_vruntime).0.vruntime)
      × ((update_vruntime delta (record e { weight = nice2weight a }) min_vruntime).0.vruntime
          ≤ (update_vruntime delta (record e { weight = nice2weight b }) min_vruntime).0.vruntime)
update_vruntime_fair a b delta e min_vruntime h fits =
    let wa = nice2weight_bounds a in
    let wb = nice2weight_bounds b in
    let va = update_vruntime-vruntime delta (nice2weight a) e min_vruntime wa.0 wa.1 in
    let vb = update_vruntime-vruntime delta (nice2weight b) e min_vruntime wb.0 wb.1 in
    let order = nice2weight_order a b h in
    let slower =
      calc_vruntime_delta_antitone delta (nice2weight b) (nice2weight a) wb.0
        (omega (arith, order)) in
    let bound_a = calc_vruntime_delta_bound delta (nice2weight a) wa.0 in
    let bound_b = calc_vruntime_delta_bound delta (nice2weight b) wb.0 in
    (omega (arith, va, bound_a, fits), omega (arith, va, vb, slower, bound_a, bound_b, fits))
