-- ===== src/Task/Cfs/Slices.antt =====
-- The time slices of the processes in the run queue.
use info.Prelude.{
  ℕ, zero, suc, ◌+◌, ◌*◌, ◌%◌, ◌^◌, ◌≤◌, ◌<◌, ◌≡◌, refl, sym, ap, ◌∙◌, ◌↔◌, inl, inr, Bool, true,
  false, ◌||◌, List, [], ◌∷◌, arith, leb, ◌==◌, leb→le, Bool-cases,
}
use native.Mathlib.Nat.{
  div-mul-le_self, le_trans, le_of_mul-le-mul_right, mul-le-mul_right, add-mul, mul-add, mod-le,
}
use info.Task.Cfs.{Entity, timer_period, need_time, needs_schedule, update_vruntime, tick, expires}

-- Sums of weights, and of the slices that they get.
abbrev pub sum : List ℕ → ℕ
sum [] = 0
sum (x ∷ xs) = x + sum xs

abbrev pub slices : ℕ → ℕ → List ℕ → ℕ
slices nr total [] = 0
slices nr total (w ∷ ws) = need_time nr w total + slices nr total ws

need_time-mul : (nr w total : ℕ) → need_time nr w total * total ≤ nr * timer_period * w
unfolding need_time
need_time-mul nr w total =
    let period : ℕ = (nr * timer_period) % 2 ^ 32 in
    le_trans (div-mul-le_self (period * w % 2 ^ 64) total)
      (le_trans (mod-le (period * w) (2 ^ 64)) (mul-le-mul_right w (mod-le (nr * timer_period) _)))

slices-mul : (nr total : ℕ) (ws : List ℕ) → slices nr total ws * total ≤ nr * timer_period * sum ws
slices-mul nr total [] = omega arith
slices-mul nr total (w ∷ ws) =
    let one = need_time-mul nr w total in
    let rest = slices-mul nr total ws in
    let left = add-mul (need_time nr w total) (slices nr total ws) total in
    let right = mul-add (nr * timer_period) w (sum ws) in omega (arith, one, rest, left, right)

-- The times that NeedsSchedule grants to processes whose weights add up to the total weight,
-- which is not 0, add up to no more than one timer period per running process.
pub slices_bound : (nr : ℕ) (ws : List ℕ) → 0 < sum ws → slices nr (sum ws) ws ≤ nr * timer_period
slices_bound nr ws p = le_of_mul-le-mul_right (slices-mul nr (sum ws) ws) p

-- A tick adds to the time of the process, and ends its slice if that reaches the time granted.
record Ticked (nr total : ℕ) (e : Entity) (r : Bool × Entity × ℕ) : Type 0 where
  ends : need_time nr e.weight total ≤ e.time_used + timer_period → r.0 ≡ true
  goes_on :
      e.time_used + timer_period < need_time nr e.weight total
      → (r.0 ≡ false) × (r.1.time_used ≡ e.time_used + timer_period) × (r.1.weight ≡ e.weight)

tick_lem :
    (nr total : ℕ) (e : Entity) (min_vruntime : ℕ)
    → 0 < nr
    → 0 < total
    → e.time_used + timer_period < 2 ^ 64
    → Ticked nr total e (tick nr total (e, min_vruntime))
unfolding tick needs_schedule update_vruntime
tick_lem nr total e min_vruntime a b fits =
    let some_task : (total == 0 || nr == 0) ≡ false = ground arith in
    let word : (e.time_used + timer_period) % 2 ^ 64 ≡ e.time_used + timer_period = omega arith in
    record {
      ends = λ h.
          let over : leb (need_time nr e.weight total) (e.time_used + timer_period) ≡ true =
            ground arith in
          rw (some_task, word, over) refl;
      goes_on = λ h.
          let over : leb (need_time nr e.weight total) (e.time_used + timer_period) ≡ false =
            ground arith in
          rw (some_task, word, over) (refl, refl, refl);
    }

-- With running processes and a total weight other than 0, and without overflow, one of the next
-- n timer ticks, n > 0, ends the slice of the current process exactly if the time that it has
-- used and that of n ticks reach the time granted.
pub expires_lem :
    (n nr total : ℕ) (e : Entity) (min_vruntime : ℕ)
    → 0 < n
    → 0 < nr
    → 0 < total
    → e.time_used + n * timer_period < 2 ^ 64
    → (expires n nr total (e, min_vruntime) ≡ true)
      ↔ (need_time nr e.weight total ≤ e.time_used + n * timer_period)
unfolding expires
expires_lem zero nr total e min_vruntime p a b fits = absurd (omega arith)
expires_lem (suc n) nr total e min_vruntime p a b fits =
    let r : Bool × Entity × ℕ = tick nr total (e, min_vruntime) in
    let k : Ticked nr total e r = tick_lem nr total e min_vruntime a b (omega arith) in
    elim (Bool-cases (leb (need_time nr e.weight total) (e.time_used + timer_period))) [
      | inl q ↦
          let now = k.ends (leb→le _ _ q) in
          let reached : need_time nr e.weight total ≤ e.time_used + timer_period = leb→le _ _ q in
          (λ h. omega (arith, reached), λ h. ap (λ c. c || expires n nr total (r.1, r.2)) now)
      | inr q ↦
          let on = k.goes_on (ground arith) in
          let shut : (r.0 || expires n nr total (r.1, r.2)) ≡ expires n nr total (r.1, r.2) =
            ap (λ c. c || expires n nr total (r.1, r.2)) on.0 in
          elim (Bool-cases (n == 0)) [
            | inl z ↦
                let no_rounds : n ≡ 0 = ground arith in
                let nothing : expires n nr total (r.1, r.2) ≡ false =
                  ap (λ i. expires i nr total (r.1, r.2)) no_rounds in
                (λ h. absurd (cc (sym h ∙ shut ∙ nothing)), λ h. absurd (ground arith))
            | inr z ↦
                let rest =
                  expires_lem n nr total r.1 r.2 (ground arith) a b (omega (arith, on.1, fits)) in
                let same : need_time nr r.1.weight total ≡ need_time nr e.weight total =
                  ap (λ w. need_time nr w total) on.2 in
                (
                  λ h. omega (arith, rest.0 (sym shut ∙ h), same, on.1),
                  λ h. shut ∙ rest.1 (omega (arith, h, same, on.1)),
                )
          ]
    ]
