-- ===== src/Task/Cfs.antt =====
-- task/cfs.cc and the namespace `cfs` of include/kernel/task.h: weights, virtual run times and time
-- slices. The run queue, a red-black tree, is not part of it.
pub mod Weights
pub mod Slices
mod Tests
use info.Prelude.{
  ℕ, subst, ap₂, zero, suc, ◌+◌, ◌-◌, ◌*◌, ◌/◌, ◌%◌, ◌^◌, ◌≤◌, ◌<◌, min, ◌≡◌, refl, sym, ap, ◌∙◌,
  ◌≢◌, ◌↔◌, ◌⊎◌, inl, inr, Bool, true, false, not, ◌&&◌, ◌||◌, Option, none, some, List, [], ◌∷◌,
  ◌++◌, map, append-nil, append_assoc, arith, add-zero, ltb, leb, ◌==◌, if◌then◌else◌, ltb→lt,
  lt→ltb, leb→le, ==_iff, tests, Bool-cases, Option-cases, length, get_elem?, set, length-append,
  length-set, get_elem?-set_self, get_elem?-set_ne, get_or, take, drop, replicate, take-append-drop,
  length-take, length-drop, length-replicate, length-map, take_all, drop_all, All, All-get_elem?,
  All-set, All-replicate, get_elem?-some,
}
use info.Prelude.Int.{ℤ, pos, negsuc, pos_part, sub_ℕ, add_ℤ, ltb_ℤ}

-- `PRIO_TO_WEIGHT`
abbrev pub prio_to_weight : List ℕ
prio_to_weight =
    88761 ∷ 71755 ∷ 56483 ∷ 46273 ∷ 36291 ∷ 29154 ∷ 23254 ∷ 18705 ∷ 14949 ∷ 11916 ∷ 9548 ∷ 7620
    ∷ 6070 ∷ 4854 ∷ 3890 ∷ 3121 ∷ 2501 ∷ 2008 ∷ 1607 ∷ 1285 ∷ 1024 ∷ 820 ∷ 655 ∷ 526 ∷ 423 ∷ 335
    ∷ 272 ∷ 215 ∷ 172 ∷ 137 ∷ 110 ∷ 87 ∷ 70 ∷ 56 ∷ 45 ∷ 36 ∷ 29 ∷ 23 ∷ 18 ∷ 15 ∷ []

-- The two guards of `Nice2Weight`.
pub clamp_nice : ℤ → ℤ
clamp_nice nice =
    let low : ℤ = if ltb_ℤ nice (negsuc 19) then negsuc 19 else nice in
    if ltb_ℤ (pos 19) low then pos 19 else low

-- `Nice2Weight`
pub nice2weight : ℤ → ℕ
nice2weight nice = get_or prio_to_weight (pos_part (add_ℤ (clamp_nice nice) (pos 20))) 0

-- The loop of `Weight2Nice` from index `i` on.
pub search_weight : ℕ → ℕ → List ℕ → ℤ
search_weight weight i [] = pos 0
search_weight weight i (w ∷ ws) =
    let rest = search_weight weight (i + 1) ws in if w == weight then sub_ℕ i 20 else rest

-- `Weight2Nice`
pub weight2nice : ℕ → ℤ
weight2nice weight = search_weight weight 0 prio_to_weight

-- `Entity`, less the links of the tree, with `time_used` of its process.
pub record Entity : Type 0 where
  pub vruntime : ℕ
  pub sum_exec_runtime : ℕ
  pub weight : ℕ
  pub time_used : ℕ

-- `CalcVruntimeDelta`
unfoldable pub calc_vruntime_delta : ℕ → ℕ → ℕ
calc_vruntime_delta delta weight = (delta * 1024) % 2 ^ 64 / weight

-- `Sched::UpdateVruntime`: the entity, and `min_vruntime`. A weight whose low 32 bits are 0, though
-- it is not, would be divided by; the quotient is 0 here.
unfoldable pub update_vruntime : ℕ → Entity → ℕ → Entity × ℕ
update_vruntime delta e min_vruntime =
    let weight : ℕ = if e.weight == 0 then 1024 else e.weight % 2 ^ 32 in
    let vruntime : ℕ = (e.vruntime + calc_vruntime_delta delta weight) % 2 ^ 64 in
    (
      record e { vruntime = vruntime; sum_exec_runtime = (e.sum_exec_runtime + delta) % 2 ^ 64 },
      if ltb vruntime min_vruntime then vruntime else min_vruntime,
    )

-- `Sched::NormalizeVruntime`
unfoldable pub normalize_vruntime : Entity → ℕ → Entity
normalize_vruntime e min_vruntime =
    if ltb e.vruntime min_vruntime then record e { vruntime = min_vruntime } else e

-- `TIMER_PERIOD`
abbrev pub timer_period : ℕ
timer_period = 10

-- The time that `Sched::NeedsSchedule` grants: `nr_running * TIMER_PERIOD` is a 32-bit product.
pub need_time : ℕ → ℕ → ℕ → ℕ
need_time nr_running weight total_weight =
    (nr_running * timer_period) % 2 ^ 32 * weight % 2 ^ 64 / total_weight

-- `Sched::NeedsSchedule`, with a current process: the result and its entity.
pub needs_schedule : ℕ → ℕ → Entity → Bool × Entity
needs_schedule nr_running total_weight current =
    if total_weight == 0 || nr_running == 0
    then (false, current)
    else if leb (need_time nr_running current.weight total_weight) current.time_used
    then (true, record current { time_used = 0 })
    else (false, current)

-- The part of `pit_handler_c` of task/timer.cc that is about the current process, which is also the
-- scheduler's: its time,
-- `Sched::UpdateClock`, and whether it is to be scheduled away.
pub tick : ℕ → ℕ → Entity × ℕ → Bool × Entity × ℕ
tick nr_running total_weight (current, min_vruntime) =
    let charged : Entity = record current {
      time_used = (current.time_used + timer_period) % 2 ^ 64;
    } in
    let (aged, min') = update_vruntime timer_period charged min_vruntime in
    let (expired, after) = needs_schedule nr_running total_weight aged in (expired, after, min')

-- Whether one of the next ticks ends the slice of the process.
pub expires : ℕ → ℕ → ℕ → Entity × ℕ → Bool
expires zero nr_running total_weight s = false
expires (suc n) nr_running total_weight s =
    let (expired, after, min') = tick nr_running total_weight s in
    expired || expires n nr_running total_weight (after, min')
