-- ===== src/Task/Cfs/Tests.antt =====
-- The arithmetic of the scheduler at concrete inputs.
use info.Prelude.{◌+◌, ◌*◌, ◌≤◌, ◌≡◌, refl, ◌↔◌, true, [], ◌∷◌, arith}
use info.Prelude.Int.{pos, negsuc, ltb_ℤ}
use info.Task.Cfs.{
  Entity, timer_period, clamp_nice, nice2weight, update_vruntime, need_time, normalize_vruntime,
  needs_schedule, tick, expires, calc_vruntime_delta,
}
use info.Task.Cfs.Weights.{update_vruntime_fair}
use info.Task.Cfs.Slices.{slices, slices_bound, expires_lem}

abbrev shell : Entity
shell = record { vruntime = 500; sum_exec_runtime = 0; weight = 1024; time_used = 0 }

nice2weight_run : (nice2weight (pos 0) ≡ 1024) × (nice2weight (negsuc 29) ≡ 88761)
unfolding nice2weight clamp_nice
nice2weight_run = (refl, refl)

lower : ltb_ℤ (clamp_nice (negsuc 4)) (clamp_nice (pos 3)) ≡ true
unfolding clamp_nice
lower = refl

update_vruntime_fair_example :
    (shell.vruntime
      ≤ (update_vruntime 10 (record shell { weight = nice2weight (negsuc 4) }) 0).0.vruntime)
    × ((update_vruntime 10 (record shell { weight = nice2weight (negsuc 4) }) 0).0.vruntime
        ≤ (update_vruntime 10 (record shell { weight = nice2weight (pos 3) }) 0).0.vruntime)
update_vruntime_fair_example =
    update_vruntime_fair (negsuc 4) (pos 3) 10 shell 0 lower (omega arith)

slices_bound_example : slices 3 (1024 + (1024 + (335 + 0))) (1024 ∷ 1024 ∷ 335 ∷ []) ≤ 30
slices_bound_example = slices_bound 3 (1024 ∷ 1024 ∷ 335 ∷ []) (omega arith)

expires_run : expires 2 3 2383 (shell, 0) ≡ true
unfolding expires tick needs_schedule need_time update_vruntime calc_vruntime_delta
expires_run = refl

expires_lem_example :
    (expires 2 3 2383 (shell, 0) ≡ true) ↔ (need_time 3 1024 2383 ≤ 0 + 2 * timer_period)
expires_lem_example =
    expires_lem 2 3 2383 shell 0 (omega arith) (omega arith) (omega arith) (omega arith)

normalize_run :
    ((normalize_vruntime shell 800).vruntime ≡ 800) × ((normalize_vruntime shell 20).vruntime ≡ 500)
unfolding normalize_vruntime
normalize_run = (refl, refl)
