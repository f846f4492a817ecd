-- ===== src/Task/RunQueue/Tests.antt =====
-- Runs of the run queue.
use info.Prelude.{
  ℕ, suc, ◌*◌, ◌^◌, ◌<◌, ◌≡◌, refl, ◌≢◌, true, false, Option, none, some, [], ◌∷◌, arith, ◌==◌,
  if◌then◌else◌, length,
}
use info.Prelude.Maps.{put}
use info.Task.Cfs.{update_vruntime, normalize_vruntime, calc_vruntime_delta}
use info.Task.Ipc.{ready, dead}
use info.Task.RbTree.{
  relink, hang, rotate, side_of, insert_round, insert_loop, insert_fixup, init_node, descend,
  find_leftmost, after_insert, attach, repair, rb_insert, replace_node, erase_turn, erase_sibling,
  erase_fixup, replace_by, unlink, after_erase, rb_erase,
}
use info.Task.RbTree.Trees.{leaf, count, count_ctx, At, Around}
use info.Task.RbTree.Keys.{keys}
use info.Task.RbTree.Insert.{first}
use info.Task.RbTree.Sorting.{insert_by, Sorted, times}
use info.Task.RbTree.Removal.{remove}
use info.Task.RunQueue.{
  Sched, Ran, ran, null_pointer, no_rounds, vruntimes, enter, enqueue, leave, dequeue, and_then,
  skip_dead, pick_next_task, age, update_vruntime_current, update_clock, schedule,
}
use info.Task.RunQueue.{runs, counted}
use info.Task.RunQueue.Laws.{IsRunQueue, enqueue-IsRunQueue, Dequeued, dequeue-IsRunQueue}

-- Every process is ready but the sixth, which is dead; nobody waits.
abbrev start : Sched
start = record {
  links = record {
    child = λ sd p. 0;
    parent = λ p. 0;
    is_red = λ p. false;
    rb_root = 0;
    leftmost = 0;
    min_vruntime = 0;
  };
  nr_running = 0;
  total_weight = 0;
  current = 0;
  clock = 0;
  stat = λ p. if p == 6 then dead else ready;
  entity = λ p. record { vruntime = 10 * p; sum_exec_runtime = 0; weight = 0; time_used = 0 };
}

-- The number of the processes that run, the current one and the weight.
summary : Ran → Option (ℕ × ℕ × ℕ)
summary (ran s) = some (s.nr_running, s.current, s.total_weight)
summary null_pointer = none
summary no_rounds = none

abbrev two : Sched
two = enqueue 20 2 (enqueue 20 3 start)

picked : summary (pick_next_task 9 20 two) ≡ some (2, 3, 2048)
unfolding summary enqueue enter leave dequeue and_then skip_dead pick_next_task age
    update_vruntime_current update_clock schedule update_vruntime normalize_vruntime
    calc_vruntime_delta put relink hang rotate side_of insert_round insert_loop insert_fixup
    init_node descend find_leftmost after_insert attach repair rb_insert replace_node erase_turn
    erase_sibling erase_fixup replace_by unlink after_erase rb_erase
picked = refl

-- The current process runs, and another one is less far then.
turned :
    summary (
      schedule 9 20 2
        (update_clock 20 (record (enqueue 20 3 (enqueue 20 2 start)) { current = 2 })))
    ≡ some (2, 3, 2048)
unfolding summary enqueue enter leave dequeue and_then skip_dead pick_next_task age
    update_vruntime_current update_clock schedule update_vruntime normalize_vruntime
    calc_vruntime_delta put relink hang rotate side_of insert_round insert_loop insert_fixup
    init_node descend find_leftmost after_insert attach repair rb_insert replace_node erase_turn
    erase_sibling erase_fixup replace_by unlink after_erase rb_erase
turned = refl

-- A process that ends stays counted.
ended :
    summary (schedule 9 20 2 (record two { stat = λ p. if p == 2 then dead else ready }))
    ≡ some (2, 3, 2048)
unfolding summary enqueue enter leave dequeue and_then skip_dead pick_next_task age
    update_vruntime_current update_clock schedule update_vruntime normalize_vruntime
    calc_vruntime_delta put relink hang rotate side_of insert_round insert_loop insert_fixup
    init_node descend find_leftmost after_insert attach repair rb_insert replace_node erase_turn
    erase_sibling erase_fixup replace_by unlink after_erase rb_erase
ended = refl

nobody : IsRunQueue start []
unfolding keys Sorted first At Around count count_ctx
nobody = record {
  queue = record {
    tree = leaf;
    zip = record { around = refl; inside = tt; once = λ k. omega arith };
    in_order = refl;
    sorted = tt;
    leftmost_is = refl;
  };
  nr_is = refl;
}

nonzero : (n : ℕ) → ◌≢◌ {A = ℕ} (suc n) 0
nonzero n = omega arith

three_nonzero : ◌≢◌ {A = ℕ} 3 0
three_nonzero = nonzero 2

two_nonzero : ◌≢◌ {A = ℕ} 2 0
two_nonzero = nonzero 1

short : suc (length {A = ℕ} (3 ∷ [])) < 20
short = omega arith

small : 20 < 2 ^ 32
small = omega arith

new : times 2 (3 ∷ []) ≡ 0
unfolding times
new = refl

there : 0 < times 3 (3 ∷ [])
unfolding times
there = omega arith

three_alone : IsRunQueue (enqueue 20 3 start) (3 ∷ [])
unfolding times insert_by
three_alone = enqueue-IsRunQueue 20 3 start [] three_nonzero refl refl (omega arith) small nobody

still_ready : runs ((enqueue 20 3 start).stat 2) ≡ true
unfolding enqueue
still_ready = refl

is_counted : counted ((enqueue 20 3 start).stat 3) ≡ true
unfolding enqueue
is_counted = refl

enqueue-IsRunQueue_example :
    IsRunQueue
      (enqueue 20 2 (enqueue 20 3 start))
      (insert_by (vruntimes (enqueue 20 2 (enqueue 20 3 start)).entity) 2 (3 ∷ []))
enqueue-IsRunQueue_example =
    enqueue-IsRunQueue 20 2 (enqueue 20 3 start) (3 ∷ []) two_nonzero still_ready new short small
      three_alone

dequeue-IsRunQueue_example :
    let (links, x, x_parent, was_red) = unlink 20 3 (enqueue 20 3 start).links in
    Dequeued (remove 3 (3 ∷ [])) ((x ≢ 0) × (was_red ≡ false)) (dequeue 20 3 (enqueue 20 3 start))
dequeue-IsRunQueue_example =
    dequeue-IsRunQueue 20 3 (enqueue 20 3 start) (3 ∷ []) three_nonzero is_counted there short small
      three_alone
