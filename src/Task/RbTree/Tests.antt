-- ===== src/Task/RbTree/Tests.antt =====
-- Runs of the run queue's tree.
use info.Prelude.{
  ℕ, suc, ◌+◌, ◌/◌, ◌≤◌, ◌<◌, ◌≡◌, refl, ◌≢◌, true, false, ◌||◌, Option, none, some, List, [], ◌∷◌,
  arith, ◌==◌, if◌then◌else◌, length,
}
use info.Task.RbTree.{
  left, right, Rq, relink, hang, rotate, side_of, insert_round, insert_loop, insert_fixup,
  init_node, descend, find_leftmost, after_insert, attach, repair, rb_insert, replace_node, Fixed,
  fixed, fault, unfinished, erase_turn, erase_sibling, erase_fixup, replace_by, unlink, after_erase,
  rb_erase,
}
use info.Prelude.Maps.{put}
use info.Task.RbTree.Trees.{leaf, node, fork, top, under, is, count, count_ctx, At, Around, Zip}
use info.Task.RbTree.Rotate.{rotate-Zip}
use info.Task.RbTree.Fixup.{fix, depth, loop_Zip}
use info.Task.RbTree.Keys.{keys}
use info.Task.RbTree.Insert.{first}
use info.Task.RbTree.Sorting.{insert_by, Sorted, times}
use info.Task.RbTree.Queue.{IsQueue, rb_insert-IsQueue}
use info.Task.RbTree.Removal.{remove}
use info.Task.RbTree.EraseQueue.{Erased, rb_erase-IsQueue}

-- No process is in the queue.
abbrev empty_queue : Rq
empty_queue = record {
  child = λ sd p. 0;
  parent = λ p. 0;
  is_red = λ p. false;
  rb_root = 0;
  leftmost = 0;
  min_vruntime = 0;
}

-- Insertions and removals of processes, with the virtual run times that are their numbers' tens.
data Op : Type 0 where
  ins : ℕ → Op
  del : ℕ → Op

abbrev tens : ℕ → ℕ
tens n = n / 10

run : List Op → Rq → Fixed
run [] q = fixed q
run (ins n ∷ ops) q = run ops (rb_insert 20 tens n q)
run (del n ∷ ops) q = elim (rb_erase 20 tens n q) [
  | fixed q' ↦ run ops q'
  | fault ↦ fault
  | unfinished ↦ unfinished
]

-- What a run leaves: the root, the leftmost process and its time.
ends_with : Fixed → Option (ℕ × ℕ × ℕ)
ends_with (fixed q) = some (q.rb_root, q.leftmost, q.min_vruntime)
ends_with fault = none
ends_with unfinished = none

ascending :
    ends_with (run (ins 10 ∷ ins 20 ∷ ins 30 ∷ ins 40 ∷ ins 50 ∷ []) empty_queue) ≡ some (20, 10, 1)
unfolding run ends_with rb_insert repair attach after_insert find_leftmost descend init_node
    insert_fixup insert_loop insert_round side_of rotate hang relink put
ascending = refl

erased :
    ends_with (run (ins 10 ∷ ins 20 ∷ ins 30 ∷ ins 40 ∷ ins 50 ∷ del 20 ∷ del 10 ∷ []) empty_queue)
    ≡ some (30, 30, 3)
unfolding run ends_with rb_insert repair attach after_insert find_leftmost descend init_node
    insert_fixup insert_loop insert_round side_of rotate hang relink put rb_erase unlink replace_by
    replace_node after_erase erase_fixup erase_sibling erase_turn
erased = refl

-- Nine insertions and three removals of processes of the queue that end at a null pointer.
faulty :
    run
      (ins 21
        ∷ ins 22
        ∷ ins 120
        ∷ ins 23
        ∷ ins 51
        ∷ ins 52
        ∷ del 23
        ∷ ins 31
        ∷ ins 121
        ∷ ins 32
        ∷ del 22
        ∷ del 51
        ∷ [])
      empty_queue
    ≡ fault
unfolding run rb_insert repair attach after_insert find_leftmost descend init_node insert_fixup
    insert_loop insert_round side_of rotate hang relink put rb_erase unlink replace_by replace_node
    after_erase erase_fixup erase_sibling erase_turn
faulty = refl

-- Three processes, each on the right of the one before.
abbrev chain : Rq
chain = record {
  child = λ sd p. elim sd [ left ↦ 0 | right ↦ if p == 1 then 2 else if p == 2 then 3 else 0 ];
  parent = λ p. if p == 2 then 1 else if p == 3 then 2 else 0;
  is_red = λ p. p == 2 || p == 3;
  rb_root = 1;
  leftmost = 1;
  min_vruntime = 0;
}

one_nonzero : ◌≢◌ {A = ℕ} 1 0
one_nonzero = omega arith

two_nonzero : ◌≢◌ {A = ℕ} 2 0
two_nonzero = omega arith

three_nonzero : ◌≢◌ {A = ℕ} 3 0
three_nonzero = omega arith

two_apart : ◌≢◌ {A = ℕ} 20 0
two_apart = omega arith

each_once : (k : ℕ) → is k 1 + (is k 2 + is k 3) ≤ 1
each_once k = ground arith

chain-Zip : Zip chain top (fork left false leaf 1 (fork left true leaf 2 (node true leaf 3 leaf)))
unfolding At Around count count_ctx fork
chain-Zip = record {
  around = refl;
  inside = (
    one_nonzero,
    refl,
    refl,
    refl,
    refl,
    tt,
    (two_nonzero, refl, refl, refl, refl, tt, (three_nonzero, refl, refl, refl, refl, tt, tt)),
  );
  once = λ k. omega (arith, each_once k);
}

deep_Zip :
    Zip chain (under right true 2 leaf (under right false 1 leaf top)) (node true leaf 3 leaf)
unfolding At Around count count_ctx
deep_Zip = record {
  around =
      (two_nonzero, refl, refl, refl, refl, tt, (one_nonzero, refl, refl, refl, refl, tt, refl));
  inside = (three_nonzero, refl, refl, refl, refl, tt, tt);
  once = λ k. omega (arith, each_once k);
}

rotate-Zip_example :
    Zip
      (rotate left 1 chain)
      top
      (fork left true (fork left false leaf 1 leaf) 2 (node true leaf 3 leaf))
rotate-Zip_example =
    rotate-Zip left top false true leaf leaf (node true leaf 3 leaf) 1 2 chain chain-Zip

deep_enough : depth (under right true 2 leaf (under right false 1 leaf top)) < 3
unfolding depth
deep_enough = omega arith

loop_Zip_example :
    Zip
      (insert_loop 3 3 chain)
      top
      (fix (under right true 2 leaf (under right false 1 leaf top)) (node true leaf 3 leaf))
loop_Zip_example =
    loop_Zip 3 (under right true 2 leaf (under right false 1 leaf top)) (node true leaf 3 leaf)
      chain three_nonzero deep_enough deep_Zip

no_process : IsQueue tens empty_queue []
unfolding keys Sorted first At Around count count_ctx
no_process = record {
  tree = leaf;
  zip = record { around = refl; inside = tt; once = λ k. omega arith };
  in_order = refl;
  sorted = tt;
  leftmost_is = refl;
}

abbrev one_queue : Rq
one_queue = rb_insert 20 tens 20 empty_queue

abbrev two_queue : Rq
two_queue = rb_insert 20 tens 30 one_queue

one_process : IsQueue tens one_queue (20 ∷ [])
unfolding times insert_by
one_process =
    (rb_insert-IsQueue 20 tens 20 [] empty_queue (omega arith) refl (omega arith) no_process).0

two_processes : IsQueue tens two_queue (20 ∷ 30 ∷ [])
unfolding times insert_by
two_processes =
    (rb_insert-IsQueue 20 tens 30 (20 ∷ []) one_queue (omega arith) refl (omega arith)
      one_process).0

ten_nonzero : ◌≢◌ {A = ℕ} 10 0
ten_nonzero = omega arith

ten_is_new : times 10 (20 ∷ 30 ∷ []) ≡ 0
unfolding times
ten_is_new = refl

short : suc (length {A = ℕ} (20 ∷ 30 ∷ [])) < 20
short = omega arith

rb_insert-IsQueue_example :
    let q' = rb_insert 20 tens 10 two_queue in
    IsQueue tens q' (insert_by tens 10 (20 ∷ 30 ∷ []))
    × (q'.min_vruntime ≡ tens (first (insert_by tens 10 (20 ∷ 30 ∷ []))))
rb_insert-IsQueue_example =
    rb_insert-IsQueue 20 tens 10 (20 ∷ 30 ∷ []) two_queue ten_nonzero ten_is_new short two_processes

twenty_is_there : 0 < times 20 (20 ∷ 30 ∷ [])
unfolding times
twenty_is_there = omega arith

rb_erase-IsQueue_example :
    let (links, x, x_parent, was_red) = unlink 20 20 two_queue in
    Erased tens
      (remove 20 (20 ∷ 30 ∷ []))
      ((x ≢ 0) × (was_red ≡ false))
      (rb_erase 20 tens 20 two_queue)
rb_erase-IsQueue_example =
    rb_erase-IsQueue 20 tens 20 (20 ∷ 30 ∷ []) two_queue two_apart twenty_is_there short
      two_processes
