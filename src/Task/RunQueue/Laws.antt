-- ===== src/Task/RunQueue/Laws.antt =====
-- The run queue is sorted, and its processes are counted.
use info.Prelude.{
  ℕ, subst, suc, ◌^◌, ◌≤◌, ◌<◌, ◌≡◌, sym, ◌∙◌, ◌≢◌, true, false, List, [], ◌∷◌, arith, ◌==◌, length,
  All,
}
use info.Prelude.Maps.{put, put_ne}
use info.Task.Cfs.{Entity}
use info.Task.RbTree.{Fixed, fixed, fault, unfinished, rb_erase, unlink}
use info.Task.RbTree.Sorting.{insert_by, Sorted, times}
use info.Task.RbTree.Queue.{IsQueue, rb_insert-IsQueue, length-insert_by}
use info.Task.RbTree.Removal.{remove, length-remove}
use info.Task.RbTree.EraseQueue.{Erased, rb_erase-IsQueue}
use info.Task.RunQueue.{
  Sched, Ran, ran, null_pointer, no_rounds, vruntimes, runs, counted, enter, enqueue, leave,
  dequeue,
}

-- The processes of the queue, sorted, with their number in `nr_running`.
pub record IsRunQueue (s : Sched) (ks : List ℕ) : Type 0 where
  pub queue : IsQueue (vruntimes s.entity) s.links ks
  pub nr_is : s.nr_running ≡ length ks

All-put :
    (e : ℕ → Entity) (p : ℕ) (x : Entity) (a : ℕ) (ks : List ℕ)
    → times p ks ≡ 0
    → All (λ j. a ≤ vruntimes e j) ks
    → All (λ j. a ≤ vruntimes (put e p x) j) ks
unfolding times
All-put e p x a [] gone h = tt
All-put e p x a (k ∷ ks) gone h =
    let ne : p ≢ k = λ i. ground (arith, gone, i) in
    (
      subst (λ (m : Entity). a ≤ m.vruntime) (sym (put_ne e {i = p} {j = k} x ne)) h.0,
      All-put e p x a ks (omega (arith, gone)) h.1,
    )

-- Another entity of a process that is not in the queue.
Sorted-put :
    (e : ℕ → Entity) (p : ℕ) (x : Entity) (ks : List ℕ)
    → times p ks ≡ 0
    → Sorted (vruntimes e) ks
    → Sorted (vruntimes (put e p x)) ks
unfolding Sorted times
Sorted-put e p x [] gone s = tt
Sorted-put e p x (k ∷ ks) gone s =
    let ne : p ≢ k = λ i. ground (arith, gone, i) in
    let later : times p ks ≡ 0 = omega (arith, gone) in
    (
      subst (λ (m : Entity). All (λ j. m.vruntime ≤ vruntimes (put e p x) j) ks)
          (sym (put_ne e {i = p} {j = k} x ne)) (All-put e p x (vruntimes e k) ks later s.0),
      Sorted-put e p x ks later s.1,
    )

-- If the run queue holds the processes of a list, sorted, with their number in nr_running, then
-- Enqueue of a running or ready process that is not in it, with enough rounds, fewer than 2 ^
-- 32, makes it hold the list with the process in its place by the virtual run time that Enqueue
-- gives it, and counts it.
pub enqueue-IsRunQueue :
    (rounds p : ℕ) (s : Sched) (ks : List ℕ)
    → p ≢ 0
    → runs (s.stat p) ≡ true
    → times p ks ≡ 0
    → suc (length ks) < rounds
    → rounds < 2 ^ 32
    → IsRunQueue s ks
    → let s' = enqueue rounds p s in IsRunQueue s' (insert_by (vruntimes s'.entity) p ks)
unfolding enqueue
enqueue-IsRunQueue rounds p s ks nz on new enough small h =
    let e : Entity = enter (s.links.rb_root == 0) s.links.min_vruntime (s.entity p) in
    let v : ℕ → ℕ = vruntimes (put s.entity p e) in
    let q = h.queue in
    let before : IsQueue v s.links ks = record {
      tree = q.tree;
      zip = q.zip;
      in_order = q.in_order;
      sorted = Sorted-put s.entity p e ks new q.sorted;
      leftmost_is = q.leftmost_is;
    } in
    let has : (p == 0) ≡ false = ground arith in
    let long = length-insert_by v p ks in
    rw (has, on)
      (record {
        queue = (rb_insert-IsQueue rounds v p ks s.links nz new enough before).0;
        nr_is = omega (arith, h.nr_is, long, enough, small);
      })

-- What comes of `Dequeue`.
abbrev pub Dequeued : List ℕ → Type 0 → Ran → Type 0
Dequeued ks called (ran s) = IsRunQueue s ks
Dequeued ks called null_pointer = called
Dequeued ks called no_rounds = ⊥

left_behind :
    (p : ℕ) (s : Sched) (ks : List ℕ) (called : Type 0) (f : Fixed)
    → counted (s.stat p) ≡ true
    → s.nr_running ≡ suc (length ks)
    → suc (length ks) < 2 ^ 32
    → Erased (vruntimes s.entity) ks called f
    → Dequeued ks called (elim f [
      | fixed links ↦ ran (leave p links s)
      | fault ↦ null_pointer
      | unfinished ↦ no_rounds
    ])
unfolding leave
left_behind p s ks called (fixed q) on nr small h =
    rw on (record { queue = h; nr_is = omega (arith, nr, small) })
left_behind p s ks called fault on nr small h = h
left_behind p s ks called unfinished on nr small h = h

-- If the run queue holds the processes of a list, sorted, with their number in nr_running, then
-- Dequeue of one of them that is running, ready or blocked, with enough rounds, fewer than 2 ^
-- 32, makes it hold the list without the process, and counts one less; or reads through a null
-- pointer, and then only if what leaves its place in the tree, the process or its successor, is
-- black and has a child. It always ends.
pub dequeue-IsRunQueue :
    (rounds p : ℕ) (s : Sched) (ks : List ℕ)
    → p ≢ 0
    → counted (s.stat p) ≡ true
    → 0 < times p ks
    → suc (length ks) < rounds
    → rounds < 2 ^ 32
    → IsRunQueue s ks
    → let (links, x, x_parent, was_red) = unlink rounds p s.links in
      Dequeued (remove p ks) ((x ≢ 0) × (was_red ≡ false)) (dequeue rounds p s)
unfolding dequeue
dequeue-IsRunQueue rounds p s ks nz on has enough small h =
    let (links, x, x_parent, was_red) = unlink rounds p s.links in
    let no : (p == 0) ≡ false = ground arith in
    let shorter = length-remove p ks has in
    rw no (
      left_behind p s (remove p ks) ((x ≢ 0) × (was_red ≡ false))
        (rb_erase rounds (vruntimes s.entity) p s.links) on (h.nr_is ∙ shorter)
        (omega (arith, shorter))
        (rb_erase-IsQueue rounds (vruntimes s.entity) p ks s.links nz has enough h.queue))
