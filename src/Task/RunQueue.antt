-- ===== src/Task/RunQueue.antt =====
-- The run queue of task/cfs.cc, and the part of `Schedule` of task/sched.cc that is about it. The
-- lock of the queue, which a call takes and lets go, leaves no trace here. A process is a number, 0 is the
-- null pointer.
pub mod Laws
mod Tests
use info.Prelude.{
  ℕ, subst, ap₂, zero, suc, ◌+◌, ◌-◌, ◌*◌, ◌/◌, ◌%◌, ◌^◌, ◌≤◌, ◌<◌, min, ◌≡◌, refl, sym, ap, ◌∙◌,
  ◌≢◌, ◌↔◌, ◌⊎◌, inl, inr, Bool, true, false, not, ◌&&◌, ◌||◌, Option, none, some, List, [], ◌∷◌,
  ◌++◌, map, append-nil, append_assoc, arith, add-zero, ltb, leb, ◌==◌, if◌then◌else◌, ltb→lt,
  lt→ltb, leb→le, ==_iff, tests, Bool-cases, Option-cases, length, get_elem?, set, length-append,
  length-set, get_elem?-set_self, get_elem?-set_ne, get_or, take, drop, replicate, take-append-drop,
  length-take, length-drop, length-replicate, length-map, take_all, drop_all, All, All-get_elem?,
  All-set, All-replicate, get_elem?-some, get_or-set_self, get_or-set_ne,
}
use info.Prelude.Maps.{put}
use info.Task.Cfs.{Entity, update_vruntime, normalize_vruntime}
use info.Task.Ipc.{State, running, ready, blocked, zombie, dead}
use info.Task.RbTree.{Rq, Fixed, fixed, fault, unfinished, rb_insert, rb_erase}

-- `Sched`, and of each process `stat` and `se`.
pub record Sched : Type 0 where
  pub links : Rq
  pub nr_running : ℕ
  pub total_weight : ℕ
  pub current : ℕ
  pub clock : ℕ
  pub stat : ℕ → State
  pub entity : ℕ → Entity

-- How a call ends: with the queue, at a null pointer, or not within the rounds.
pub data Ran : Type 0 where
  ran : Sched → Ran
  null_pointer : Ran
  no_rounds : Ran

abbrev pub vruntimes : (ℕ → Entity) → ℕ → ℕ
vruntimes entity k = (entity k).vruntime

-- The tests of `Enqueue` and of `Dequeue`.
abbrev pub runs : State → Bool
runs running = true
runs ready = true
runs blocked = false
runs zombie = false
runs dead = false

abbrev pub counted : State → Bool
counted running = true
counted ready = true
counted blocked = true
counted zombie = false
counted dead = false

-- The entity that `Enqueue` makes of one.
unfoldable pub enter : Bool → ℕ → Entity → Entity
enter alone min_vruntime e =
    let e' : Entity = if alone then e else normalize_vruntime e min_vruntime in
    if e'.weight == 0 then record e' { weight = 1024 } else e'

-- `Sched::Enqueue`, with a bound for the rounds of the tree's loops.
unfoldable pub enqueue : ℕ → ℕ → Sched → Sched
enqueue rounds p s =
    let e : Entity = enter (s.links.rb_root == 0) s.links.min_vruntime (s.entity p) in
    let entity = put s.entity p e in
    if p == 0 || not (runs (s.stat p)) then s else record s {
      links = rb_insert rounds (vruntimes entity) p s.links;
      nr_running = (s.nr_running + 1) % 2 ^ 32;
      total_weight = (s.total_weight + e.weight) % 2 ^ 64;
      current = if s.current == 0 then p else s.current;
      entity = entity;
    }

-- The end of `Sched::Dequeue`, with the tree without the process.
unfoldable pub leave : ℕ → Rq → Sched → Sched
leave p links s =
    let gone : Bool = counted (s.stat p) in
    record s {
      links = links;
      nr_running = if gone then (s.nr_running + 2 ^ 32 - 1) % 2 ^ 32 else s.nr_running;
      total_weight =
          if gone then (s.total_weight + 2 ^ 64 - (s.entity p).weight) % 2 ^ 64 else s.total_weight;
      current = if s.current == p then links.leftmost else s.current;
    }

-- `Sched::Dequeue`
unfoldable pub dequeue : ℕ → ℕ → Sched → Ran
dequeue rounds p s =
    if p == 0 then ran s else elim (rb_erase rounds (vruntimes s.entity) p s.links) [
      | fixed links ↦ ran (leave p links s)
      | fault ↦ null_pointer
      | unfinished ↦ no_rounds
    ]

abbrev pub is_dead : State → Bool
is_dead running = false
is_dead ready = false
is_dead blocked = false
is_dead zombie = false
is_dead dead = true

-- What follows where a call ends with the queue.
unfoldable pub and_then : Ran → (Sched → Ran) → Ran
and_then (ran s) f = f s
and_then null_pointer f = null_pointer
and_then no_rounds f = no_rounds

-- The loop of `Sched::PickNextTask`, from the process `next` on, with a bound for its rounds. The process
-- that is picked is the current one.
unfoldable pub skip_dead : ℕ → ℕ → ℕ → Sched → Ran
skip_dead zero rounds next s = no_rounds
skip_dead (suc turns) rounds next s =
    let fewer : Sched → Sched =
      λ r. record r { nr_running = (r.nr_running + 2 ^ 32 - 1) % 2 ^ 32 } in
    let again : Ran = and_then (dequeue rounds next s) (λ r.
      let r' = fewer r in
      let rest = skip_dead turns rounds r'.links.leftmost r' in
      if r'.nr_running == 0 then ran (record r' { current = 0 }) else rest) in
    if next == 0 || not (is_dead (s.stat next)) then ran (record s { current = next }) else again

-- `Sched::PickNextTask`
unfoldable pub pick_next_task : ℕ → ℕ → Sched → Ran
pick_next_task turns rounds s =
    let picked = skip_dead turns rounds s.links.leftmost s in
    if s.nr_running == 0 then ran (record s { current = 0 }) else picked

-- `Sched::UpdateVruntime` of the current process.
unfoldable pub age : ℕ → Sched → Sched
age delta s =
    let (e, min_vruntime) = update_vruntime delta (s.entity s.current) s.links.min_vruntime in
    record s {
      entity = put s.entity s.current e;
      links = record s.links { min_vruntime = min_vruntime };
    }

-- `Sched::UpdateVruntimeCurrent`
unfoldable pub update_vruntime_current : ℕ → Sched → Sched
update_vruntime_current delta s = let aged = age delta s in if s.current == 0 then s else aged

-- `Sched::UpdateClock`
unfoldable pub update_clock : ℕ → Sched → Sched
update_clock delta s =
    update_vruntime_current delta (record s { clock = (s.clock + delta) % 2 ^ 64 })

-- `Schedule` up to the choice of the next process, with the process that calls it.
unfoldable pub schedule : ℕ → ℕ → ℕ → Sched → Ran
schedule turns rounds prev s =
    let set_ready = record s { stat = put s.stat prev ready } in
    let updated : Ran = elim (s.stat prev) [
      | running ↦ and_then (dequeue rounds prev set_ready) (λ r. ran (enqueue rounds prev r))
      | ready ↦ and_then (dequeue rounds prev set_ready) (λ r. ran (enqueue rounds prev r))
      | zombie ↦ and_then (dequeue rounds prev set_ready) (λ r. ran (enqueue rounds prev r))
      | blocked ↦ dequeue rounds prev s
      | dead ↦ dequeue rounds prev s
    ] in
    and_then updated (pick_next_task turns rounds)
