-- ===== src/Task/Sem.antt =====
-- task/sem.cc and task/lock.cc: semaphores and spin locks as a single caller sees them.
mod Tests
use info.Prelude.{
  ℕ, zero, suc, ◌+◌, ◌-◌, ◌*◌, ◌/◌, ◌%◌, ◌^◌, ◌≤◌, ◌<◌, min, ◌≡◌, refl, sym, ap, ◌∙◌, ◌≢◌, ◌↔◌, ◌⊎◌,
  inl, inr, Bool, true, false, not, ◌&&◌, ◌||◌, Option, none, some, List, [], ◌∷◌, ◌++◌, map,
  append-nil, append_assoc, arith, ltb, leb, ◌==◌, if◌then◌else◌, ltb→lt, lt→ltb, leb→le, ==_iff,
  tests, Bool-cases, Option-cases, length, get_elem?, set, length-append, length-set,
  get_elem?-set_self, get_elem?-set_ne, get_or, take, drop, replicate, take-append-drop,
  length-take, length-drop, length-replicate, length-map,
}
use info.Prelude.Int.{ℤ, pos, negsuc}

-- `Sem`; the wait queue is never written.
pub record Sem : Type 0 where
  pub value : ℤ

-- How a wait ends: it takes a unit, or the caller is blocked and taken off the run queue.
pub data Wait : Type 0 where
  passes : Sem → Wait
  blocks : Sem → Wait

-- `Sem::wait`
pub wait : Sem → Wait
wait s = elim s.value [
  | pos n ↦ if ltb 0 n then passes (record { value = pos (n - 1) }) else blocks s
  | negsuc n ↦ blocks s
]

-- `Sem::signal`, whose body is commented out but for the lock.
unfoldable pub signal : Sem → Sem
signal s = s

-- `Sem::get_value`
unfoldable pub get_value : Sem → ℤ
get_value s = s.value

-- Waits and signals of several processes, in the order in which they take the lock.
pub data Op : Type 0 where
  down up : Op

-- How many of the waits pass.
pub passed : List Op → Sem → ℕ
passed [] s = 0
passed (up ∷ ops) s = passed ops (signal s)
passed (down ∷ ops) s = elim (wait s) [
  | passes s' ↦ suc (passed ops s')
  | blocks s' ↦ passed ops s'
]

abbrev pub waits : List Op → ℕ
waits [] = 0
waits (up ∷ ops) = waits ops
waits (down ∷ ops) = suc (waits ops)

-- The units that a semaphore starts with.
abbrev pub units : ℤ → ℕ
units (pos n) = n
units (negsuc n) = 0

wait_of_value :
    (v : ℤ)
    → (wait (record { value = v }) ≡ blocks (record { value = v }))
      ⊎ ((n : ℕ) × (units v ≡ suc n)
          × (wait (record { value = v }) ≡ passes (record { value = pos n })))
unfolding wait
wait_of_value (negsuc n) = inl refl
wait_of_value (pos zero) = inl refl
wait_of_value (pos (suc n)) = inr (n, refl, ground arith)

-- A wait blocks, or takes one unit.
pub wait-cases :
    (s : Sem)
    → (wait s ≡ blocks s)
      ⊎ ((n : ℕ) × (units s.value ≡ suc n) × (wait s ≡ passes (record { value = pos n })))
wait-cases s = wait_of_value s.value

passed_of_parts :
    (ops : List Op) (v : ℤ) → passed ops (record { value = v }) ≡ min (waits ops) (units v)
unfolding passed wait signal
passed_of_parts [] v = omega arith
passed_of_parts (up ∷ ops) v = passed_of_parts ops v
passed_of_parts (down ∷ ops) (negsuc n) = omega (arith, passed_of_parts ops (negsuc n))
passed_of_parts (down ∷ ops) (pos n) =
    ground (arith, passed_of_parts ops (pos (n - 1)), passed_of_parts ops (pos n))

-- Over any sequence of waits and signals on a semaphore, the waits that pass are as many as its
-- first value has units, at most: signals never let another wait pass.
pub passed_lem : (ops : List Op) (s : Sem) → passed ops s ≡ min (waits ops) (units s.value)
passed_lem ops s = passed_of_parts ops s.value
