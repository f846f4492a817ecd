-- ===== src/Task/Lock.antt =====
-- task/lock.cc: the spin lock, and processors that call it.
pub mod Holders
mod Tests
use info.Prelude.{
  ℕ, subst, ap₂, zero, suc, ◌+◌, ◌-◌, ◌*◌, ◌/◌, ◌%◌, ◌^◌, ◌≤◌, ◌<◌, min, ◌≡◌, refl, sym, ap, ◌∙◌,
  ◌≢◌, ◌↔◌, ◌⊎◌, inl, inr, Bool, true, false, not, ◌&&◌, ◌||◌, Option, none, some, List, [], ◌∷◌,
  ◌++◌, map, append-nil, append_assoc, arith, add-zero, ltb, leb, ◌==◌, if◌then◌else◌, ltb→lt,
  lt→ltb, leb→le, ==_iff, tests, Bool-cases, Option-cases, length, get_elem?, set, length-append,
  length-set, get_elem?-set_self, get_elem?-set_ne, get_or, take, drop, replicate, take-append-drop,
  length-take, length-drop, length-replicate, length-map, take_all, drop_all, All, All-get_elem?,
  All-set, All-replicate, get_elem?-some, get_or-set_self, get_or-set_ne,
}

pub record SpinLock : Type 0 where
  pub state : ℕ

abbrev pub free_lock : SpinLock
free_lock = record { state = 0 }

-- `xchgl`: the memory and the register after it.
abbrev pub xchg : ℕ → ℕ → ℕ × ℕ
xchg register memory = (register, memory)

-- One round of the loop of `lock`: `expected`, which stays 0, and the lock. What the exchange gave is in
-- `new_value`, which no test reads. The register that is exchanged is an output of the instruction
-- only: what it holds before is not fixed by the code, and is an argument here.
unfoldable pub attempt : ℕ → SpinLock → ℕ × SpinLock
attempt register l =
    let expected : ℕ = 0 in
    let out = xchg register l.state in (expected, record l { state = out.0 })

-- `SpinLock::lock`, with a bound for its rounds; `none` is still waiting.
unfoldable pub lock : ℕ → ℕ → SpinLock → Option SpinLock
lock zero register l = none
lock (suc rounds) register l =
    let out = attempt register l in
    let rest = lock rounds register out.1 in if out.0 == 0 then some out.1 else rest

-- `SpinLock::try_lock`
unfoldable pub try_lock : ℕ → SpinLock → Bool × SpinLock
try_lock register l = let out = attempt register l in (out.0 == 0, out.1)

-- `SpinLock::unlock`
pub unlock : SpinLock → SpinLock
unlock l = record l { state = 0 }

-- A call by a processor, with what its register holds if it exchanges it, and the lock with the
-- processors whose `lock` has returned since.
pub data Call : Type 0 where
  locks : ℕ → ℕ → Call
  unlocks : ℕ → Call

pub record Shared : Type 0 where
  pub spin : SpinLock
  pub holders : List ℕ

pub without : ℕ → List ℕ → List ℕ
without p [] = []
without p (q ∷ qs) = let rest = without p qs in if p == q then rest else q ∷ rest

-- A processor that waits tries one round each time that it is its turn.
pub turn : Call → Shared → Shared
turn (locks p register) s = elim (lock 1 register s.spin) [
  | none ↦ record s { spin = (attempt register s.spin).1 }
  | some l ↦ record { spin = l; holders = p ∷ s.holders }
]
turn (unlocks p) s = record { spin = unlock s.spin; holders = without p s.holders }

pub turns : List Call → Shared → Shared
turns [] s = s
turns (c ∷ cs) s = turns cs (turn c s)
