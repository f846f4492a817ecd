-- ===== src/Task/Lock/Tests.antt =====
-- Two processors in the lock.
use info.Prelude.{ℕ, suc, ◌≡◌, refl, true, false, some, [], ◌∷◌}
use info.Task.Lock.{free_lock, attempt, lock, try_lock, unlock, locks, unlocks, Shared, turn, turns}
use info.Task.Lock.Holders.{holds, after_own, turns-holds}

abbrev start : Shared
start = record { spin = free_lock; holders = [] }

unlock_example : (turns (locks 1 1 ∷ unlocks 1 ∷ []) start).spin ≡ free_lock
unfolding attempt lock unlock turn turns
unlock_example = refl

-- The second processor takes the lock while the first one holds it.
both_hold : (turns (locks 1 1 ∷ locks 2 1 ∷ []) start).holders ≡ 2 ∷ 1 ∷ []
unfolding attempt lock unlock turn turns
both_hold = refl

both_taken : after_own 1 (locks 1 1 ∷ locks 2 1 ∷ []) false ≡ true
unfolding after_own
both_taken = refl

turns-holds_example :
    ((rounds r : ℕ) → lock (suc rounds) r free_lock ≡ some (record { state = r }))
    × ((r : ℕ) → (try_lock r free_lock).0 ≡ true)
    × (holds 1 (turns (locks 1 1 ∷ locks 2 1 ∷ []) start).holders
        ≡ after_own 1 (locks 1 1 ∷ locks 2 1 ∷ []) (holds 1 []))
turns-holds_example = turns-holds 1 (locks 1 1 ∷ locks 2 1 ∷ []) start
