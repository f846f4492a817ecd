-- ===== src/Task/Sem/Tests.antt =====
-- Semaphores at a concrete sequence.
use info.Prelude.{min, ◌≡◌, [], ◌∷◌}
use info.Prelude.Int.{pos}
use info.Task.Sem.{down, up, passed, passed_lem}

-- One unit, and a signal between two waits.
passed_lem_example : passed (down ∷ up ∷ down ∷ []) (record { value = pos 1 }) ≡ min 2 1
passed_lem_example = passed_lem (down ∷ up ∷ down ∷ []) (record { value = pos 1 })
