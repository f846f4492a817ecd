-- ===== src/Task/Pipe/Tests.antt =====
-- The pipes at concrete calls.
use info.Prelude.{◌+◌, ◌*◌, ◌<◌, ◌≡◌, refl, false, some, [], ◌∷◌, arith}
use info.Prelude.Int.{pos}
use info.Task.Pipe.{Pipes, returned, boot, create, read, write, pipe_id, max_pipes}
use info.Task.Pipe.Fifo.{take_bytes, put_bytes}
use info.Task.Pipe.Table.{IsTable, entry, ActsOn, boot-IsTable, create-IsTable, read_lem, write_lem}
use info.Task.Pipe.Ends.{write-read}

boot-count : boot.count < max_pipes
unfolding boot
boot-count = omega arith

-- The table with one pipe.
one : Pipes
one = (create boot).1

one-IsTable : IsTable one
unfolding one
one-IsTable = create-IsTable boot-IsTable

one-opens : pipe_id (pos 0) one ≡ some 0
unfolding one pipe_id create boot
one-opens = refl

read_lem_example : ActsOn one 0 (take_bytes 4) (read (pos 0) 4 one)
read_lem_example = read_lem (pos 0) one 0 one-IsTable one-opens 4

write_lem_example : ActsOn one 0 (put_bytes (1 ∷ 2 ∷ [])) (write (pos 0) (1 ∷ 2 ∷ []) one)
write_lem_example = write_lem (pos 0) one 0 one-IsTable one-opens (1 ∷ 2 ∷ [])

write-read_example :
    let sent = (write (pos (boot.count * 2 + 1)) (7 ∷ 8 ∷ []) (create boot).1).1 in
    let got = read (pos (boot.count * 2)) 9 sent in
    (got.0 ≡ returned (pos 2) (7 ∷ 8 ∷ [])) × (entry got.1 boot.count ≡ some (false, []))
write-read_example =
    write-read (7 ∷ 8 ∷ []) 9 boot-IsTable boot-count (omega arith) (omega arith) (omega arith)
