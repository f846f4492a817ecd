-- ===== src/Vfs/File/Tests.antt =====
-- Calls on a file of a mount that keeps one file in memory.
use info.Prelude.{ℕ, ◌+◌, ◌≡◌, refl, some, List, [], ◌∷◌, ◌++◌, length, take, drop}
use info.Prelude.Int.{ℤ, pos, negsuc}
use info.Vfs.File.{
  MountOps, File, read_by, read, close, to_signed, to_word, new_position, move_to, seek,
}

abbrev memory_read : ℕ → ℕ → ℕ → List ℕ → ℤ × List ℕ
memory_read i count offset s =
    (pos (length (take count (drop offset s))), take count (drop offset s))

abbrev memory_write : ℕ → List ℕ → ℕ → List ℕ → ℤ × List ℕ
memory_write i bytes offset s =
    (pos (length bytes), take offset s ++ (bytes ++ drop (offset + length bytes) s))

abbrev memory_mount : MountOps (List ℕ)
memory_mount = record {
  read = some memory_read;
  write = some memory_write;
  close = some (λ i s. (pos 0, s));
}

abbrev notes : File (List ℕ)
notes = record { flags = 0; position = 1; mount = some memory_mount; private_data = 0 }

abbrev letters : List ℕ
letters = 97 ∷ 98 ∷ 99 ∷ 100 ∷ []

read_run : (read (some notes) 2 letters).0 ≡ (pos 2, 98 ∷ 99 ∷ [])
unfolding read read_by
read_run = refl

seek_end : (seek (some notes) (pos 0) 2).0 ≡ negsuc 3
unfolding seek new_position move_to
seek_end = refl

seek_current : (seek (some notes) (negsuc 0) 1).0 ≡ pos 0
unfolding seek new_position move_to to_signed to_word
seek_current = refl

close_run : close (some notes) letters ≡ (pos 0, letters)
unfolding close
close_run = refl
