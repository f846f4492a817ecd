-- ===== src/Vfs/Fd/Tests.antt =====
-- Descriptors at concrete calls.
use info.Prelude.{
  ℕ, ◌≤◌, ◌<◌, ◌≡◌, refl, true, false, some, ◌==◌, if◌then◌else◌, length, set, replicate,
}
use info.Prelude.Int.{pos}
use info.Vfs.Fd.{max_fd, Fds, unused, slot, fresh, find_free, alloc, in_use, free, get, dup}
use info.Vfs.Fd.Alloc.{opened, alloc-some}
use info.Vfs.Fd.Sharing.{free-dup}

length-fresh : length fresh ≡ max_fd
unfolding fresh
length-fresh = refl

first_is_five : (alloc (some 9) 0 fresh).0 ≡ some 5
unfolding alloc find_free fresh
first_is_five = refl

-- File 9 at descriptor 5.
abbrev with_file : Fds
with_file =
    set
      (set (set (replicate max_fd unused) 0 (record unused { used = true })) 1
        (record unused { used = true }))
      5 (opened (some 9) 0)

-- Every descriptor in use.
abbrev all_used : Fds
all_used = replicate max_fd (opened (some 9) 0)

get_five : get (pos 5) with_file ≡ some 9
unfolding get in_use
get_five = refl

dup_six : (dup (pos 5) with_file).0 ≡ some 6
unfolding dup get in_use alloc find_free
dup_six = refl

alloc-some_example :
    (5 ≤ 5)
    × (5 < max_fd)
    × ((slot fresh 5).used ≡ false)
    × ((j : ℕ) → 5 ≤ j → j < 5 → (slot fresh j).used ≡ true)
    × ((j : ℕ)
        → slot (alloc (some 9) 0 fresh).1 j ≡ (if 5 == j then opened (some 9) 0 else slot fresh j))
alloc-some_example = alloc-some (some 9) 0 fresh 5 length-fresh first_is_five

free-dup_example :
    let closed = free (pos 6) (dup (pos 5) with_file).1 in
    (closed.1 ≡ some 9) × (get (pos 5) closed.2 ≡ some 9)
free-dup_example = free-dup 5 6 9 with_file refl get_five dup_six
