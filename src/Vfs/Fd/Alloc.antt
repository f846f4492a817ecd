-- ===== src/Vfs/Fd/Alloc.antt =====
-- Allocation, release and lookup of descriptors.
use info.Prelude.{
  ℕ, ◌-◌, ◌≤◌, ◌<◌, ◌≡◌, refl, sym, ap, ◌∙◌, inl, inr, Bool, true, false, ◌&&◌, Option, none, some,
  arith, ltb, ◌==◌, if◌then◌else◌, Option-cases, length, set,
}
use mathlib.Core.Option.{some-injective}
use info.Prelude.Int.{ℤ, pos}
use info.Vfs.Fd.{
  max_fd, FileDescriptor, Fds, unused, slot, find_free, alloc, in_use, free, get, set_flags,
}
use info.Vfs.Fd.Slots.{slot-set, find_free-some, find_free-none, in_use_iff}

abbrev pub opened : Option ℕ → ℕ → FileDescriptor
opened file flags = record { used = true; file = file; flags = flags }

alloc_found :
    (file : Option ℕ) (flags : ℕ) (t : Fds) (fd : ℕ)
    → find_free (max_fd - 5) 5 t ≡ some fd
    → alloc file flags t ≡ (some fd, set t fd (opened file flags))
unfolding alloc
alloc_found file flags t fd e = rw (e, alloc)

alloc_full :
    (file : Option ℕ) (flags : ℕ) (t : Fds)
    → find_free (max_fd - 5) 5 t ≡ none
    → alloc file flags t ≡ (none, t)
unfolding alloc
alloc_full file flags t e = rw (e, alloc)

-- What a lookup gives: the file of an entry in range that is in use.
pub get_iff :
    (fd : ℕ) (t : Fds)
    → get (pos fd) t ≡ (if ltb fd max_fd && (slot t fd).used then (slot t fd).file else none)
unfolding get
get_iff fd t = ground (arith, in_use_iff fd t)

-- If Alloc on a table of 64 entries returns a descriptor, that is the least one from 5 on that
-- is not in use, its entry becomes used with the file and the flags, and every other entry
-- stays.
pub alloc-some :
    (file : Option ℕ) (flags : ℕ) (t : Fds) (fd : ℕ)
    → length t ≡ max_fd
    → (alloc file flags t).0 ≡ some fd
    → (5 ≤ fd)
      × (fd < max_fd)
      × ((slot t fd).used ≡ false)
      × ((j : ℕ) → 5 ≤ j → j < fd → (slot t j).used ≡ true)
      × ((j : ℕ)
          → slot (alloc file flags t).1 j ≡ (if fd == j then opened file flags else slot t j))
alloc-some file flags t fd n h = elim (Option-cases (find_free (max_fd - 5) 5 t)) [
  | inl full ↦ cc (h, alloc_full file flags t full)
  | inr (i, e) ↦
      let out = alloc_found file flags t i e in
      let same : i ≡ fd = some-injective i fd (sym (ap (λ (o : Option ℕ × Fds). o.0) out) ∙ h) in
      let (lo, hi, open_slot, below) = find_free-some (max_fd - 5) 5 t fd (e ∙ ap some same) in
      (
        lo,
        omega arith,
        open_slot,
        below,
        λ j.
            ap (λ (o : Option ℕ × Fds). slot o.1 j) out
            ∙ ap (λ k. slot (set t k (opened file flags)) j) same
            ∙ slot-set t fd j (opened file flags) (omega arith),
      )
]

-- If Alloc fails, the table is unchanged and every descriptor from 5 to 63 is in use.
alloc-none :
    (file : Option ℕ) (flags : ℕ) (t : Fds)
    → (alloc file flags t).0 ≡ none
    → ((alloc file flags t).1 ≡ t) × ((j : ℕ) → 5 ≤ j → j < max_fd → (slot t j).used ≡ true)
alloc-none file flags t h = elim (Option-cases (find_free (max_fd - 5) 5 t)) [
  | inl full ↦ (
    ap (λ (o : Option ℕ × Fds). o.1) (alloc_full file flags t full),
    λ j lo hi. find_free-none (max_fd - 5) 5 t full j lo (omega arith),
  )
  | inr (i, e) ↦ absurd (cc (h, alloc_found file flags t i e))
]

free_used :
    (fd : ℕ) (t : Fds)
    → fd < max_fd
    → (slot t fd).used ≡ true
    → free (pos fd) t ≡ (true, (slot t fd).file, set t fd unused)
unfolding free
free_used fd t h u =
    let e : in_use (pos fd) t ≡ some fd = ground (arith, in_use_iff fd t) in rw (e, free)

get-free :
    (fd j : ℕ) (t : Fds)
    → length t ≡ max_fd
    → fd < max_fd
    → get (pos j) (set t fd unused) ≡ (if fd == j then none else get (pos j) t)
get-free fd j t n h =
    ground (arith, get_iff j (set t fd unused), get_iff j t, slot-set t fd j unused)

-- Free of a descriptor in use, on a table of 64 entries, succeeds, closes the file of that
-- entry, makes Get of the descriptor give null, and leaves Get of every other descriptor as it
-- was.
pub free_lem :
    (fd : ℕ) (t : Fds)
    → length t ≡ max_fd
    → fd < max_fd
    → (slot t fd).used ≡ true
    → ((free (pos fd) t).0 ≡ true)
      × ((free (pos fd) t).1 ≡ (slot t fd).file)
      × ((j : ℕ) → get (pos j) (free (pos fd) t).2 ≡ (if fd == j then none else get (pos j) t))
free_lem fd t n h u =
    let out = free_used fd t h u in
    (
      ap (λ (o : Bool × Option ℕ × Fds). o.0) out,
      ap (λ (o : Bool × Option ℕ × Fds). o.1) out,
      λ j. ap (λ (o : Bool × Option ℕ × Fds). get (pos j) o.2) out ∙ get-free fd j t n h,
    )

-- A descriptor that names no entry in use: nothing is closed and nothing changes.
pub free_unused : (fd : ℤ) (t : Fds) → in_use fd t ≡ none → free fd t ≡ (false, none, t)
unfolding free
free_unused fd t e = rw (e, free)

pub get-alloc :
    (file : Option ℕ) (flags : ℕ) (t : Fds) (fd : ℕ)
    → length t ≡ max_fd
    → (alloc file flags t).0 ≡ some fd
    → (j : ℕ) → get (pos j) (alloc file flags t).1 ≡ (if fd == j then file else get (pos j) t)
get-alloc file flags t fd n h j =
    let facts = alloc-some file flags t fd n h in
    ground (arith, facts.1, facts.4 j, get_iff j (alloc file flags t).1, get_iff j t)

-- SetFlags of a descriptor in use, on a table of 64 entries, succeeds, sets the flags of that
-- entry and changes the file of no descriptor.
set_flags_lem :
    (fd flags : ℕ) (t : Fds)
    → length t ≡ max_fd
    → fd < max_fd
    → (slot t fd).used ≡ true
    → ((set_flags (pos fd) flags t).0 ≡ true)
      × ((slot (set_flags (pos fd) flags t).1 fd).flags ≡ flags)
      × ((j : ℕ) → get (pos j) (set_flags (pos fd) flags t).1 ≡ get (pos j) t)
unfolding set_flags
set_flags_lem fd flags t n h u =
    let e : in_use (pos fd) t ≡ some fd = ground (arith, in_use_iff fd t) in
    let d : FileDescriptor = record (slot t fd) { flags = flags } in
    let u' = set t fd d in
    rw (e, set_flags)
      (
        refl,
        ground (arith, slot-set t fd fd d),
        λ j. ground (arith, get_iff j u', get_iff j t, slot-set t fd j d),
      )
