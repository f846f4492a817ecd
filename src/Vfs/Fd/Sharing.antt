-- ===== src/Vfs/Fd/Sharing.antt =====
-- `FdDup` and `FdDup2`: two descriptors of one file.
use info.Prelude.{
  ℕ, ◌-◌, ◌<◌, ◌≡◌, refl, sym, ap, ◌∙◌, inl, inr, true, false, Option, none, some, arith, ◌==◌,
  if◌then◌else◌, ==_iff, Bool-cases, Option-cases, length, set, length-set,
}
use info.Prelude.Int.{ℤ, pos}
use info.Vfs.Fd.{max_fd, Fds, slot, find_free, alloc, in_use, free, get, dup, dup_into, dup2}
use info.Vfs.Fd.Slots.{slot-set, in_use_iff}
use info.Vfs.Fd.Alloc.{get_iff, alloc-some, get-alloc, free_lem}

dup-alloc :
    (old f : ℕ) (t : Fds)
    → get (pos old) t ≡ some f
    → dup (pos old) t ≡ alloc (some f) (slot t old).flags t
unfolding dup
dup-alloc old f t e = rw (e, dup)

length-alloc : (file : Option ℕ) (flags : ℕ) (t : Fds) → length (alloc file flags t).1 ≡ length t
unfolding alloc
length-alloc file flags t = elim (Option-cases (find_free (max_fd - 5) 5 t)) [
  | inl full ↦ rw (full, alloc) refl
  | inr (i, e) ↦ rw (e, alloc) (length-set t i (record { used = true; file = file; flags = flags }))
]

length-dup :
    (old f : ℕ) (t : Fds) → get (pos old) t ≡ some f → length (dup (pos old) t).1 ≡ length t
length-dup old f t e = rw (dup-alloc old f t e) (length-alloc (some f) (slot t old).flags t)

-- If FdDup of a descriptor with file f returns a descriptor, that one gave no file before;
-- afterwards it gives f, and every other descriptor what it gave before.
dup_lem :
    (old new f : ℕ) (t : Fds)
    → length t ≡ max_fd
    → get (pos old) t ≡ some f
    → (dup (pos old) t).0 ≡ some new
    → (get (pos new) t ≡ none)
      × ((j : ℕ) → get (pos j) (dup (pos old) t).1 ≡ (if new == j then some f else get (pos j) t))
dup_lem old new f t n e h =
    let same = dup-alloc old f t e in
    let flags = (slot t old).flags in
    let h' : (alloc (some f) flags t).0 ≡ some new =
      sym (ap (λ (o : Option ℕ × Fds). o.0) same) ∙ h in
    let facts = alloc-some (some f) flags t new n h' in
    (
      ground (arith, get_iff new t, facts.2),
      λ j.
          ap (λ (o : Option ℕ × Fds). get (pos j) o.1) same ∙ get-alloc (some f) flags t new n h' j,
    )

-- After FdDup of a descriptor with file f, Free of the duplicate closes f although the first
-- descriptor still gives f.
pub free-dup :
    (old new f : ℕ) (t : Fds)
    → length t ≡ max_fd
    → get (pos old) t ≡ some f
    → (dup (pos old) t).0 ≡ some new
    → let closed = free (pos new) (dup (pos old) t).1 in
      (closed.1 ≡ some f) × (get (pos old) closed.2 ≡ some f)
free-dup old new f t n e h =
    let (absent, after) = dup_lem old new f t n e h in
    let u = (dup (pos old) t).1 in
    let gives : get (pos new) u ≡ some f = ground (arith, after new) in
    let used : (new < max_fd) × ((slot u new).used ≡ true) × ((slot u new).file ≡ some f) =
      ground (arith, get_iff new u) in
    let out = free_lem new u (length-dup old f t e ∙ n) used.0 used.1 in
    let apart : (new == old) ≡ false = ground (arith, absent) in
    (out.1 ∙ used.2, ground (arith, out.2 old, after old))

dup2-into :
    (old : ℕ) (new : ℤ) (t : Fds)
    → in_use (pos old) t ≡ some old
    → dup2 (pos old) new t ≡ dup_into old new t
unfolding dup2
dup2-into old new t e = rw (e, dup2)

dup_into_lem :
    (old new : ℕ) (t : Fds)
    → length t ≡ max_fd
    → old < max_fd
    → (slot t old).used ≡ true
    → new < max_fd
    → ((dup_into old (pos new) t).0 ≡ some new)
      × ((j : ℕ)
          → get (pos j) (dup_into old (pos new) t).1
            ≡ (if new == j then (slot t old).file else get (pos j) t))
unfolding dup_into
dup_into_lem old new t n a u b = (
  ground arith,
  λ j. elim (Bool-cases (old == new)) [
    | inl same ↦ let e = (==_iff old new).0 same in ground (arith, get_iff j t, get_iff old t)
    | inr apart ↦
        ground
          (arith, get_iff j t, get_iff j (set t new (slot t old)), slot-set t new j (slot t old))
  ],
)

-- FdDup2 from a descriptor in use to a descriptor in range, on a table of 64 entries, returns
-- the new descriptor, which then gives the file of the old one; every other descriptor gives
-- what it gave before.
dup2_lem :
    (old new : ℕ) (t : Fds)
    → length t ≡ max_fd
    → old < max_fd
    → (slot t old).used ≡ true
    → new < max_fd
    → ((dup2 (pos old) (pos new) t).0 ≡ some new)
      × ((j : ℕ)
          → get (pos j) (dup2 (pos old) (pos new) t).1
            ≡ (if new == j then (slot t old).file else get (pos j) t))
dup2_lem old new t n a u b =
    let e : in_use (pos old) t ≡ some old = ground (arith, in_use_iff old t) in
    let out : dup2 (pos old) (pos new) t ≡ dup_into old (pos new) t = dup2-into old (pos new) t e in
    rw out (dup_into_lem old new t n a u b)
