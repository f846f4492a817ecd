-- ===== src/Vfs/Fd.antt =====
-- `FileDescriptorTable` and the calls that work on the table of the current process. A `File *` is
-- a number that names the object; closing it is an effect on the file system, so `free` returns
-- the file that it hands to `vfs::Close`.
pub mod Slots
pub mod Alloc
pub mod Sharing
mod Tests
use info.Prelude.{
  ℕ, zero, suc, ◌+◌, ◌-◌, ◌*◌, ◌/◌, ◌%◌, ◌^◌, ◌≤◌, ◌<◌, min, ◌≡◌, refl, sym, ap, ◌∙◌, ◌≢◌, ◌↔◌, ◌⊎◌,
  inl, inr, Bool, true, false, not, ◌&&◌, ◌||◌, Option, none, some, List, [], ◌∷◌, ◌++◌, map,
  append-nil, append_assoc, arith, add-zero, ltb, leb, ◌==◌, if◌then◌else◌, ltb→lt, lt→ltb, leb→le,
  ==_iff, tests, Bool-cases, Option-cases, length, get_elem?, set, length-append, length-set,
  get_elem?-set_self, get_elem?-set_ne, get_or, take, drop, replicate, take-append-drop,
  length-take, length-drop, length-replicate, length-map, take_all, drop_all, All, All-get_elem?,
  All-set, All-replicate, get_elem?-some,
}
use info.Prelude.Int.{ℤ, pos, negsuc}

-- `MAX_FD`
abbrev pub max_fd : ℕ
max_fd = 64

-- `FileDescriptor`; `none` is a null `file`.
pub record FileDescriptor : Type 0 where
  pub used : Bool
  pub file : Option ℕ
  pub flags : ℕ

abbrev pub Fds : Type 0
Fds = List FileDescriptor

abbrev pub unused : FileDescriptor
unused = record { used = false; file = none; flags = 0 }

-- The entry of a descriptor whose bounds the caller has checked.
abbrev pub slot : Fds → ℕ → FileDescriptor
slot t fd = get_or t fd unused

-- The constructor: descriptors 0 and 1 are in use.
pub fresh : Fds
fresh =
    set (set (replicate max_fd unused) 0 (record unused { used = true })) 1
      (record unused { used = true })

-- The loop of `Alloc` from entry `i` on, with the rounds that it has left.
pub find_free : ℕ → ℕ → Fds → Option ℕ
find_free zero i t = none
find_free (suc rounds) i t =
    let rest = find_free rounds (i + 1) t in if not (slot t i).used then some i else rest

-- `FileDescriptorTable::Alloc`; `none` is -1.
pub alloc : Option ℕ → ℕ → Fds → Option ℕ × Fds
alloc file flags t = elim (find_free (max_fd - 5) 5 t) [
  | none ↦ (none, t)
  | some i ↦ (some i, set t i (record { used = true; file = file; flags = flags }))
]

-- The guard that `Free`, `Get` and `SetFlags` share: the entry that a descriptor names.
pub in_use : ℤ → Fds → Option ℕ
in_use (negsuc n) t = none
in_use (pos fd) t = if leb max_fd fd then none else if not (slot t fd).used then none else some fd

-- `FileDescriptorTable::Free`: whether it succeeds, the file that it closes, and the new table.
pub free : ℤ → Fds → Bool × Option ℕ × Fds
free fd t = elim (in_use fd t) [
  | none ↦ (false, none, t)
  | some i ↦ (true, (slot t i).file, set t i unused)
]

-- `FileDescriptorTable::Get`
pub get : ℤ → Fds → Option ℕ
get fd t = elim (in_use fd t) [ none ↦ none | some i ↦ (slot t i).file ]

-- `FileDescriptorTable::SetFlags`
pub set_flags : ℤ → ℕ → Fds → Bool × Fds
set_flags fd flags t = elim (in_use fd t) [
  | none ↦ (false, t)
  | some i ↦ (true, set t i (record (slot t i) { flags = flags }))
]

-- `FdDup`; `Get` has checked `oldfd` where its flags are read.
pub dup : ℤ → Fds → Option ℕ × Fds
dup (negsuc n) t = (none, t)
dup (pos oldfd) t = elim (get (pos oldfd) t) [
  | none ↦ (none, t)
  | some f ↦ alloc (some f) (slot t oldfd).flags t
]

-- `FdDup2` once `oldfd` has passed its guard.
pub dup_into : ℕ → ℤ → Fds → Option ℕ × Fds
dup_into oldfd (negsuc n) t = (none, t)
dup_into oldfd (pos newfd) t =
    if leb max_fd newfd
    then (none, t)
    else if oldfd == newfd
    then (some newfd, t)
    else (some newfd, set t newfd (slot t oldfd))

-- `FdDup2`
pub dup2 : ℤ → ℤ → Fds → Option ℕ × Fds
dup2 oldfd newfd t = elim (in_use oldfd t) [ none ↦ (none, t) | some i ↦ dup_into i newfd t ]
