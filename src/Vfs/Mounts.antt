-- ===== src/Vfs/Mounts.antt =====
-- `RegisterFileSystem`, `GetFileSystem`, `Mount` and `Umount`: the two global lists of fs/vfs.cc,
-- newest first. What a file system's `mount` makes of its arguments is that file system's.
pub mod Laws
use info.Prelude.{
  ℕ, subst, ap₂, zero, suc, ◌+◌, ◌-◌, ◌*◌, ◌/◌, ◌%◌, ◌^◌, ◌≤◌, ◌<◌, min, ◌≡◌, refl, sym, ap, ◌∙◌,
  ◌≢◌, ◌↔◌, ◌⊎◌, inl, inr, Bool, true, false, not, ◌&&◌, ◌||◌, Option, none, some, List, [], ◌∷◌,
  ◌++◌, map, append-nil, append_assoc, arith, add-zero, ltb, leb, ◌==◌, if◌then◌else◌, ltb→lt,
  lt→ltb, leb→le, ==_iff, tests, Bool-cases, Option-cases, length, get_elem?, set, length-append,
  length-set, get_elem?-set_self, get_elem?-set_ne, get_or, take, drop, replicate, take-append-drop,
  length-take, length-drop, length-replicate, length-map, take_all, drop_all, All, All-get_elem?,
  All-set, All-replicate, get_elem?-some,
}
use info.Prelude.Int.{ℤ, pos, negsuc}
use info.Prelude.Bytes.{bytes_eq}
use info.Vfs.Path.{MountFs}

-- `FileSystem`: its name, and its `mount` unless that is a null pointer. The arguments of `mount`
-- are the device, the path and the flags.
pub record FileSystem : Type 0 where
  pub name : List ℕ
  pub mount : Option (List ℕ → List ℕ → ℕ → Option MountFs)

-- How `RegisterFileSystem` ends; `fault` is a read through a null pointer.
pub data Registered : Type 0 where
  refused : ℤ → Registered
  fault : Registered
  done : List FileSystem → Registered

-- The loop of `RegisterFileSystem`, whose condition is on the head of the list and never changes, at
-- `current`.
pub search_name : List ℕ → List FileSystem → Registered
search_name name [] = fault
search_name name (current ∷ rest) =
    let next = search_name name rest in
    if bytes_eq current.name name then refused (negsuc 1) else next

-- `RegisterFileSystem`, for a pointer that is not null.
unfoldable pub register : FileSystem → List FileSystem → Registered
register fs [] = if length fs.name == 0 then refused (negsuc 0) else done (fs ∷ [])
register fs (x ∷ registered) =
    if length fs.name == 0 then refused (negsuc 0) else search_name fs.name (x ∷ registered)

-- `GetFileSystem`
unfoldable pub get_file_system : List ℕ → List FileSystem → Option FileSystem
get_file_system name [] = none
get_file_system name (current ∷ rest) =
    let next = get_file_system name rest in
    if bytes_eq current.name name then some current else next

-- The loop of `Mount` that looks for the path.
unfoldable pub is_mounted : List ℕ → List MountFs → Bool
is_mounted path [] = false
is_mounted path (current ∷ rest) = bytes_eq current.path path || is_mounted path rest

-- `Mount`, for pointers that are not null: its result and the new list.
unfoldable pub mount :
    List ℕ → List ℕ → List ℕ → ℕ → List FileSystem → List MountFs → ℤ × List MountFs
mount device path fs_type flags registered ms = elim (get_file_system fs_type registered) [
  | none ↦ (negsuc 1, ms)
  | some fs ↦ elim fs.mount [
    | none ↦ (negsuc 1, ms)
    | some make ↦
        if is_mounted path ms
        then (negsuc 2, ms)
        else elim (make device path flags) [ none ↦ (negsuc 3, ms) | some m ↦ (pos 0, m ∷ ms) ]
  ]
]

-- The unlinking of `Umount`: the mount that is taken out, and the list without it.
pub unlink : List ℕ → List MountFs → Option MountFs × List MountFs
unlink path [] = (none, [])
unlink path (m ∷ ms) =
    let rest = unlink path ms in if bytes_eq m.path path then (some m, ms) else (rest.0, m ∷ rest.1)

-- `Umount`: its result, the mount whose `umount` is called, and the new list.
unfoldable pub umount : List ℕ → List MountFs → ℤ × Option MountFs × List MountFs
umount path ms = elim (unlink path ms).0 [
  | none ↦ (negsuc 1, none, ms)
  | some m ↦ (pos 0, some m, (unlink path ms).1)
]
