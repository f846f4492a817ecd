-- ===== src/Vfs/Path.antt =====
-- `FindMountPoint` and `ExtractRelativePath`: which mount a path belongs to, and what is left of it.
-- A path is its bytes without the terminator.
pub mod Longest
pub mod Relative
use info.Prelude.{
  ℕ, zero, suc, ◌+◌, ◌-◌, ◌*◌, ◌/◌, ◌%◌, ◌^◌, ◌≤◌, ◌<◌, min, ◌≡◌, refl, sym, ap, ◌∙◌, ◌≢◌, ◌↔◌, ◌⊎◌,
  inl, inr, Bool, true, false, not, ◌&&◌, ◌||◌, Option, none, some, List, [], ◌∷◌, ◌++◌, map,
  append-nil, append_assoc, arith, add-zero, ltb, leb, ◌==◌, if◌then◌else◌, ltb→lt, lt→ltb, leb→le,
  ==_iff, tests, Bool-cases, Option-cases, length, get_elem?, set, length-append, length-set,
  get_elem?-set_self, get_elem?-set_ne, get_or, take, drop, replicate, take-append-drop,
  length-take, length-drop, length-replicate, length-map, take_all, drop_all, All, All-get_elem?,
  All-set, All-replicate, get_elem?-some,
}
use info.Prelude.Bytes.{bytes_eq, is_prefix}

-- `MountFs`: its path, and the object that it is.
pub record MountFs : Type 0 where
  pub path : List ℕ
  pub object : ℕ

-- The loop of `FindMountPoint`, with `best_match` and `best_len`.
unfoldable pub best_mount : List ℕ → List MountFs → Option MountFs → ℕ → Option MountFs
best_mount path [] best best_len = best
best_mount path (m ∷ ms) best best_len =
    let mount_len = length m.path in
    let better = is_prefix m.path path && ltb best_len mount_len in
    best_mount path ms (if better then some m else best) (if better then mount_len else best_len)

-- `FindMountPoint`
unfoldable pub find_mount_point : List ℕ → List MountFs → Option MountFs
find_mount_point [] ms = none
find_mount_point (c ∷ path) ms = if c == b'/' then best_mount (c ∷ path) ms none 0 else none

-- `if (*rel == '/') rel++;`
pub skip_slash : List ℕ → List ℕ
skip_slash [] = []
skip_slash (c ∷ rel) = if c == b'/' then rel else c ∷ rel

-- The rest of a path in a buffer of `size` bytes, cut off to leave room for the terminator.
pub copy_path : List ℕ → ℕ → List ℕ
copy_path [] size = b'/' ∷ []
copy_path (c ∷ rel) size = take (size - 1) (c ∷ rel)

-- `ExtractRelativePath`: what it leaves in `rel_path`.
pub extract_relative_path : MountFs → List ℕ → ℕ → List ℕ
extract_relative_path m full size =
    if bytes_eq m.path (b'/' ∷ []) && length full == 1
    then b'/' ∷ []
    else copy_path (skip_slash (drop (length m.path) full)) size
