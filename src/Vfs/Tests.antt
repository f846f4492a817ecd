-- ===== src/Vfs/Tests.antt =====
-- Paths and mounts at concrete lists.
use info.Prelude.{ℕ, subst, ◌≡◌, refl, sym, ap, ◌∙◌, Option, none, some, List, [], ◌∷◌, arith}
use mathlib.Core.Option.{some-injective}
use info.Prelude.Int.{pos}
use info.Vfs.Path.{MountFs, best_mount, find_mount_point}
use info.Vfs.Path.Longest.{IsLongest, find_mount_point-some}
use info.Vfs.Mounts.{FileSystem, get_file_system, is_mounted, mount, umount}
use info.Vfs.Mounts.Laws.{Distinct, KeepsPath, mount-Distinct, umount-mount}

abbrev root : MountFs
root = record { path = b'/' ∷ []; object = 1 }

abbrev mnt : MountFs
mnt = record { path = b'/' ∷ b'm' ∷ []; object = 2 }

-- "/mx"
abbrev sibling : List ℕ
sibling = b'/' ∷ b'm' ∷ b'x' ∷ []

-- A sibling of the directory "/m" is looked up below the mount at "/m", as "x".
sibling_in_mount : find_mount_point sibling (root ∷ mnt ∷ []) ≡ some mnt
unfolding find_mount_point best_mount
sibling_in_mount = refl

find_mount_point-some_example : IsLongest sibling (root ∷ mnt ∷ []) mnt
find_mount_point-some_example = find_mount_point-some sibling (root ∷ mnt ∷ []) mnt sibling_in_mount

-- The example's mount has an empty path, which nothing chooses.
abbrev nameless : MountFs
nameless = record { path = []; object = 3 }

make : List ℕ → List ℕ → ℕ → Option MountFs
make device path flags = some (record { path = path; object = 7 })

abbrev ext2 : FileSystem
ext2 = record { name = b'e' ∷ []; mount = some make }

abbrev fat : FileSystem
fat = record { name = b'f' ∷ []; mount = none }

ext2-KeepsPath : KeepsPath ext2
unfolding make
ext2-KeepsPath other h device path flags m short r =
    let here : MountFs = record { path = path; object = 7 } in
    let made : some here ≡ some m =
      ap (λ (f : List ℕ → List ℕ → ℕ → Option MountFs). f device path flags)
        (some-injective make other h)
      ∙ r in
    sym (ap (λ (x : MountFs). x.path) (some-injective here m made))

keeps : (fs : FileSystem) → get_file_system (b'e' ∷ []) (ext2 ∷ []) ≡ some fs → KeepsPath fs
unfolding get_file_system
keeps fs e = subst KeepsPath (some-injective ext2 fs e) ext2-KeepsPath

root-Distinct : Distinct (root ∷ [])
unfolding is_mounted
root-Distinct = (refl, tt)

mount-Distinct_example : Distinct (mount [] mnt.path (b'e' ∷ []) 0 (ext2 ∷ []) (root ∷ [])).1
mount-Distinct_example =
    mount-Distinct [] mnt.path (b'e' ∷ []) 0 (ext2 ∷ []) (root ∷ []) keeps (omega arith)
      root-Distinct

mount_ok : (mount [] mnt.path (b'e' ∷ []) 0 (ext2 ∷ []) (root ∷ [])).0 ≡ pos 0
unfolding mount get_file_system make is_mounted
mount_ok = refl

umount-mount_example :
    (m : MountFs) × (umount mnt.path (mount [] mnt.path (b'e' ∷ []) 0 (ext2 ∷ []) (root ∷ [])).1
      ≡ (pos 0, some m, root ∷ []))
umount-mount_example =
    umount-mount [] mnt.path (b'e' ∷ []) 0 (ext2 ∷ []) (root ∷ []) keeps (omega arith) mount_ok
