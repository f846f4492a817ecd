-- ===== src/Ext2/Mounted.antt =====
-- fs/ext2/fs.cc: `Ext2Read`, `Ext2Write` and `Ext2Close`, the operations that a mount of ext2 has on
-- an open file. The device and the first sector of the mount are parameters, its super block is in
-- the state.
pub mod Reads
pub mod Writes
mod Tests
use info.Prelude.{
  ℕ, subst, ap₂, zero, suc, ◌+◌, ◌-◌, ◌*◌, ◌/◌, ◌%◌, ◌^◌, ◌≤◌, ◌<◌, min, ◌≡◌, refl, sym, ap, ◌∙◌,
  ◌≢◌, ◌↔◌, ◌⊎◌, inl, inr, Bool, true, false, not, ◌&&◌, ◌||◌, Option, none, some, List, [], ◌∷◌,
  ◌++◌, map, append-nil, append_assoc, arith, add-zero, ltb, leb, ◌==◌, if◌then◌else◌, ltb→lt,
  lt→ltb, leb→le, ==_iff, tests, Bool-cases, Option-cases, length, get_elem?, set, length-append,
  length-set, get_elem?-set_self, get_elem?-set_ne, get_or, take, drop, replicate, take-append-drop,
  length-take, length-drop, length-replicate, length-map, take_all, drop_all, All, All-get_elem?,
  All-set, All-replicate, get_elem?-some, get_or-set_self, get_or-set_ne,
}
use info.Prelude.Int.{ℤ, pos, negsuc}
use info.Vfs.File.{MountOps}
use info.Ext2.Device.{BlockDevice}
use info.Ext2.{Fs}
use info.Ext2.Inode.{write_inode}
use info.Ext2.File.{read_file, write_file}

-- `Ext2FileData`, with the inode in memory.
pub record FileData : Type 0 where
  pub inode_num : ℕ
  pub inode : List ℕ

-- The file system, and what the `private_data` of the open files points to; `none` is a null pointer.
pub record Mounted (D : Type 0) : Type 0 where
  pub fs : Fs D
  pub files : ℕ → Option FileData

module _ {D : Type 0} where
  abbrev pub put_file : ℕ → Option FileData → Mounted D → Mounted D
  put_file p d s = record s { files = λ q. if q == p then d else s.files q }

module _ {D : Type 0} (dev : BlockDevice D) (lba : ℕ) where
  -- `Ext2Read`
  unfoldable pub ext2_read : ℕ → ℕ → ℕ → Mounted D → ℤ × List ℕ
  ext2_read p count offset s = elim (s.files p) [
    | none ↦ (negsuc 1, [])
    | some d ↦ read_file dev lba d.inode count offset s.fs
  ]

  -- The inode in memory is written to the disk if the result of `WriteFile` is above 0.
  unfoldable pub write_back : ℤ → ℕ → List ℕ → Fs D → Fs D
  write_back (pos zero) n inode fs = fs
  write_back (pos (suc k)) n inode fs = (write_inode dev lba n inode fs).1
  write_back (negsuc k) n inode fs = fs

  -- `Ext2Write` once `WriteFile` has returned.
  unfoldable pub ext2_written : ℕ → FileData → ℤ × List ℕ × Fs D → Mounted D → ℤ × Mounted D
  ext2_written p d (result, inode, fs) s = (
    result,
    put_file p (some (record d { inode = inode }))
        (record s { fs = write_back result d.inode_num inode fs }),
  )

  -- `Ext2Write`
  unfoldable pub ext2_write : ℕ → List ℕ → ℕ → Mounted D → ℤ × Mounted D
  ext2_write p bytes offset s = elim (s.files p) [
    | none ↦ (negsuc 1, s)
    | some d ↦ ext2_written p d (write_file dev lba d.inode bytes offset s.fs) s
  ]

  -- `Ext2Close`
  unfoldable pub ext2_close : ℕ → Mounted D → ℤ × Mounted D
  ext2_close p s = (pos 0, put_file p none s)

  -- The operations of the mount.
  abbrev pub ext2_ops : MountOps (Mounted D)
  ext2_ops = record { read = some ext2_read; write = some ext2_write; close = some ext2_close }
