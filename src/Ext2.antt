-- ===== src/Ext2.antt =====
-- fs/ext2/: the file system, over a block device. The structures of the disk are packed, and are the
-- lists of their bytes, with the offsets of include/kernel/fs/ext2.h. Pointers are not null, and the
-- allocation of buffers is taken to succeed.
pub mod Device
pub mod Blocks
pub mod Balloc
pub mod Inode
pub mod BlockMap
pub mod File
pub mod Truncate
pub mod Partition
pub mod Dir
pub mod Create
pub mod Mounted
mod Memory
mod Runs
mod Tests
use info.Prelude.{
  ℕ, subst, ap₂, zero, suc, ◌+◌, ◌-◌, ◌*◌, ◌/◌, ◌%◌, ◌^◌, ◌≤◌, ◌<◌, min, ◌≡◌, refl, sym, ap, ◌∙◌,
  ◌≢◌, ◌↔◌, ◌⊎◌, inl, inr, Bool, true, false, not, ◌&&◌, ◌||◌, Option, none, some, List, [], ◌∷◌,
  ◌++◌, map, append-nil, append_assoc, arith, add-zero, ltb, leb, ◌==◌, if◌then◌else◌, ltb→lt,
  lt→ltb, leb→le, ==_iff, tests, Bool-cases, Option-cases, length, get_elem?, set, length-append,
  length-set, get_elem?-set_self, get_elem?-set_ne, get_or, take, drop, replicate, take-append-drop,
  length-take, length-drop, length-replicate, length-map, take_all, drop_all, All, All-get_elem?,
  All-set, All-replicate, get_elem?-some, get_or-set_self, get_or-set_ne,
}
use info.Prelude.Words.{put_bytes, slice, word16, word32, put16, put32}
use info.Ext2.Device.{BlockDevice}

-- The state that the calls change: the disk, and the super block in memory.
pub record Fs (D : Type 0) : Type 0 where
  pub disk : D
  pub sb : List ℕ

-- Fields of `Ext2SuperBlock`.
abbrev pub s_inodes_count : List ℕ → ℕ
s_inodes_count = word32 0

abbrev pub s_blocks_count : List ℕ → ℕ
s_blocks_count = word32 4

abbrev pub s_free_blocks_count : List ℕ → ℕ
s_free_blocks_count = word32 12

abbrev pub s_free_inodes_count : List ℕ → ℕ
s_free_inodes_count = word32 16

abbrev pub s_first_data_block : List ℕ → ℕ
s_first_data_block = word32 20

abbrev pub s_log_block_size : List ℕ → ℕ
s_log_block_size = word32 24

abbrev pub s_blocks_per_group : List ℕ → ℕ
s_blocks_per_group = word32 32

abbrev pub s_inodes_per_group : List ℕ → ℕ
s_inodes_per_group = word32 40

abbrev pub s_magic : List ℕ → ℕ
s_magic = word16 56

abbrev pub s_inode_size : List ℕ → ℕ
s_inode_size = word16 88

-- `1024 << sb->s_log_block_size`
unfoldable pub block_size : List ℕ → ℕ
block_size sb = (1024 * 2 ^ s_log_block_size sb) % 2 ^ 32

-- `sectors_per_block`
abbrev pub sectors : List ℕ → ℕ
sectors sb = block_size sb / 512

-- Fields of `Ext2GroupDesc`, and its size.
abbrev pub bg_block_bitmap : List ℕ → ℕ
bg_block_bitmap = word32 0

abbrev pub bg_inode_bitmap : List ℕ → ℕ
bg_inode_bitmap = word32 4

abbrev pub bg_inode_table : List ℕ → ℕ
bg_inode_table = word32 8

abbrev pub bg_free_blocks_count : List ℕ → ℕ
bg_free_blocks_count = word16 12

abbrev pub bg_free_inodes_count : List ℕ → ℕ
bg_free_inodes_count = word16 14

abbrev pub group_desc_size : ℕ
group_desc_size = 32

-- `gd_block`
abbrev pub gd_block : ℕ
gd_block = 2

module _ {D : Type 0} (dev : BlockDevice D) (lba : ℕ) where
  -- `ReadBlock`; `none` is a result other than 0.
  unfoldable pub read_block : ℕ → Fs D → Option (List ℕ)
  read_block block fs = dev.read (lba + block * sectors fs.sb) (sectors fs.sb) fs.disk

  -- `WriteBlock`: whether the result is 0.
  unfoldable pub write_block : ℕ → List ℕ → Fs D → Bool × Fs D
  write_block block buf fs =
      let out = dev.write (lba + block * sectors fs.sb) (sectors fs.sb) buf fs.disk in
      (out.0, record fs { disk = out.1 })

  -- `ReadGroupDesc`. The descriptor of a group that is not in the one block that is read is taken from
  -- behind the buffer.
  unfoldable pub read_group_desc : ℕ → Fs D → Option (List ℕ)
  read_group_desc group fs = elim (read_block gd_block fs) [
    | none ↦ none
    | some buf ↦ some (slice (group * group_desc_size) group_desc_size (buf ++ dev.behind))
  ]

  -- `WriteGroupDesc`. A descriptor that is not in the block goes behind the buffer, to memory that is not
  -- part of the state, and the block is written as it was read.
  unfoldable pub write_group_desc : ℕ → List ℕ → Fs D → Bool × Fs D
  write_group_desc group gd fs = elim (read_block gd_block fs) [
    | none ↦ (false, fs)
    | some buf ↦ write_block gd_block (put_bytes (group * group_desc_size) gd buf) fs
  ]

-- `ReadSuperBlock`: the result, and the super block that it leaves in `sb`. The sum is a word of 32
-- bits.
unfoldable pub read_super_block : {D : Type 0} (dev : BlockDevice D) (lba : ℕ) → Fs D → Bool × Fs D
read_super_block dev lba fs = elim (dev.read ((lba + 2) % 2 ^ 32) 2 fs.disk) [
  | none ↦ (false, fs)
  | some buf ↦ (s_magic (slice 0 1024 buf) == 0xEF53, record fs { sb = slice 0 1024 buf })
]

-- `WriteSuperBlock`, which is not given the start of the partition.
unfoldable pub write_super_block : {D : Type 0} (dev : BlockDevice D) → Fs D → Bool × Fs D
write_super_block dev fs =
    let buf = put_bytes 0 fs.sb (replicate 1024 0) in
    let out = dev.write 2 2 buf fs.disk in (out.0, record fs { disk = out.1 })
