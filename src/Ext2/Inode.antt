-- ===== src/Ext2/Inode.antt =====
-- fs/ext2/inode.cc: inodes in the table of their group.
pub mod Table
use info.Prelude.{
  ℕ, subst, ap₂, zero, suc, ◌+◌, ◌-◌, ◌*◌, ◌/◌, ◌%◌, ◌^◌, ◌≤◌, ◌<◌, min, ◌≡◌, refl, sym, ap, ◌∙◌,
  ◌≢◌, ◌↔◌, ◌⊎◌, inl, inr, Bool, true, false, not, ◌&&◌, ◌||◌, Option, none, some, List, [], ◌∷◌,
  ◌++◌, map, append-nil, append_assoc, arith, add-zero, ltb, leb, ◌==◌, if◌then◌else◌, ltb→lt,
  lt→ltb, leb→le, ==_iff, tests, Bool-cases, Option-cases, length, get_elem?, set, length-append,
  length-set, get_elem?-set_self, get_elem?-set_ne, get_or, take, drop, replicate, take-append-drop,
  length-take, length-drop, length-replicate, length-map, take_all, drop_all, All, All-get_elem?,
  All-set, All-replicate, get_elem?-some, get_or-set_self, get_or-set_ne,
}
use info.Prelude.Words.{put_bytes, slice, word16, word32, put32}
use info.Ext2.Device.{BlockDevice}
use info.Ext2.{
  Fs, block_size, s_inodes_per_group, s_inode_size, bg_inode_table, read_block, write_block,
  read_group_desc,
}

-- Fields of `Ext2Inode`, and its size.
abbrev pub i_mode : List ℕ → ℕ
i_mode = word16 0

abbrev pub i_size : List ℕ → ℕ
i_size = word32 4

abbrev pub set_i_size : ℕ → List ℕ → List ℕ
set_i_size = put32 4

abbrev pub set_i_blocks : ℕ → List ℕ → List ℕ
set_i_blocks = put32 28

abbrev pub i_block : ℕ → List ℕ → ℕ
i_block k = word32 (40 + 4 * k)

abbrev pub set_i_block : ℕ → ℕ → List ℕ → List ℕ
set_i_block k = put32 (40 + 4 * k)

abbrev pub inode_bytes : ℕ
inode_bytes = 128

-- `inode->i_mode & EXT2_S_IFDIR`
abbrev pub is_directory : List ℕ → Bool
is_directory inode = i_mode inode / 0x4000 % 2 == 1

-- `inodes_per_block`. A division by 0 traps: what is defined here by a quotient is the code's where
-- the super block has no such divisor, `Divides`.
abbrev pub inodes_per_block : List ℕ → ℕ
inodes_per_block sb = block_size sb / s_inode_size sb

-- No call on inodes divides by 0.
pub record Divides (sb : List ℕ) : Type 0 where
  pub size_there : s_inode_size sb ≢ 0
  pub in_block_there : inodes_per_block sb ≢ 0
  pub in_group_there : s_inodes_per_group sb ≢ 0

-- Of the inode `n + 1`: its group, its block in the table of the group, and its place in the block.
abbrev pub inode_group : ℕ → List ℕ → ℕ
inode_group n sb = n / s_inodes_per_group sb

abbrev pub inode_block : ℕ → List ℕ → List ℕ → ℕ
inode_block n gd sb = (bg_inode_table gd + n % s_inodes_per_group sb / inodes_per_block sb) % 2 ^ 32

abbrev pub inode_offset : ℕ → List ℕ → ℕ
inode_offset n sb = n % s_inodes_per_group sb % inodes_per_block sb * s_inode_size sb

module _ {D : Type 0} (dev : BlockDevice D) (lba : ℕ) where
  -- `Inode2Block`; the code takes 1 from the number of an inode that is not 0.
  unfoldable pub inode2block : ℕ → Fs D → ℕ
  inode2block n fs = elim (read_group_desc dev lba (inode_group n fs.sb) fs) [
    | none ↦ 0
    | some gd ↦ inode_block n gd fs.sb
  ]

  -- `ReadInode`; `none` is a result other than 0.
  unfoldable pub read_inode : ℕ → Fs D → Option (List ℕ)
  read_inode zero fs = none
  read_inode (suc n) fs = elim (read_group_desc dev lba (inode_group n fs.sb) fs) [
    | none ↦ none
    | some gd ↦ elim (read_block dev lba (inode_block n gd fs.sb) fs) [
      | none ↦ none
      | some buf ↦ some (slice (inode_offset n fs.sb) inode_bytes buf)
    ]
  ]

  -- `WriteInode`: whether the result is 0.
  unfoldable pub write_inode : ℕ → List ℕ → Fs D → Bool × Fs D
  write_inode zero inode fs = (false, fs)
  write_inode (suc n) inode fs = elim (read_group_desc dev lba (inode_group n fs.sb) fs) [
    | none ↦ (false, fs)
    | some gd ↦ elim (read_block dev lba (inode_block n gd fs.sb) fs) [
      | none ↦ (false, fs)
      | some buf ↦
          write_block dev lba (inode_block n gd fs.sb) (put_bytes (inode_offset n fs.sb) inode buf)
            fs
    ]
  ]
