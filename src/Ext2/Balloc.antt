-- ===== src/Ext2/Balloc.antt =====
-- fs/ext2/balloc.cc: blocks and inodes, marked in the bitmap of their group.
pub mod Search
pub mod Take
pub mod Alloc
use info.Prelude.{
  ◌++◌, ℕ, zero, suc, ◌+◌, ◌-◌, ◌*◌, ◌/◌, ◌%◌, ◌^◌, not, ◌&&◌, Option, none, some, List, ltb, ◌==◌,
  if◌then◌else◌, replicate,
}
use info.Prelude.Bits.{marked, mark, unmark}
use info.Prelude.Words.{put16, put32}
use info.Ext2.Device.{BlockDevice}
use info.Ext2.{
  Fs, s_inodes_count, s_blocks_count, s_free_blocks_count, s_free_inodes_count, s_first_data_block,
  s_blocks_per_group, s_inodes_per_group, block_size, bg_block_bitmap, bg_inode_bitmap,
  bg_free_blocks_count, bg_free_inodes_count, read_block, write_block, read_group_desc,
  write_group_desc, write_super_block,
}

-- `x - 1` and `x + 1` on words of 16 and of 32 bits.
abbrev pub dec16 : ℕ → ℕ
dec16 x = (x + 2 ^ 16 - 1) % 2 ^ 16

abbrev pub inc16 : ℕ → ℕ
inc16 x = (x + 1) % 2 ^ 16

abbrev pub dec32 : ℕ → ℕ
dec32 x = (x + 2 ^ 32 - 1) % 2 ^ 32

abbrev pub inc32 : ℕ → ℕ
inc32 x = (x + 1) % 2 ^ 32

-- The number of groups that hold `count` things, `per_group` in each; with none in each the code traps,
-- which is not part of the model.
abbrev pub group_count : ℕ → ℕ → ℕ
group_count count per_group = (count + per_group + 2 ^ 32 - 1) % 2 ^ 32 / per_group

-- The loop of `AllocBlock` over a bitmap and what lies behind it in memory, from bit `i` on.
unfoldable pub free_bit : ℕ → ℕ → List ℕ → Option ℕ
free_bit zero i bitmap = none
free_bit (suc rounds) i bitmap =
    let rest = free_bit rounds (i + 1) bitmap in if not (marked bitmap i) then some i else rest

-- The loop of `AllocInode` over a bitmap, which skips the number below that of the root.
unfoldable pub free_inode_bit : ℕ → ℕ → ℕ → List ℕ → Option ℕ
free_inode_bit zero first i bitmap = none
free_inode_bit (suc rounds) first i bitmap =
    let rest = free_inode_bit rounds first (i + 1) bitmap in
    if not (marked bitmap i) && not (ltb ((first + i + 1) % 2 ^ 32) 2) then some i else rest

-- The fields of a group descriptor and of the super block that count what is free.
abbrev pub set_free_blocks : ℕ → List ℕ → List ℕ
set_free_blocks = put16 12

abbrev pub set_free_inodes : ℕ → List ℕ → List ℕ
set_free_inodes = put16 14

abbrev pub set_sb_free_blocks : ℕ → List ℕ → List ℕ
set_sb_free_blocks = put32 12

abbrev pub set_sb_free_inodes : ℕ → List ℕ → List ℕ
set_sb_free_inodes = put32 16

-- The bit at which `AllocBlock` starts in a group; the product does not wrap, as it is below the
-- number of blocks.
abbrev pub first_bit : ℕ → List ℕ → ℕ
first_bit group sb =
    if ltb (group * s_blocks_per_group sb) (s_first_data_block sb)
    then s_first_data_block sb - group * s_blocks_per_group sb
    else 0

module _ {D : Type 0} (dev : BlockDevice D) (lba : ℕ) where
  -- The end of a change to a group: its descriptor and the super block are written.
  unfoldable pub write_counts : ℕ → List ℕ → List ℕ → Fs D → Fs D
  write_counts group gd sb fs =
      (write_super_block dev (write_group_desc dev lba group gd (record fs { sb = sb })).1).1

  -- `AllocBlock` once it has found bit `i` clear. A bit behind the bitmap is set in memory that is not
  -- written to the disk.
  unfoldable pub take_block : ℕ → List ℕ → List ℕ → ℕ → Fs D → ℕ × Fs D
  take_block group gd bitmap i fs =
      let out = write_block dev lba (bg_block_bitmap gd) (mark bitmap i) fs in
      let counted =
        write_counts group (set_free_blocks (dec16 (bg_free_blocks_count gd)) gd)
          (set_sb_free_blocks (dec32 (s_free_blocks_count fs.sb)) fs.sb) out.1 in
      let block : ℕ = (group * s_blocks_per_group fs.sb + i) % 2 ^ 32 in
      if out.0
      then (block, (write_block dev lba block (replicate (block_size fs.sb) 0) counted).1)
      else (0, out.1)

  -- The search of `AllocBlock` in the bitmap that was read.
  unfoldable pub search_block : ℕ → List ℕ → List ℕ → Fs D → Option (ℕ × Fs D)
  search_block group gd bitmap fs =
      let first : ℕ = first_bit group fs.sb in
      elim (free_bit (s_blocks_per_group fs.sb - first) first (bitmap ++ dev.behind)) [
        | none ↦ none
        | some i ↦ some (take_block group gd bitmap i fs)
      ]

  -- A round of the loop of `AllocBlock`; `none` goes on to the next group.
  unfoldable pub alloc_block_in : ℕ → Fs D → Option (ℕ × Fs D)
  alloc_block_in group fs = elim (read_group_desc dev lba group fs) [
    | none ↦ none
    | some gd ↦
        if bg_free_blocks_count gd == 0
        then none
        else elim (read_block dev lba (bg_block_bitmap gd) fs) [
          | none ↦ none
          | some bitmap ↦ search_block group gd bitmap fs
        ]
  ]

  -- The loop of `AllocBlock` from a group on, with the groups that are left.
  unfoldable pub alloc_block_from : ℕ → ℕ → Fs D → ℕ × Fs D
  alloc_block_from zero group fs = (0, fs)
  alloc_block_from (suc left) group fs =
      let rest = alloc_block_from left (group + 1) fs in
      elim (alloc_block_in group fs) [ none ↦ rest | some out ↦ out ]

  -- `AllocBlock`; 0 is no block.
  unfoldable pub alloc_block : Fs D → ℕ × Fs D
  alloc_block fs =
      alloc_block_from (group_count (s_blocks_count fs.sb) (s_blocks_per_group fs.sb)) 0 fs

  -- The end of `FreeBlock`, on the descriptor and the bitmap that were read.
  unfoldable pub clear_block : ℕ → List ℕ → List ℕ → ℕ → Fs D → Fs D
  clear_block group gd bitmap i fs =
      if marked (bitmap ++ dev.behind) i
      then write_counts group (set_free_blocks (inc16 (bg_free_blocks_count gd)) gd)
          (set_sb_free_blocks (inc32 (s_free_blocks_count fs.sb)) fs.sb)
          (write_block dev lba (bg_block_bitmap gd) (unmark bitmap i) fs).1
      else fs

  -- `FreeBlock`
  unfoldable pub free_block : ℕ → Fs D → Fs D
  free_block block fs =
      if block == 0
      then fs
      else elim (read_group_desc dev lba (block / s_blocks_per_group fs.sb) fs) [
        | none ↦ fs
        | some gd ↦ elim (read_block dev lba (bg_block_bitmap gd) fs) [
          | none ↦ fs
          | some bitmap ↦
              clear_block (block / s_blocks_per_group fs.sb) gd bitmap
                (block % s_blocks_per_group fs.sb) fs
        ]
      ]

  -- `AllocInode` once it has found bit `i`.
  unfoldable pub take_inode : ℕ → List ℕ → List ℕ → ℕ → Fs D → ℕ × Fs D
  take_inode group gd bitmap i fs =
      let out = write_block dev lba (bg_inode_bitmap gd) (mark bitmap i) fs in
      if out.0
      then (
        (group * s_inodes_per_group fs.sb + i + 1) % 2 ^ 32,
        write_counts group (set_free_inodes (dec16 (bg_free_inodes_count gd)) gd)
            (set_sb_free_inodes (dec32 (s_free_inodes_count fs.sb)) fs.sb) out.1,
      )
      else (0, out.1)

  -- A round of the loop of `AllocInode`.
  unfoldable pub alloc_inode_in : ℕ → Fs D → Option (ℕ × Fs D)
  alloc_inode_in group fs = elim (read_group_desc dev lba group fs) [
    | none ↦ none
    | some gd ↦
        if bg_free_inodes_count gd == 0
        then none
        else elim (read_block dev lba (bg_inode_bitmap gd) fs) [
          | none ↦ none
          | some bitmap ↦
              elim (free_inode_bit (s_inodes_per_group fs.sb) (group * s_inodes_per_group fs.sb) 0
                (bitmap ++ dev.behind)) [
                  | none ↦ none
                  | some i ↦ some (take_inode group gd bitmap i fs)
                ]
        ]
  ]

  unfoldable pub alloc_inode_from : ℕ → ℕ → Fs D → ℕ × Fs D
  alloc_inode_from zero group fs = (0, fs)
  alloc_inode_from (suc left) group fs =
      let rest = alloc_inode_from left (group + 1) fs in
      elim (alloc_inode_in group fs) [ none ↦ rest | some out ↦ out ]

  -- `AllocInode`
  unfoldable pub alloc_inode : Fs D → ℕ × Fs D
  alloc_inode fs =
      alloc_inode_from (group_count (s_inodes_count fs.sb) (s_inodes_per_group fs.sb)) 0 fs

  -- The end of `FreeInode`.
  unfoldable pub clear_inode : ℕ → List ℕ → List ℕ → ℕ → Fs D → Fs D
  clear_inode group gd bitmap i fs =
      if marked (bitmap ++ dev.behind) i
      then write_counts group (set_free_inodes (inc16 (bg_free_inodes_count gd)) gd)
          (set_sb_free_inodes (inc32 (s_free_inodes_count fs.sb)) fs.sb)
          (write_block dev lba (bg_inode_bitmap gd) (unmark bitmap i) fs).1
      else fs

  -- `FreeInode`
  unfoldable pub free_inode : ℕ → Fs D → Fs D
  free_inode zero fs = fs
  free_inode (suc n) fs = elim (read_group_desc dev lba (n / s_inodes_per_group fs.sb) fs) [
    | none ↦ fs
    | some gd ↦ elim (read_block dev lba (bg_inode_bitmap gd) fs) [
      | none ↦ fs
      | some bitmap ↦
          clear_inode (n / s_inodes_per_group fs.sb) gd bitmap (n % s_inodes_per_group fs.sb) fs
    ]
  ]
