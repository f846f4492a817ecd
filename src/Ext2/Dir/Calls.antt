-- ===== src/Ext2/Dir/Calls.antt =====
-- `FindEntry`, `AddEntry`, `RemoveEntry` and `Readdir`: the loops over the blocks of a directory.
use info.Prelude.{
  ◌++◌, ℕ, zero, suc, ◌+◌, ◌-◌, ◌/◌, ◌%◌, ◌^◌, Bool, not, Option, none, some, List, ltb, ◌==◌,
  if◌then◌else◌, length, replicate,
}
use info.Prelude.Int.{ℤ, pos, negsuc}
use info.Prelude.Words.{slice}
use info.Ext2.Device.{BlockDevice}
use info.Ext2.{Fs, block_size, read_block, write_block}
use info.Ext2.Balloc.{alloc_block}
use info.Ext2.BlockMap.{get_block_num, set_block_num}
use info.Ext2.File.{block_to_write}
use info.Ext2.Inode.{i_size, set_i_size, is_directory, read_inode}
use info.Ext2.Dir.{
  Scan, hit, miss, endless, find_in, add_in, remove_in, put_entry, DirEntry, read_in,
}

-- `block_count`
abbrev pub block_count : List ℕ → List ℕ → ℕ
block_count inode sb = (i_size inode + block_size sb + 2 ^ 32 - 1) % 2 ^ 32 / block_size sb

-- The size of an `Ext2DirEntry`.
abbrev pub dir_entry_size : ℕ
dir_entry_size = 264

-- How a call that changes a directory ends: its result and the inode in memory, or never.
pub data Changed (D : Type 0) : Type 0 where
  ended : ℤ → List ℕ → Fs D → Changed D
  hangs : Changed D

module _ {D : Type 0} (dev : BlockDevice D) (lba : ℕ) where
  -- Block `i` of a directory, if there is one that can be read.
  unfoldable pub dir_block : ℕ → List ℕ → Fs D → Option (List ℕ)
  dir_block i inode fs =
      let block : ℕ = get_block_num dev lba inode i fs in
      if block == 0 then none else read_block dev lba block fs

  -- The loop of `FindEntry`, from block `i` on: the bytes of the entry, which a block whose entries do not
  -- fill it can have behind its end.
  unfoldable pub find_from : ℕ → ℕ → List ℕ → List ℕ → Fs D → Scan (List ℕ)
  find_from zero i name inode fs = miss
  find_from (suc left) i name inode fs =
      let rest = find_from left (i + 1) name inode fs in
      elim (dir_block i inode fs) [
        | none ↦ rest
        | some buf ↦
            elim (find_in (block_size fs.sb) (block_size fs.sb) name 0 (buf ++ dev.behind)) [
              | hit at ↦ hit (slice at dir_entry_size (buf ++ dev.behind))
              | miss ↦ rest
              | endless ↦ endless
            ]
      ]

  -- `FindEntry`; `miss` is a result other than 0.
  unfoldable pub find_entry : List ℕ → List ℕ → Fs D → Scan (List ℕ)
  find_entry inode name fs =
      if is_directory inode then find_from (block_count inode fs.sb) 0 name inode fs else miss

  -- The block that a change is written to.
  unfoldable pub write_change : ℕ → List ℕ → ℤ → List ℕ → Fs D → Changed D
  write_change block buf failed inode fs =
      let out = write_block dev lba block buf fs in
      ended (if out.0 then pos 0 else failed) inode out.1

  -- The end of `AddEntry`, where no block has room: a new block.
  unfoldable pub append_block : ℕ → ℕ → ℕ → List ℕ → List ℕ → Fs D → Changed D
  append_block blocks num file_type name inode fs =
      let fresh = alloc_block dev lba fs in
      let entered = set_block_num dev lba blocks fresh.0 inode fresh.1 in
      let size : ℕ = block_size fs.sb in
      let buf = put_entry 0 num (size % 2 ^ 16) file_type name (replicate size 0) in
      let out = write_block dev lba fresh.0 buf entered.2 in
      if fresh.0 == 0
      then ended (negsuc 4) inode fresh.1
      else if out.0
      then ended (pos 0) (set_i_size ((i_size entered.1 + size) % 2 ^ 32) entered.1) out.1
      else ended (negsuc 5) entered.1 out.1

  -- The loop of `AddEntry`, from block `i` of `blocks` on. A block that is missing is made, and is
  -- zero.
  unfoldable pub add_from : ℕ → ℕ → ℕ → ℕ → ℕ → List ℕ → List ℕ → Fs D → Changed D
  add_from zero i blocks num file_type name inode fs =
      append_block blocks num file_type name inode fs
  add_from (suc left) i blocks num file_type name inode fs =
      let size : ℕ = block_size fs.sb in
      let is_hole : Bool = get_block_num dev lba inode i fs == 0 in
      let found = block_to_write dev lba i inode fs in
      let rest = add_from left (i + 1) blocks num file_type name found.1 found.2 in
      elim found.0 [
        | none ↦ ended (negsuc 4) found.1 found.2
        | some block ↦
            elim (if is_hole then some (replicate size 0) else read_block dev lba block found.2) [
              | none ↦ rest
              | some buf ↦ elim (add_in size size num file_type name 0 buf) [
                | hit new ↦ write_change block new (negsuc 5) found.1 found.2
                | miss ↦ rest
                | endless ↦ hangs
              ]
            ]
      ]

  -- `AddEntry`
  unfoldable pub add_entry : List ℕ → ℕ → List ℕ → ℕ → Fs D → Changed D
  add_entry inode num name file_type fs =
      let blocks : ℕ = block_count inode fs.sb in
      if not (is_directory inode)
      then ended (negsuc 1) inode fs
      else if ltb 255 (length name)
      then ended (negsuc 2) inode fs
      else add_from blocks 0 blocks num file_type name inode fs

  -- The loop of `RemoveEntry`, from block `i` on.
  unfoldable pub remove_from : ℕ → ℕ → List ℕ → List ℕ → Fs D → Changed D
  remove_from zero i name inode fs = ended (negsuc 4) inode fs
  remove_from (suc left) i name inode fs =
      let rest = remove_from left (i + 1) name inode fs in
      elim (dir_block i inode fs) [
        | none ↦ rest
        | some buf ↦ elim (remove_in (block_size fs.sb) (block_size fs.sb) name none 0 buf) [
          | hit new ↦ write_change (get_block_num dev lba inode i fs) new (negsuc 3) inode fs
          | miss ↦ rest
          | endless ↦ hangs
        ]
      ]

  -- `RemoveEntry`
  unfoldable pub remove_entry : List ℕ → List ℕ → Fs D → Changed D
  remove_entry inode name fs =
      if is_directory inode
      then remove_from (block_count inode fs.sb) 0 name inode fs
      else ended (negsuc 1) inode fs

  -- The loop of `Readdir`, from block `i` on.
  unfoldable pub read_from : ℕ → ℕ → ℕ → List ℕ → Fs D → Scan DirEntry
  read_from zero i index inode fs = miss
  read_from (suc left) i index inode fs = elim (dir_block i inode fs) [
    | none ↦ read_from left (i + 1) index inode fs
    | some buf ↦
        let out = read_in (block_size fs.sb) (block_size fs.sb) index 0 (buf ++ dev.behind) in
        elim out.0 [
          | hit e ↦ hit e
          | miss ↦ read_from left (i + 1) out.1 inode fs
          | endless ↦ endless
        ]
  ]

  -- `Readdir`; `miss` is a null pointer.
  unfoldable pub readdir : ℕ → ℕ → Fs D → Scan DirEntry
  readdir inode_num index fs = elim (read_inode dev lba inode_num fs) [
    | none ↦ miss
    | some inode ↦
        if is_directory inode then read_from (block_count inode fs.sb) 0 index inode fs else miss
  ]
