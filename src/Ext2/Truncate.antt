-- ===== src/Ext2/Truncate.antt =====
-- `TruncateInode` of fs/ext2/inode.cc, and `Truncate` of fs/ext2/lseek.cc.
use info.Prelude.{
  ℕ, zero, suc, ◌+◌, ◌-◌, ◌*◌, ◌/◌, ◌%◌, ◌^◌, not, ◌&&◌, none, some, List, ltb, ◌==◌, if◌then◌else◌,
}
use info.Prelude.Int.{ℤ, pos, negsuc}
use info.Prelude.Words.{word32}
use info.Ext2.Device.{BlockDevice}
use info.Ext2.{Fs, block_size, read_block}
use info.Ext2.Balloc.{free_block}
use info.Ext2.BlockMap.{ptrs_per_block, get_block_num, set_block_num}
use info.Ext2.Inode.{
  i_size, set_i_size, set_i_blocks, i_block, set_i_block, read_inode, write_inode,
}

-- The number of blocks that a file of a size has.
abbrev pub file_blocks : ℕ → List ℕ → ℕ
file_blocks size sb = (size + block_size sb - 1) / block_size sb % 2 ^ 32

module _ {D : Type 0} (dev : BlockDevice D) (lba : ℕ) where
  -- The loop of `TruncateInode` over the direct blocks.
  unfoldable pub free_direct : ℕ → ℕ → ℕ → List ℕ → Fs D → List ℕ × Fs D
  free_direct zero i blocks inode fs = (inode, fs)
  free_direct (suc rounds) i blocks inode fs =
      let freed =
        free_direct rounds (i + 1) blocks (set_i_block i 0 inode)
          (free_block dev lba (i_block i inode) fs) in
      let kept = free_direct rounds (i + 1) blocks inode fs in
      if ltb i blocks && not (i_block i inode == 0) then freed else kept

  -- The loop over a block of pointers to data, whose first entry is block `base` of the file.
  unfoldable pub free_entries : ℕ → ℕ → ℕ → ℕ → List ℕ → Fs D → Fs D
  free_entries zero i base blocks buf fs = fs
  free_entries (suc rounds) i base blocks buf fs =
      let freed =
        free_entries rounds (i + 1) base blocks buf (free_block dev lba (word32 (4 * i) buf) fs) in
      let kept = free_entries rounds (i + 1) base blocks buf fs in
      if ltb ((base + i) % 2 ^ 32) blocks && not (word32 (4 * i) buf == 0) then freed else kept

  -- A block of pointers to data, if it can be read, and then the block itself.
  unfoldable pub free_single : ℕ → ℕ → ℕ → Fs D → Fs D
  free_single base blocks b fs = free_block dev lba b (elim (read_block dev lba b fs) [
    | none ↦ fs
    | some buf ↦ free_entries (ptrs_per_block fs.sb) 0 base blocks buf fs
  ])

  -- The loop over a block of pointers to such blocks.
  unfoldable pub free_singles : ℕ → ℕ → ℕ → List ℕ → Fs D → Fs D
  free_singles zero i blocks buf fs = fs
  free_singles (suc rounds) i blocks buf fs =
      let p : ℕ = ptrs_per_block fs.sb in
      let freed =
        free_singles rounds (i + 1) blocks buf
          (free_single (12 + p + i * p) blocks (word32 (4 * i) buf) fs) in
      let kept = free_singles rounds (i + 1) blocks buf fs in
      if not (word32 (4 * i) buf == 0) then freed else kept

  -- The branch of the indirect block, of the double and of the triple indirect block.
  unfoldable pub truncate_single : ℕ → List ℕ × Fs D → List ℕ × Fs D
  truncate_single blocks (inode, fs) =
      if i_block 12 inode == 0
      then (inode, fs)
      else (set_i_block 12 0 inode, free_single 12 blocks (i_block 12 inode) fs)

  unfoldable pub truncate_double : ℕ → List ℕ × Fs D → List ℕ × Fs D
  truncate_double blocks (inode, fs) =
      let singles : Fs D = elim (read_block dev lba (i_block 13 inode) fs) [
        | none ↦ fs
        | some buf ↦ free_singles (ptrs_per_block fs.sb) 0 blocks buf fs
      ] in
      if i_block 13 inode == 0
      then (inode, fs)
      else (set_i_block 13 0 inode, free_block dev lba (i_block 13 inode) singles)

  unfoldable pub truncate_triple : List ℕ × Fs D → List ℕ × Fs D
  truncate_triple (inode, fs) =
      if i_block 14 inode == 0
      then (inode, fs)
      else (set_i_block 14 0 inode, free_block dev lba (i_block 14 inode) fs)

  -- `TruncateInode`, whose result is 0: the inode in memory.
  unfoldable pub truncate_inode : List ℕ → Fs D → List ℕ × Fs D
  truncate_inode inode fs =
      let blocks : ℕ = (i_size inode + block_size fs.sb + 2 ^ 32 - 1) % 2 ^ 32 / block_size fs.sb in
      let out =
        truncate_triple
          (truncate_double blocks (truncate_single blocks (free_direct 12 0 blocks inode fs))) in
      (set_i_blocks 0 (set_i_size 0 out.0), out.1)

  -- The loop of `Truncate` over the blocks past the new size.
  unfoldable pub free_tail : ℕ → ℕ → List ℕ → Fs D → List ℕ × Fs D
  free_tail zero i inode fs = (inode, fs)
  free_tail (suc rounds) i inode fs =
      let block : ℕ = get_block_num dev lba inode i fs in
      let cleared = set_block_num dev lba i 0 inode (free_block dev lba block fs) in
      let freed = free_tail rounds (i + 1) cleared.1 cleared.2 in
      let kept = free_tail rounds (i + 1) inode fs in if block == 0 then kept else freed

  -- `Truncate` once the inode is read and its size is to change.
  unfoldable pub resize : List ℕ → ℕ → Fs D → List ℕ × Fs D
  resize inode new_size fs =
      let first : ℕ = file_blocks new_size fs.sb in
      let out = free_tail (file_blocks (i_size inode) fs.sb - first) first inode fs in
      if ltb new_size (i_size inode)
      then (set_i_size new_size out.0, out.1)
      else (set_i_size new_size inode, fs)

  -- `Truncate`
  unfoldable pub truncate : ℕ → ℕ → Fs D → ℤ × Fs D
  truncate inode_num new_size fs =
      if inode_num == 0 then (negsuc 0, fs) else elim (read_inode dev lba inode_num fs) [
        | none ↦ (negsuc 1, fs)
        | some inode ↦
            let out = resize inode new_size fs in
            let written = write_inode dev lba inode_num out.0 out.1 in
            if new_size == i_size inode
            then (pos 0, fs)
            else (if written.0 then pos 0 else negsuc 2, written.1)
      ]
