-- ===== src/Ext2/Dir/Adds.antt =====
-- `AddEntry` on a directory with a block that is missing.
use info.Prelude.{
  ℕ, zero, suc, ◌+◌, ◌≤◌, ◌<◌, ◌≡◌, refl, ◌≢◌, true, false, none, some, List, arith, ltb, leb, ◌==◌,
  length, replicate,
}
use info.Prelude.Words.{word16-zeros, word32-zeros}
use info.Ext2.Device.{BlockDevice}
use info.Ext2.{Fs, block_size}
use info.Ext2.Balloc.{alloc_block}
use info.Ext2.BlockMap.{get_block_num}
use info.Ext2.File.{block_to_write}
use info.Ext2.Inode.{is_directory}
use info.Ext2.Dir.{d_rec_len, d_inode, entry_length, endless, add_at, add_in}
use info.Ext2.Dir.Calls.{block_count, hangs, add_from, add_entry}

module _ (size inode file_type : ℕ) (name : List ℕ) where
  add_at-zero : add_at inode file_type name 0 (replicate size 0) ≡ none
  unfolding add_at
  add_at-zero =
      let unused : d_inode 0 (replicate size 0) ≡ 0 = word32-zeros size 0 in
      let no_length : d_rec_len 0 (replicate size 0) ≡ 0 = word16-zeros size 4 in
      let no_room : leb (entry_length (length name)) 0 ≡ false = ground arith in
      rw (unused, no_length, no_room) refl

  add_in-zero :
      (rounds : ℕ)
      → 0 < size
      → add_in rounds size inode file_type name 0 (replicate size 0) ≡ endless
  unfolding add_in
  add_in-zero zero h = let on : ltb 0 size ≡ true = ground arith in rw (on, add_in)
  add_in-zero (suc rounds) h =
      let on : ltb 0 size ≡ true = ground arith in
      let same : 0 + d_rec_len 0 (replicate size 0) ≡ 0 = omega (arith, word16-zeros size 4) in
      rw (on, add_at-zero, same, add_in-zero rounds h, add_in)

module _ {D : Type 0} (dev : BlockDevice D) (lba : ℕ) where
  block_to_write-fresh :
      (i : ℕ) (inode : List ℕ) (fs : Fs D)
      → get_block_num dev lba inode i fs ≡ 0
      → (alloc_block dev lba fs).0 ≢ 0
      → (block_to_write dev lba i inode fs).0 ≡ some (alloc_block dev lba fs).0
  unfolding block_to_write
  block_to_write-fresh i inode fs z nz =
      let got : ((alloc_block dev lba fs).0 == 0) ≡ false = ground arith in
      let hole : (get_block_num dev lba inode i fs == 0) ≡ true = ground arith in
      rw (hole, got, block_to_write)

  add_from-hole :
      (left i blocks num file_type : ℕ) (name inode : List ℕ) (fs : Fs D)
      → 0 < left
      → 0 < block_size fs.sb
      → get_block_num dev lba inode i fs ≡ 0
      → (alloc_block dev lba fs).0 ≢ 0
      → add_from dev lba left i blocks num file_type name inode fs ≡ hangs
  unfolding add_from
  add_from-hole zero i blocks num file_type name inode fs more size z nz = absurd (omega arith)
  add_from-hole (suc left) i blocks num file_type name inode fs more size z nz =
      let got = block_to_write-fresh i inode fs z nz in
      let hole : (get_block_num dev lba inode i fs == 0) ≡ true = ground arith in
      let loops = add_in-zero (block_size fs.sb) num file_type name (block_size fs.sb) size in
      rw (got, hole, loops, add_from)

  -- On a directory of at least one block whose first block is a hole, with blocks of at least
  -- one byte, a name of at most 255 bytes and a free block, AddEntry does not return: the entry
  -- at the start of the new block has length 0, and no number of rounds ends the loop over it.
  pub add_entry-hole :
      (num file_type : ℕ) (name inode : List ℕ) (fs : Fs D)
      → is_directory inode ≡ true
      → length name ≤ 255
      → 0 < block_count inode fs.sb
      → 0 < block_size fs.sb
      → get_block_num dev lba inode 0 fs ≡ 0
      → (alloc_block dev lba fs).0 ≢ 0
      → (add_entry dev lba inode num name file_type fs ≡ hangs)
        × ((rounds : ℕ)
            → add_in rounds (block_size fs.sb) num file_type name 0 (replicate (block_size fs.sb) 0)
              ≡ endless)
  unfolding add_entry
  add_entry-hole num file_type name inode fs dir short some_blocks pos_size z nz =
      let long : ltb 255 (length name) ≡ false = ground arith in
      let blocks : ℕ = block_count inode fs.sb in
      (
        rw (dir, long)
            (add_from-hole blocks 0 blocks num file_type name inode fs some_blocks pos_size z nz),
        λ rounds. add_in-zero (block_size fs.sb) num file_type name rounds pos_size,
      )
