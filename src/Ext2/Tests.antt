-- ===== src/Ext2/Tests.antt =====
-- The calls of ext2 on a disk in memory.
use info.Prelude.{
  ℕ, subst, zero, suc, ◌*◌, ◌<◌, ◌≡◌, refl, sym, ◌∙◌, ◌≢◌, ◌⊎◌, true, some, List, [], ◌∷◌, ◌++◌,
  arith, replicate,
}
use info.Prelude.Int.{pos}
use info.Prelude.Words.{put_bytes, word16, word32, put16, put32}
use info.Ext2.{
  Fs, block_size, read_block, write_block, read_group_desc, read_super_block, write_super_block,
}
use info.Ext2.Inode.{Divides, read_inode, write_inode}
use info.Ext2.Inode.Table.{read_inode-write_inode, read_super_block-write_super_block}
use info.Ext2.BlockMap.{block_path, walk, get_block_num}
use info.Ext2.BlockMap.Chains.{NotOn}
use info.Prelude.Bits.{marked, bit}
use info.Ext2.Balloc.{
  free_bit, write_counts, take_block, search_block, alloc_block_in, alloc_block_from, alloc_block,
}
use info.Ext2.File.{read_file, write_file}
use info.Ext2.File.Contents.{contents}
use info.Ext2.File.Layout.{Laid, OffPath}
use info.Ext2.File.Writes.{Left, write_file_lem}
use info.Ext2.File.Reads.{Readable, read_file_lem}
use info.Ext2.{s_blocks_count, s_blocks_per_group}
use info.Ext2.Balloc.{group_count}
use info.Ext2.Balloc.Take.{Taken}
use info.Ext2.Balloc.Alloc.{NoneFree, alloc_block_lem}
use info.Ext2.Dir.Inserts.{Inserted, add_at_lem}
use info.Ext2.Dir.{add_at, put_entry, add_in, find_in, endless}
use info.Ext2.Dir.Calls.{add_entry, hangs}
use info.Ext2.Dir.Entries.{Finds, find_in_lem}
use info.Ext2.Dir.Adds.{add_entry-hole}
use info.Ext2.Memory.{bytes_of, memory, memory-Stores}

-- A super block: blocks of 1024 bytes, 8 blocks and 8 inodes of 128 bytes in a group.
abbrev pub small_sb : List ℕ
small_sb =
    8 ∷ 0 ∷ 0 ∷ 0 ∷ 8 ∷ 0 ∷ 0 ∷ 0 ∷ replicate 24 0
    ++ 8 ∷ 0 ∷ 0 ∷ 0 ∷ replicate 4 0
    ++ 8 ∷ replicate 47 0
    ++ 128 ∷ 0 ∷ []

abbrev pub ones : Fs (ℕ → ℕ)
ones = record { disk = λ p. 1; sb = small_sb }

-- An inode whose indirect block is 5.
abbrev with_indirect : List ℕ
with_indirect = replicate 88 0 ++ 5 ∷ replicate 39 0

read_super_block-write_super_block_example :
    ((read_super_block memory 63 (write_super_block memory ones).1).0
      ≡ (read_super_block memory 63 ones).0)
    × ((read_super_block memory 63 (write_super_block memory ones).1).1.sb
        ≡ (read_super_block memory 63 ones).1.sb)
read_super_block-write_super_block_example =
    read_super_block-write_super_block memory-Stores 63 ones (omega arith) (omega arith)

pub small_sb-Divides : Divides small_sb
unfolding block_size word32 word16
small_sb-Divides = record {
  size_there = ground arith;
  in_block_there = ground arith;
  in_group_there = ground arith;
}

read_inode-write_inode_example :
    ((write_inode memory 63 3 (replicate 128 7) ones).0 ≡ true)
    × (read_inode memory 63 3 (write_inode memory 63 3 (replicate 128 7) ones).1
        ≡ some (replicate 128 7))
unfolding read_block read_group_desc block_size word32 word16 bytes_of
read_inode-write_inode_example =
    read_inode-write_inode memory-Stores 63 2 (replicate 128 7) ones refl refl small_sb-Divides
      (omega arith) (ground arith) refl (omega arith)

-- An inode of 10 bytes in block 5, and a directory of one block that is a hole.
abbrev pub small_file : List ℕ
small_file = replicate 4 0 ++ 10 ∷ replicate 35 0 ++ 5 ∷ replicate 87 0

abbrev hole_directory : List ℕ
hole_directory = 0 ∷ 64 ∷ 0 ∷ 0 ∷ 0 ∷ 4 ∷ replicate 122 0

small_file_there : (q : ℕ) → q * 1024 < 10 → get_block_num memory 63 small_file q ones ≢ 0
unfolding block_size word32 get_block_num block_path walk
small_file_there zero h = ground arith
small_file_there (suc q) h = absurd (omega arith)

small_file_reads :
    (q : ℕ)
    → q * 1024 < 10
    → read_block memory 63 (get_block_num memory 63 small_file q ones) ones
      ≡ some (replicate 1024 1)
unfolding block_size word32 bytes_of read_block
small_file_reads zero h = refl
small_file_reads (suc q) h = absurd (omega arith)

pub small_file-Readable : Readable memory 63 small_file ones (λ q. replicate 1024 1) 10
unfolding block_size word32 bytes_of read_block get_block_num block_path walk
small_file-Readable = record {
  block_there = small_file_there;
  block_read = small_file_reads;
  block_full = λ q h. omega arith;
}

read_file_lem_example :
    read_file memory 63 small_file 20 4 ones ≡ (pos 6, contents 1024 (λ q. replicate 1024 1) 4 6)
unfolding block_size word32 word16
read_file_lem_example =
    read_file_lem memory 63 small_file ones (λ q. replicate 1024 1) 20 4 refl (omega arith)
      (omega arith) (omega arith) small_file-Readable

one_nonzero : ◌≢◌ {A = ℕ} 1 0
one_nonzero = omega arith

below_one : (q : ℕ) → q * 1024 < 10 → q ≡ 0
below_one q h = omega arith

pub small_file-Laid : Laid memory 63 small_file ones (λ q. replicate 1024 1) 10
unfolding block_size word32 OffPath NotOn block_path
small_file-Laid = record {
  readable = small_file-Readable;
  distinct = λ q r hq hr ne e. ne (below_one q hq ∙ sym (below_one r hr));
  off_paths = λ q r hq hr.
      subst (λ k. OffPath memory 63 small_file (get_block_num memory 63 small_file q ones) k ones)
        (sym (below_one r hr)) tt;
}

write_file_lem_example :
    Left memory 63 small_file
      (65 ∷ 66 ∷ [])
      3
      ones
      (write_file memory 63 small_file (65 ∷ 66 ∷ []) 3 ones)
unfolding block_size word32 word16
write_file_lem_example =
    write_file_lem memory 63 small_file memory-Stores (65 ∷ 66 ∷ []) 3 ones (λ q. replicate 1024 1)
      refl (omega arith) (omega arith) (omega arith) small_file-Laid

add_entry-hole_example :
    (add_entry memory 63 hole_directory 12 (97 ∷ []) 1 ones ≡ hangs)
    × ((rounds : ℕ) → add_in rounds 1024 12 1 (97 ∷ []) 0 (replicate 1024 0) ≡ endless)
unfolding block_size word32 word16 bytes_of read_block read_group_desc write_block get_block_num
    block_path walk free_bit write_counts take_block search_block alloc_block_in alloc_block_from
    alloc_block marked bit
add_entry-hole_example =
    add_entry-hole memory 63 12 1 (97 ∷ []) hole_directory ones refl (omega arith) (omega arith)
      (omega arith) refl one_nonzero

-- A block with an entry that is not used, and the entry of a file `a`.
abbrev entries : List ℕ
entries =
    0 ∷ 0 ∷ 0 ∷ 0 ∷ 12 ∷ 0 ∷ 1 ∷ 1 ∷ 97 ∷ 0 ∷ 0 ∷ 0 ∷ 5 ∷ 0 ∷ 0 ∷ 0 ∷ 12 ∷ 0 ∷ 1 ∷ 1 ∷ 97 ∷ 0 ∷ 0
    ∷ 0 ∷ []

find_in_lem_example : Finds 24 (97 ∷ []) 0 entries (find_in 24 24 (97 ∷ []) 0 entries)
find_in_lem_example = find_in_lem 24 (97 ∷ []) 24 0 entries (omega arith)

alloc_block_lem_example :
    ((alloc_block memory 63 ones ≡ (0, ones))
      × ((g : ℕ)
          → g < group_count (s_blocks_count small_sb) (s_blocks_per_group small_sb)
          → NoneFree memory 63 g ones))
    ⊎ Taken memory memory-Stores 63 ones (alloc_block memory 63 ones)
unfolding block_size word32
alloc_block_lem_example =
    alloc_block_lem memory 63 memory-Stores ones (omega arith) (ground arith) (omega arith)
      (omega arith)

-- A block whose last entry has room behind it.
abbrev roomy : List ℕ
roomy = 5 ∷ 0 ∷ 0 ∷ 0 ∷ 24 ∷ 0 ∷ 1 ∷ 1 ∷ 97 ∷ replicate 15 0

abbrev roomy_after : List ℕ
roomy_after =
    5 ∷ 0 ∷ 0 ∷ 0 ∷ 12 ∷ 0 ∷ 1 ∷ 1 ∷ 97 ∷ 0 ∷ 0 ∷ 0 ∷ 9 ∷ 0 ∷ 0 ∷ 0 ∷ 12 ∷ 0 ∷ 2 ∷ 1 ∷ 98 ∷ 99 ∷ 0
    ∷ 0 ∷ []

roomy_used : ◌≢◌ {A = ℕ} 5 0
roomy_used = omega arith

nine_nonzero : ◌≢◌ {A = ℕ} 9 0
nine_nonzero = omega arith

add_at_lem_example : Inserted 0 9 1 (98 ∷ 99 ∷ []) roomy roomy_after
unfolding add_at put_entry put_bytes put16 put32 word16 word32
add_at_lem_example =
    add_at_lem 0 9 1 (98 ∷ 99 ∷ []) roomy {new = roomy_after} roomy_used nine_nonzero (omega arith)
      (omega arith) (omega arith) (omega arith) refl
