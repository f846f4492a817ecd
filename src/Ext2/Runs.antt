-- ===== src/Ext2/Runs.antt =====
-- Runs of the calls of ext2 on a small image.
use info.Prelude.{
  ℕ, ◌-◌, ◌≡◌, refl, true, Option, none, some, List, [], ◌∷◌, ◌++◌, ◌==◌, if◌then◌else◌, length,
  replicate,
}
use info.Prelude.Int.{ℤ, pos, negsuc}
use info.Prelude.Bits.{marked, mark, unmark, bit, with_bit, without_bit}
use info.Prelude.Words.{put_bytes, word16, word32, put16, put32}
use info.Ext2.Device.{BlockDevice}
use info.Ext2.{
  Fs, block_size, read_block, write_block, read_group_desc, write_group_desc, write_super_block,
}
use info.Ext2.Balloc.{
  free_bit, free_inode_bit, write_counts, take_block, search_block, alloc_block_in,
  alloc_block_from, alloc_block, clear_block, free_block, take_inode, alloc_inode_in,
  alloc_inode_from, alloc_inode, clear_inode, free_inode,
}
use info.Ext2.Inode.{inode2block, read_inode, write_inode}
use info.Ext2.BlockMap.{
  block_path, walk, get_block_num, next_block, store, set_indirect, set_block_num,
}
use info.Ext2.File.{
  new_offset, lseek, read_bytes, read_file, block_to_write, write_in_block, write_bytes, write_file,
}
use info.Ext2.Truncate.{
  free_direct, free_entries, free_single, free_singles, truncate_single, truncate_double,
  truncate_triple, truncate_inode, free_tail, resize, truncate,
}
use info.Ext2.Partition.{linux_lba, find_ext2_partition}
use info.Ext2.Dir.{put_entry, matches, find_in, add_at, add_in, remove_at, remove_in, read_in, hit}
use info.Ext2.Dir.Calls.{
  dir_block, find_from, find_entry, write_change, append_block, add_from, add_entry, remove_from,
  remove_entry, read_from, readdir,
}
use info.Ext2.Dir.Lookup.{component, reached, failed, lookup_from, lookup_path, get_file_size}
use info.Ext2.Create.{
  Called, returned, endless_loop, split_last, parent_path, new_inode, create_in, create_inode,
  create_under, create_file, delete_blocks, delete_under, delete_file,
}

-- A disk as a table of what was written, by the first sector.
find_sector : ℕ → List (ℕ × List ℕ) → List ℕ
find_sector s [] = []
find_sector s ((t, buf) ∷ d) = let rest = find_sector s d in if t == s then buf else rest

abbrev table : BlockDevice (List (ℕ × List ℕ))
table = record {
  read = λ s n d. some (find_sector s d);
  write = λ s n buf d. (true, (s, buf) ∷ d);
  behind = [];
}

-- Of 1024 bytes.
padded : ℕ → List ℕ → List ℕ
padded n xs = xs ++ replicate (n - length xs) 0

abbrev image_sb : List ℕ
image_sb =
    8 ∷ 0 ∷ 0 ∷ 0 ∷ 16 ∷ 0 ∷ 0 ∷ 0 ∷ replicate 4 0
    ++ 8 ∷ 0 ∷ 0 ∷ 0 ∷ 5 ∷ replicate 15 0
    ++ 16 ∷ replicate 7 0
    ++ 8 ∷ replicate 47 0
    ++ 128 ∷ 0 ∷ []

-- The root, with one file `a` of 10 bytes in block 7.
abbrev image : Fs (List (ℕ × List ℕ))
image = record {
  disk =
      (8, padded 1024 (3 ∷ 0 ∷ 0 ∷ 0 ∷ 4 ∷ 0 ∷ 0 ∷ 0 ∷ 5 ∷ 0 ∷ 0 ∷ 0 ∷ 8 ∷ 0 ∷ 5 ∷ []))
      ∷ (10, padded 1024 (255 ∷ []))
      ∷ (12, padded 1024 (7 ∷ []))
      ∷ (
        14,
        padded 1024 (
            replicate 129 0
            ++ 64 ∷ 0 ∷ 0 ∷ 0 ∷ 4 ∷ replicate 34 0
            ++ 6 ∷ replicate 87 0
            ++ 0 ∷ 128 ∷ 0 ∷ 0 ∷ 10 ∷ replicate 35 0
            ++ 7 ∷ []),
      )
      ∷ (16, padded 1024 (3 ∷ 0 ∷ 0 ∷ 0 ∷ 0 ∷ 4 ∷ 1 ∷ 1 ∷ 97 ∷ []))
      ∷ (18, padded 1024 (49 ∷ 50 ∷ 51 ∷ 52 ∷ 53 ∷ 54 ∷ 55 ∷ 56 ∷ 57 ∷ 48 ∷ []))
      ∷ [];
  sb = padded 1024 image_sb;
}

-- What a call leaves.
left_by : Called (List (ℕ × List ℕ)) → Fs (List (ℕ × List ℕ))
left_by (returned r fs) = fs
left_by endless_loop = image

result_of : Called (List (ℕ × List ℕ)) → Option ℤ
result_of (returned r fs) = some r
result_of endless_loop = none

-- The file is found, listed and measured.
lookups :
    (lookup_path table 4 (47 ∷ 97 ∷ []) image ≡ reached 3)
    × (lookup_path table 4 (47 ∷ 98 ∷ []) image ≡ failed (negsuc 4))
    × (readdir table 4 2 0 image ≡ hit (record { inode = 3; file_type = 1; name = 97 ∷ [] }))
    × (get_file_size table 4 (47 ∷ 97 ∷ []) image ≡ (some (pos 0), 10))
unfolding padded find_sector left_by result_of block_size read_block write_block read_group_desc
    write_group_desc write_super_block put_bytes word16 word32 put16 put32 marked mark unmark bit
    with_bit without_bit inode2block read_inode write_inode block_path walk get_block_num put_entry
    matches find_in add_at add_in remove_at remove_in read_in dir_block find_from find_entry
    write_change append_block add_from add_entry remove_from remove_entry read_from readdir
    component lookup_from lookup_path get_file_size
lookups = (refl, refl, refl, refl)

-- A new file gets inode 4 and is found; a file that is deleted is not.
creations :
    (result_of (create_file table 4 (47 ∷ 98 ∷ []) 0x8180 image) ≡ some (pos 4))
    × (lookup_path table 4
          (47 ∷ 98 ∷ [])
          (left_by (create_file table 4 (47 ∷ 98 ∷ []) 0x8180 image))
        ≡ reached 4)
unfolding padded find_sector left_by result_of block_size read_block write_block read_group_desc
    write_group_desc write_super_block put_bytes word16 word32 put16 put32 marked mark unmark bit
    with_bit without_bit free_bit free_inode_bit write_counts take_block search_block alloc_block_in
    alloc_block_from alloc_block clear_block free_block take_inode alloc_inode_in alloc_inode_from
    alloc_inode clear_inode free_inode inode2block read_inode write_inode block_path walk
    get_block_num next_block store set_indirect set_block_num block_to_write put_entry matches
    find_in add_at add_in remove_at remove_in read_in dir_block find_from find_entry write_change
    append_block add_from add_entry remove_from remove_entry read_from readdir component lookup_from
    lookup_path get_file_size split_last parent_path new_inode create_in create_inode create_under
    create_file delete_blocks delete_under delete_file
creations = (refl, refl)

deletions :
    (result_of (delete_file table 4 (47 ∷ 97 ∷ []) image) ≡ some (pos 0))
    × (lookup_path table 4 (47 ∷ 97 ∷ []) (left_by (delete_file table 4 (47 ∷ 97 ∷ []) image))
        ≡ failed (negsuc 4))
unfolding padded find_sector left_by result_of block_size read_block write_block read_group_desc
    write_group_desc write_super_block put_bytes word16 word32 put16 put32 marked mark unmark bit
    with_bit without_bit free_bit free_inode_bit write_counts take_block search_block alloc_block_in
    alloc_block_from alloc_block clear_block free_block take_inode alloc_inode_in alloc_inode_from
    alloc_inode clear_inode free_inode inode2block read_inode write_inode block_path walk
    get_block_num next_block store set_indirect set_block_num free_direct free_entries free_single
    free_singles truncate_single truncate_double truncate_triple truncate_inode free_tail resize
    truncate put_entry matches find_in add_at add_in remove_at remove_in read_in dir_block find_from
    find_entry write_change append_block add_from add_entry remove_from remove_entry read_from
    readdir component lookup_from lookup_path get_file_size split_last parent_path new_inode
    create_in create_inode create_under create_file delete_blocks delete_under delete_file
deletions = (refl, refl)

-- The inode of the file.
abbrev file_a : List ℕ
file_a = 0 ∷ 128 ∷ 0 ∷ 0 ∷ 10 ∷ replicate 35 0 ++ 7 ∷ replicate 87 0

contents_of_a :
    (read_file table 4 file_a 20 7 image ≡ (pos 3, 56 ∷ 57 ∷ 48 ∷ []))
    × (read_file table 4 file_a 3 0 (write_file table 4 file_a (65 ∷ 66 ∷ []) 1 image).2
        ≡ (pos 3, 49 ∷ 65 ∷ 66 ∷ []))
    × ((write_file table 4 file_a (65 ∷ []) 2048 image).0 ≡ pos 1)
    × (lseek file_a (pos 3) 1 ≡ pos 3)
    × (inode2block table 4 2 image ≡ 5)
unfolding padded find_sector left_by result_of block_size read_block write_block read_group_desc
    write_group_desc write_super_block put_bytes word16 word32 put16 put32 marked mark unmark bit
    with_bit without_bit free_bit free_inode_bit write_counts take_block search_block alloc_block_in
    alloc_block_from alloc_block clear_block free_block take_inode alloc_inode_in alloc_inode_from
    alloc_inode clear_inode free_inode inode2block read_inode write_inode block_path walk
    get_block_num next_block store set_indirect set_block_num new_offset lseek read_bytes read_file
    block_to_write write_in_block write_bytes write_file
contents_of_a = (refl, refl, refl, refl, refl)

truncations :
    ((truncate table 4 3 4 image).0 ≡ pos 0)
    × ((truncate table 4 3 0 image).0 ≡ pos 0)
    × ((alloc_block table 4 (truncate table 4 3 0 image).1).0 ≡ 7)
    × ((set_block_num table 4 300 9 file_a image).0 ≡ pos 0)
unfolding padded find_sector left_by result_of block_size read_block write_block read_group_desc
    write_group_desc write_super_block put_bytes word16 word32 put16 put32 marked mark unmark bit
    with_bit without_bit free_bit free_inode_bit write_counts take_block search_block alloc_block_in
    alloc_block_from alloc_block clear_block free_block take_inode alloc_inode_in alloc_inode_from
    alloc_inode clear_inode free_inode inode2block read_inode write_inode block_path walk
    get_block_num next_block store set_indirect set_block_num free_direct free_entries free_single
    free_singles truncate_single truncate_double truncate_triple truncate_inode free_tail resize
    truncate
truncations = (refl, refl, refl, refl)

-- The second partition is the one of type 0x83.
abbrev mbr : List ℕ
mbr = replicate 466 0 ++ 0x83 ∷ 0 ∷ 0 ∷ 0 ∷ 63 ∷ 8 ∷ 0 ∷ 0 ∷ replicate 36 0 ++ 0x55 ∷ 0xAA ∷ []

partitions : (find_ext2_partition table ((0, mbr) ∷ []) ≡ 2111) × (find_ext2_partition table [] ≡ 0)
unfolding find_sector word16 word32 linux_lba find_ext2_partition
partitions = (refl, refl)
