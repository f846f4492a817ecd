-- ===== src/Ext2/Create.antt =====
-- `CreateFile` and `DeleteFile` of fs/ext2/file.cc. The name of a file fits its buffer.
use info.Prelude.{
  ℕ, not, Option, none, some, List, [], ◌∷◌, leb, ◌==◌, if◌then◌else◌, length, replicate,
}
use info.Prelude.Int.{ℤ, pos, negsuc}
use info.Prelude.Words.{put16, put32}
use info.Ext2.Device.{BlockDevice}
use info.Ext2.{Fs}
use info.Ext2.Balloc.{alloc_inode, free_inode}
use info.Ext2.Inode.{inode_bytes, is_directory, read_inode, write_inode}
use info.Ext2.Truncate.{truncate_inode}
use info.Ext2.Dir.{hit, miss, endless}
use info.Ext2.Dir.Calls.{Changed, ended, hangs, find_entry, add_entry, remove_entry}
use info.Ext2.Dir.Lookup.{Looked, reached, failed, lookup_path}

-- How a call ends: its result, or never.
pub data Called (D : Type 0) : Type 0 where
  returned : ℤ → Fs D → Called D
  endless_loop : Called D

-- `strrchr(path, '/')`: what stands before the last slash, and after it.
unfoldable pub split_last : List ℕ → Option (List ℕ × List ℕ)
split_last [] = none
split_last (c ∷ cs) = elim (split_last cs) [
  | some (parent, name) ↦ some (c ∷ parent, name)
  | none ↦ if c == 47 then some ([], cs) else none
]

-- The path of the parent that both calls make, unless it is too long for its buffer.
unfoldable pub parent_path : List ℕ → Option (List ℕ)
parent_path [] = some (47 ∷ [])
parent_path (c ∷ cs) = if leb 256 (length (c ∷ cs)) then none else some (c ∷ cs)

-- The inode of a new file: its mode and one link.
unfoldable pub new_inode : ℕ → List ℕ
new_inode mode = put16 26 1 (put16 0 mode (replicate inode_bytes 0))

module _ {D : Type 0} (dev : BlockDevice D) (lba : ℕ) where
  -- The end of `CreateFile`: the parent is written, with its `i_mtime` 0.
  unfoldable pub create_in : ℕ → ℕ → Changed D → Called D
  create_in num parent hangs = endless_loop
  create_in num parent (ended (pos r) inode fs) =
      returned (pos num) (write_inode dev lba parent (put32 16 0 inode) fs).1
  create_in num parent (ended (negsuc r) inode fs) =
      returned (negsuc 10) (free_inode dev lba num fs)

  -- `CreateFile` from the allocation of its inode on.
  unfoldable pub create_inode : ℕ → List ℕ → List ℕ → ℕ → Fs D → Called D
  create_inode parent inode name mode fs =
      let fresh = alloc_inode dev lba fs in
      let written = write_inode dev lba fresh.0 (new_inode mode) fresh.1 in
      if fresh.0 == 0
      then returned (negsuc 8) fresh.1
      else if not written.0
      then returned (negsuc 9) (free_inode dev lba fresh.0 written.1)
      else create_in fresh.0 parent (add_entry dev lba inode fresh.0 name 1 written.1)

  -- `CreateFile` once its parent is found.
  unfoldable pub create_under : ℕ → List ℕ → ℕ → Fs D → Called D
  create_under parent name mode fs = elim (read_inode dev lba parent fs) [
    | none ↦ returned (negsuc 5) fs
    | some inode ↦
        if not (is_directory inode)
        then returned (negsuc 6) fs
        else elim (find_entry dev lba inode name fs) [
          | hit entry ↦ returned (negsuc 7) fs
          | miss ↦ create_inode parent inode name mode fs
          | endless ↦ endless_loop
        ]
  ]

  -- `CreateFile`
  unfoldable pub create_file : List ℕ → ℕ → Fs D → Called D
  create_file path mode fs = elim (split_last path) [
    | none ↦ returned (negsuc 1) fs
    | some (parent, name) ↦ elim (parent_path parent) [
      | none ↦ returned (negsuc 2) fs
      | some p ↦
          if length name == 0 then returned (negsuc 3) fs else elim (lookup_path dev lba p fs) [
            | reached num ↦ create_under num name mode fs
            | failed r ↦ returned (negsuc 4) fs
            | Looked.hangs ↦ endless_loop
          ]
    ]
  ]

  -- The end of `DeleteFile`: the blocks of the file and its inode are given back. The inode with
  -- its blocks taken out is not written.
  unfoldable pub delete_blocks : ℕ → List ℕ → ℕ → Changed D → Called D
  delete_blocks num inode parent hangs = endless_loop
  delete_blocks num inode parent (ended (negsuc r) dir fs) = returned (negsuc 8) fs
  delete_blocks num inode parent (ended (pos r) dir fs) =
      let cut = truncate_inode dev lba inode fs in
      let freed = free_inode dev lba num cut.1 in
      returned (pos 0) (write_inode dev lba parent (put32 16 0 dir) freed).1

  -- `DeleteFile` once the path of the parent is made.
  unfoldable pub delete_under : ℕ → List ℕ → List ℕ → List ℕ → Fs D → Called D
  delete_under num inode parent name fs = elim (lookup_path dev lba parent fs) [
    | failed r ↦ returned (negsuc 6) fs
    | Looked.hangs ↦ endless_loop
    | reached p ↦ elim (read_inode dev lba p fs) [
      | none ↦ returned (negsuc 7) fs
      | some dir ↦ delete_blocks num inode p (remove_entry dev lba dir name fs)
    ]
  ]

  -- `DeleteFile`
  unfoldable pub delete_file : List ℕ → Fs D → Called D
  delete_file path fs = elim (lookup_path dev lba path fs) [
    | failed r ↦ returned (negsuc 1) fs
    | Looked.hangs ↦ endless_loop
    | reached num ↦ elim (read_inode dev lba num fs) [
      | none ↦ returned (negsuc 2) fs
      | some inode ↦ if is_directory inode then returned (negsuc 3) fs else elim (split_last path) [
        | none ↦ returned (negsuc 4) fs
        | some (parent, name) ↦ elim (parent_path parent) [
          | none ↦ returned (negsuc 5) fs
          | some p ↦ delete_under num inode p name fs
        ]
      ]
    ]
  ]
