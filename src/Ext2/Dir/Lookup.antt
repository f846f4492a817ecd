-- ===== src/Ext2/Dir/Lookup.antt =====
-- `LookupPath` of fs/ext2/dir.cc, and `GetFileSize` of fs/ext2/lseek.cc.
use info.Prelude.{
  ℕ, zero, suc, not, Option, none, some, List, [], ◌∷◌, leb, ◌==◌, if◌then◌else◌, length, drop,
}
use info.Prelude.Int.{ℤ, pos, negsuc}
use info.Prelude.Words.{word32}
use info.Ext2.Device.{BlockDevice}
use info.Ext2.{Fs}
use info.Ext2.Inode.{i_size, read_inode}
use info.Ext2.Dir.{hit, miss, endless}
use info.Ext2.Dir.Calls.{find_entry}

-- The loop that finds the end of a component: the component, and the rest of the path from there.
unfoldable pub component : List ℕ → List ℕ × List ℕ
component [] = ([], [])
component (c ∷ cs) =
    let (name, rest) = component cs in if c == 47 then ([], c ∷ cs) else (c ∷ name, rest)

-- How a search for a path ends: an inode number, a result other than 0, or never.
pub data Looked : Type 0 where
  reached : ℕ → Looked
  failed : ℤ → Looked
  hangs : Looked

module _ {D : Type 0} (dev : BlockDevice D) (lba : ℕ) where
  -- The loop of `LookupPath` over the rest of the path, with the inode that is reached and a bound for
  -- the rounds; each round takes a byte at least, or ends.
  unfoldable pub lookup_from : ℕ → List ℕ → ℕ → List ℕ → Fs D → Looked
  lookup_from rounds [] num inode fs = reached num
  lookup_from zero (c ∷ cs) num inode fs = hangs
  lookup_from (suc rounds) (c ∷ cs) num inode fs =
      let (name, rest) = component (c ∷ cs) in
      if leb 256 (length name) then failed (negsuc 3) else elim (find_entry dev lba inode name fs) [
        | hit entry ↦
            let next : ℕ = word32 0 entry in
            elim (read_inode dev lba next fs) [
              | none ↦ failed (negsuc 2)
              | some there ↦ lookup_from rounds (drop 1 rest) next there fs
            ]
        | miss ↦ failed (negsuc 4)
        | endless ↦ hangs
      ]

  -- `LookupPath`
  unfoldable pub lookup_path : List ℕ → Fs D → Looked
  lookup_path [] fs = failed (negsuc 1)
  lookup_path (c ∷ cs) fs =
      if not (c == 47) then failed (negsuc 1) else elim (read_inode dev lba 2 fs) [
        | none ↦ failed (negsuc 2)
        | some root ↦ lookup_from (length cs) cs 2 root fs
      ]

  -- `GetFileSize`: the result, and the size.
  unfoldable pub get_file_size : List ℕ → Fs D → Option ℤ × ℕ
  get_file_size path fs = elim (lookup_path path fs) [
    | hangs ↦ (none, 0)
    | failed r ↦ (some (negsuc 1), 0)
    | reached num ↦ elim (read_inode dev lba num fs) [
      | none ↦ (some (negsuc 2), 0)
      | some inode ↦ (some (pos 0), i_size inode)
    ]
  ]
