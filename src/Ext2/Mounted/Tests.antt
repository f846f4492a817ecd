-- ===== src/Ext2/Mounted/Tests.antt =====
-- A file of ten bytes on a mount of ext2, on a disk in memory.
use info.Prelude.{
  ℕ, zero, suc, ◌*◌, ◌<◌, ◌≡◌, refl, sym, ◌≢◌, none, some, [], ◌∷◌, ◌++◌, arith, ◌==◌,
  if◌then◌else◌, replicate,
}
use info.Prelude.Int.{pos, negsuc}
use info.Prelude.Words.{word16, word32}
use info.Vfs.File.{File, advance, read, read_by, write, seek, close}
use info.Ext2.{block_size, gd_block, read_block, read_group_desc}
use info.Ext2.BlockMap.{block_path, walk, get_block_num}
use info.Ext2.BlockMap.Chains.{NotOn}
use info.Ext2.File.Layout.{OffPath}
use info.Ext2.Memory.{bytes_of, memory, memory-Stores}
use info.Ext2.Tests.{small_sb-Divides, ones, small_file, small_file-Readable, small_file-Laid}
use info.Ext2.Mounted.{FileData, Mounted, ext2_read, ext2_close, ext2_ops}
use info.Ext2.Mounted.Reads.{Open, read-read}
use info.Ext2.Mounted.Writes.{InTable, write-seek-read}

abbrev third : FileData
third = record { inode_num = 3; inode = small_file }

abbrev mounted : Mounted (ℕ → ℕ)
mounted = record { fs = ones; files = λ q. if q == 1 then some third else none }

abbrev opened : File (Mounted (ℕ → ℕ))
opened = record { flags = 0; position = 4; mount = some (ext2_ops memory 63); private_data = 1 }

opened-Open : Open memory 63 opened third mounted
opened-Open = record { on_mount = refl; there = refl }

off_blocks : (c q : ℕ) → c ≢ 5 → q * 1024 < 10 → get_block_num memory 63 small_file q ones ≢ c
unfolding block_size word32 get_block_num block_path walk
off_blocks c zero other h e = other (sym e)
off_blocks c (suc q) other h e = absurd (omega arith)

off_path : (q : ℕ) → q * 1024 < 10 → OffPath memory 63 small_file 16843009 q ones
unfolding block_size word32 OffPath NotOn block_path
off_path zero h = tt
off_path (suc q) h = absurd (omega arith)

third-InTable : InTable memory 63 third ones
unfolding read_block read_group_desc block_size word32 word16 bytes_of OffPath NotOn block_path
third-InTable = record {
  n = 2;
  gd = replicate 32 1;
  buf = replicate 1024 1;
  number = refl;
  divides = small_sb-Divides;
  described = omega arith;
  inside = omega arith;
  desc_read = refl;
  table_read = refl;
  off_table = λ q h. off_blocks 16843009 q (ground arith) h;
  off_desc = λ q h. off_blocks gd_block q (ground arith) h;
  off_paths = off_path;
}

read-read_example :
    ((read (some opened) 7 mounted).0.1
      ≡ (read (some opened) 2 mounted).0.1 ++ (read (read (some opened) 2 mounted).1 5 mounted).0.1)
    × ((read (some opened) 7 mounted).1 ≡ (read (read (some opened) 2 mounted).1 5 mounted).1)
unfolding block_size word32 word16
read-read_example =
    read-read memory 63 third mounted (λ q. replicate 1024 1) refl (omega arith) (omega arith)
      small_file-Readable opened 2 5 opened-Open (omega arith) (omega arith) (omega arith)

write-seek-read_example :
    ((write (some opened) (65 ∷ 66 ∷ []) mounted).0 ≡ pos 2)
    × ((read
          (seek (write (some opened) (65 ∷ 66 ∷ []) mounted).1 (pos 4) 0).1
          2
          (write (some opened) (65 ∷ 66 ∷ []) mounted).2).0
        ≡ (pos 2, 65 ∷ 66 ∷ []))
unfolding block_size word32 word16
write-seek-read_example =
    write-seek-read memory 63 memory-Stores third mounted (λ q. replicate 1024 1) refl (omega arith)
      (omega arith) small_file-Laid third-InTable opened (65 ∷ 66 ∷ []) opened-Open (omega arith)
      (omega arith)

-- What was closed is a null pointer.
closed : (close (some opened) mounted).1.files 1 ≡ none
unfolding close ext2_close
closed = refl

null_read : read (some opened) 2 (close (some opened) mounted).1 ≡ ((negsuc 1, []), some opened)
unfolding read read_by advance close ext2_read ext2_close
null_read = refl
