-- ===== src/Ext2/File.antt =====
-- `ReadFile` and `WriteFile` of fs/ext2/file.cc, and `Lseek` of fs/ext2/lseek.cc.
pub mod Contents
pub mod Reads
pub mod Layout
pub mod Kept
pub mod Rounds
pub mod Wrote
pub mod Writes
use info.Prelude.{
  ℕ, subst, ap₂, zero, suc, ◌+◌, ◌-◌, ◌*◌, ◌/◌, ◌%◌, ◌^◌, ◌≤◌, ◌<◌, min, ◌≡◌, refl, sym, ap, ◌∙◌,
  ◌≢◌, ◌↔◌, ◌⊎◌, inl, inr, Bool, true, false, not, ◌&&◌, ◌||◌, Option, none, some, List, [], ◌∷◌,
  ◌++◌, map, append-nil, append_assoc, arith, add-zero, ltb, leb, ◌==◌, if◌then◌else◌, ltb→lt,
  lt→ltb, leb→le, ==_iff, tests, Bool-cases, Option-cases, length, get_elem?, set, length-append,
  length-set, get_elem?-set_self, get_elem?-set_ne, get_or, take, drop, replicate, take-append-drop,
  length-take, length-drop, length-replicate, length-map, take_all, drop_all, All, All-get_elem?,
  All-set, All-replicate, get_elem?-some, get_or-set_self, get_or-set_ne,
}
use info.Prelude.Int.{ℤ, pos, negsuc}
use info.Prelude.Words.{put_bytes, slice}
use info.Vfs.File.{to_signed, to_word}
use info.Ext2.Device.{BlockDevice}
use info.Ext2.{Fs, block_size, read_block, write_block}
use info.Ext2.Balloc.{alloc_block}
use info.Ext2.BlockMap.{get_block_num, set_block_num}
use info.Ext2.Inode.{i_size, set_i_size, is_directory}

-- `Lseek` on a file of a size, with 0, 1 and 2 for the three origins.
unfoldable pub new_offset : ℕ → ℤ → ℕ → Option ℤ
new_offset size offset zero = some offset
new_offset size offset (suc zero) = some offset
new_offset size offset (suc (suc zero)) = some (to_signed ((size + to_word offset) % 2 ^ 64))
new_offset size offset (suc (suc (suc n))) = none

unfoldable pub lseek : List ℕ → ℤ → ℕ → ℤ
lseek inode offset whence = elim (new_offset (i_size inode) offset whence) [
  | none ↦ negsuc 1
  | some (pos n) ↦ pos n
  | some (negsuc n) ↦ negsuc 2
]

-- The bytes that one round of the loops handles: to the end of the block, if there are so many.
abbrev pub in_block : ℕ → ℕ → ℕ → ℕ
in_block size at remaining =
    if ltb remaining (size - at % size) then remaining else size - at % size

-- `bytes_to_read`
abbrev pub bytes_to_read : ℕ → ℕ → ℕ → ℕ
bytes_to_read file_size count offset =
    if ltb file_size ((offset + count) % 2 ^ 64) then file_size - offset else count

module _ {D : Type 0} (dev : BlockDevice D) (lba : ℕ) where
  -- The loop of `ReadFile`, from a place in the file on, with the bytes that are left to read and a
  -- bound for the rounds; each round reads a byte at least.
  unfoldable pub read_bytes : ℕ → ℕ → ℕ → List ℕ → Fs D → List ℕ
  read_bytes zero at remaining inode fs = []
  read_bytes (suc rounds) at remaining inode fs =
      let size : ℕ = block_size fs.sb in
      let n : ℕ = in_block size at remaining in
      let block : ℕ = get_block_num dev lba inode (at / size % 2 ^ 32) fs in
      let rest = read_bytes rounds (at + n) (remaining - n) inode fs in
      if remaining == 0 then [] else if block == 0 then [] else elim (read_block dev lba block fs) [
        | none ↦ []
        | some buf ↦ slice (at % size) n buf ++ rest
      ]

  -- `ReadFile`: the result, and the bytes that reach the buffer.
  unfoldable pub read_file : List ℕ → ℕ → ℕ → Fs D → ℤ × List ℕ
  read_file inode count offset fs =
      let n : ℕ = bytes_to_read (i_size inode) count offset in
      let out = read_bytes n offset n inode fs in
      if is_directory inode
      then (negsuc 1, [])
      else if leb (i_size inode) offset
      then (pos 0, [])
      else (pos (length out), out)

  -- The block that a round of `WriteFile` writes: a new one if there is none. `none` ends the loop.
  unfoldable pub block_to_write : ℕ → List ℕ → Fs D → Option ℕ × List ℕ × Fs D
  block_to_write index inode fs =
      let block : ℕ = get_block_num dev lba inode index fs in
      let fresh = alloc_block dev lba fs in
      let entered = set_block_num dev lba index fresh.0 inode fresh.1 in
      if not (block == 0)
      then (some block, inode, fs)
      else if fresh.0 == 0
      then (none, inode, fresh.1)
      else (some fresh.0, entered.1, entered.2)

  -- The block with the bytes in it, if it can be read and written.
  unfoldable pub write_in_block : ℕ → ℕ → List ℕ → Fs D → Bool × Fs D
  write_in_block block offset bytes fs = elim (read_block dev lba block fs) [
    | none ↦ (false, fs)
    | some buf ↦ write_block dev lba block (put_bytes offset bytes buf) fs
  ]

  -- The loop of `WriteFile`, from a place in the file on: the count of bytes written.
  unfoldable pub write_bytes : ℕ → ℕ → List ℕ → List ℕ → Fs D → ℕ × List ℕ × Fs D
  write_bytes zero at bytes inode fs = (0, inode, fs)
  write_bytes (suc rounds) at bytes inode fs =
      let size : ℕ = block_size fs.sb in
      let n : ℕ = in_block size at (length bytes) in
      let found = block_to_write (at / size % 2 ^ 32) inode fs in
      if length bytes == 0 then (0, inode, fs) else elim found.0 [
        | none ↦ (0, found.1, found.2)
        | some block ↦
            let out = write_in_block block (at % size) (take n bytes) found.2 in
            let rest = write_bytes rounds (at + n) (drop n bytes) found.1 out.1 in
            if out.0 then (n + rest.0, rest.1, rest.2) else (0, found.1, out.1)
      ]

  -- The inode with the size that `WriteFile` gives it before it writes.
  abbrev pub grow : ℕ → List ℕ → List ℕ
  grow new_size inode = if ltb (i_size inode) new_size then set_i_size new_size inode else inode

  -- `WriteFile`: the result, and the inode in memory.
  unfoldable pub write_file : List ℕ → List ℕ → ℕ → Fs D → ℤ × List ℕ × Fs D
  write_file inode bytes offset fs =
      let out =
        write_bytes (length bytes) offset bytes (grow ((offset + length bytes) % 2 ^ 64) inode)
          fs in
      if is_directory inode then (negsuc 1, inode, fs) else (pos out.0, out.1, out.2)
