-- ===== src/Ext2/File/Reads.antt =====
-- `ReadFile` on a file whose blocks are all there.
use native.Mathlib.Nat.{div-le_self, div-mul-le_self, mod-lt, mod-eq_of_lt}
use info.Prelude.{
  ℕ, ap₂, zero, suc, ◌+◌, ◌-◌, ◌*◌, ◌/◌, ◌%◌, ◌^◌, ◌≤◌, ◌<◌, min, ◌≡◌, refl, ap, ◌∙◌, ◌≢◌, inl, inr,
  false, some, List, ◌++◌, arith, leb, ◌==◌, Bool-cases, length,
}
use info.Prelude.Int.{pos}
use info.Prelude.Words.{slice}
use info.Ext2.Device.{BlockDevice}
use info.Ext2.{Fs, block_size, read_block}
use info.Ext2.BlockMap.{get_block_num}
use info.Ext2.Inode.{i_size, is_directory}
use info.Ext2.File.{in_block, read_bytes, bytes_to_read, read_file}
use info.Ext2.File.Contents.{contents, contents_add, length-contents, slice-contents}

module _ {D : Type 0} (dev : BlockDevice D) (lba : ℕ) (inode : List ℕ) (fs : Fs D) where
  -- The blocks of the file below a place are there and can be read, with the given bytes.
  pub record Readable (blocks : ℕ → List ℕ) (limit : ℕ) : Type 0 where
    pub block_there : (q : ℕ) → q * block_size fs.sb < limit → get_block_num dev lba inode q fs ≢ 0
    pub block_read :
        (q : ℕ)
        → q * block_size fs.sb < limit
        → read_block dev lba (get_block_num dev lba inode q fs) fs ≡ some (blocks q)
    pub block_full : (q : ℕ) → q * block_size fs.sb < limit → block_size fs.sb ≤ length (blocks q)

  module _ (blocks : ℕ → List ℕ) (limit : ℕ) (readable : Readable blocks limit)
      (some_size : 0 < block_size fs.sb) (small : limit < 2 ^ 32) where
    read_bytes-step :
        (rounds at remaining : ℕ)
        → 0 < remaining
        → at + remaining ≤ limit
        → read_bytes dev lba (suc rounds) at remaining inode fs
          ≡ slice
              (at % block_size fs.sb)
              (in_block (block_size fs.sb) at remaining)
              (blocks (at / block_size fs.sb))
            ++ read_bytes dev lba rounds
                (at + in_block (block_size fs.sb) at remaining)
                (remaining - in_block (block_size fs.sb) at remaining)
                inode
                fs
    unfolding read_bytes
    read_bytes-step rounds at remaining more fits =
        let q : ℕ = at / block_size fs.sb in
        let below : q * block_size fs.sb < limit =
          omega (arith, div-mul-le_self at (block_size fs.sb)) in
        let word : q % 2 ^ 32 ≡ q =
          mod-eq_of_lt (omega (arith, div-le_self at (block_size fs.sb))) in
        let more' : (remaining == 0) ≡ false = ground arith in
        let there : (get_block_num dev lba inode q fs == 0) ≡ false =
          ground (arith, readable.block_there q below) in
        rw (more', word, there, readable.block_read q below) refl

    read_bytes_lem :
        (rounds at remaining : ℕ)
        → remaining ≤ rounds
        → at + remaining ≤ limit
        → read_bytes dev lba rounds at remaining inode fs
          ≡ contents (block_size fs.sb) blocks at remaining
    unfolding read_bytes contents
    read_bytes_lem zero at zero enough fits = refl
    read_bytes_lem zero at (suc remaining) enough fits = absurd (omega arith)
    read_bytes_lem (suc rounds) at zero enough fits = refl
    read_bytes_lem (suc rounds) at (suc remaining) enough fits =
        let size : ℕ = block_size fs.sb in
        let n : ℕ = in_block size at (suc remaining) in
        let place = mod-lt at some_size in
        let some_bytes : 0 < n = ground (arith, place) in
        let no_more : n ≤ suc remaining = ground (arith, place) in
        let in_one : at % size + n ≤ size = ground (arith, place) in
        let below : at / size * size < limit = omega (arith, div-mul-le_self at size) in
        read_bytes-step rounds at (suc remaining) (omega arith) fits
        ∙ ap₂ (λ a b. a ++ b)
            (slice-contents size blocks at n in_one (readable.block_full (at / size) below))
            (read_bytes_lem rounds (at + n) (suc remaining - n) (omega arith) (omega arith))
        ∙ contents_add size blocks at n (suc remaining - n)
        ∙ ap (contents size blocks at) {y = suc remaining} (omega arith)

  -- On a file, not a directory, with blocks of at least one byte and a size below 2 ^ 32, whose
  -- blocks up to the size are there and can be read, and without overflow of the offset,
  -- ReadFile returns the least of the count and the bytes left after the offset, and gives that
  -- many bytes of the contents from the offset on, whatever blocks they span.
  pub read_file_lem :
      (blocks : ℕ → List ℕ) (count offset : ℕ)
      → is_directory inode ≡ false
      → 0 < block_size fs.sb
      → i_size inode < 2 ^ 32
      → offset + count < 2 ^ 64
      → Readable blocks (i_size inode)
      → let n : ℕ = min count (i_size inode - offset) in
        read_file dev lba inode count offset fs
        ≡ (pos n, contents (block_size fs.sb) blocks offset n)
  unfolding read_file contents
  read_file_lem blocks count offset file some_size small no_wrap readable =
      elim (Bool-cases (leb (i_size inode) offset)) [
        | inl past ↦
            let at_end : min count (i_size inode - offset) ≡ 0 = ground arith in
            rw (file, past, at_end) refl
        | inr inside ↦
            let left : bytes_to_read (i_size inode) count offset
                ≡ min count (i_size inode - offset) =
              ground arith in
            let n : ℕ = min count (i_size inode - offset) in
            let got : read_bytes dev lba n offset n inode fs
                ≡ contents (block_size fs.sb) blocks offset n =
              read_bytes_lem blocks (i_size inode) readable some_size small n offset n (omega arith)
                (ground arith) in
            rw (file, inside, left, got, length-contents (block_size fs.sb) blocks offset n) refl
      ]
