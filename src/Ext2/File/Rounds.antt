-- ===== src/Ext2/File/Rounds.antt =====
-- A round of the loop of `WriteFile` that finds its block.
use native.Mathlib.Nat.{div-le_self, div-mul-le_self, mod-eq_of_lt}
use info.Prelude.{
  ℕ, suc, ◌+◌, ◌*◌, ◌/◌, ◌%◌, ◌^◌, ◌≤◌, ◌<◌, ◌≡◌, refl, ap, ◌∙◌, ◌≢◌, false, Option, none, some,
  List, arith, ◌==◌, if◌then◌else◌, length, take, drop,
}
use info.Prelude.Words.{put_bytes}
use info.Ext2.Device.{BlockDevice, Stores}
use info.Ext2.{Fs, block_size, read_block, write_block}
use info.Ext2.Blocks.{write_block-true}
use info.Ext2.BlockMap.{get_block_num}
use info.Ext2.File.{in_block, block_to_write, write_in_block, write_bytes}
use info.Ext2.File.Layout.{Laid, written}

module _ {D : Type 0} (dev : BlockDevice D) (lba : ℕ) (inode : List ℕ) (stores : Stores dev)
    (limit : ℕ) where
  block_to_write-there :
      (i : ℕ) (fs : Fs D)
      → get_block_num dev lba inode i fs ≢ 0
      → block_to_write dev lba i inode fs ≡ (some (get_block_num dev lba inode i fs), inode, fs)
  unfolding block_to_write
  block_to_write-there i fs nz =
      let there : (get_block_num dev lba inode i fs == 0) ≡ false = ground arith in rw there refl

  write_in_block-some :
      (b o : ℕ) (bytes : List ℕ) (fs : Fs D) {buf : List ℕ}
      → read_block dev lba b fs ≡ some buf
      → write_in_block dev lba b o bytes fs ≡ write_block dev lba b (put_bytes o bytes buf) fs
  unfolding write_in_block
  write_in_block-some b o bytes fs e = rw (e, write_in_block)

  -- A round of the loop, with the block that it found.
  round : ℕ → ℕ → List ℕ → ℕ → Option ℕ × List ℕ × Fs D → ℕ × List ℕ × Fs D
  round rounds at bytes size found =
      let n : ℕ = in_block size at (length bytes) in
      if length bytes == 0 then (0, inode, found.2) else elim found.0 [
        | none ↦ (0, found.1, found.2)
        | some block ↦
            let out = write_in_block dev lba block (at % size) (take n bytes) found.2 in
            let rest = write_bytes dev lba rounds (at + n) (drop n bytes) found.1 out.1 in
            if out.0 then (n + rest.0, rest.1, rest.2) else (0, found.1, out.1)
      ]

  round-there :
      (rounds at : ℕ) (bytes : List ℕ) (fs : Fs D) (b : ℕ) {buf : List ℕ}
      → 0 < length bytes
      → read_block dev lba b fs ≡ some buf
      → let size : ℕ = block_size fs.sb in
        let n : ℕ = in_block size at (length bytes) in
        let fs' : Fs D = (write_block dev lba b (put_bytes (at % size) (take n bytes) buf) fs).1 in
        let rest = write_bytes dev lba rounds (at + n) (drop n bytes) inode fs' in
        round rounds at bytes size (some b, inode, fs) ≡ (n + rest.0, rest.1, rest.2)
  unfolding round
  round-there rounds at bytes fs b {buf} more e =
      let size : ℕ = block_size fs.sb in
      let n : ℕ = in_block size at (length bytes) in
      let more' : (length bytes == 0) ≡ false = ground arith in
      let put = write_in_block-some b (at % size) (take n bytes) fs {buf = buf} e in
      let ok = write_block-true stores lba b (put_bytes (at % size) (take n bytes) buf) fs in
      rw (more', put, ok) refl

  round_lem :
      (rounds at : ℕ) (bytes : List ℕ) (fs : Fs D)
      → 0 < length bytes
      → write_bytes dev lba (suc rounds) at bytes inode fs
        ≡ round rounds at bytes
            (block_size fs.sb)
            (block_to_write dev lba (at / block_size fs.sb % 2 ^ 32) inode fs)
  unfolding round write_bytes
  round_lem rounds at bytes fs more =
      let more' : (length bytes == 0) ≡ false = ground arith in rw more' refl

  -- A round that finds its block.
  pub write_bytes-step :
      (rounds at : ℕ) (bytes : List ℕ) (fs : Fs D) (blocks : ℕ → List ℕ)
      → 0 < length bytes
      → at + length bytes ≤ limit
      → limit < 2 ^ 32
      → Laid dev lba inode fs blocks limit
      → let size : ℕ = block_size fs.sb in
        let n : ℕ = in_block size at (length bytes) in
        let q : ℕ = at / size in
        let fs' : Fs D =
          written dev lba inode stores limit q
            (put_bytes (at % size) (take n bytes) (blocks q))
            fs in
        let rest = write_bytes dev lba rounds (at + n) (drop n bytes) inode fs' in
        write_bytes dev lba (suc rounds) at bytes inode fs ≡ (n + rest.0, rest.1, rest.2)
  unfolding written
  write_bytes-step rounds at bytes fs blocks more fits small laid =
      let size : ℕ = block_size fs.sb in
      let q : ℕ = at / size in
      let n : ℕ = in_block size at (length bytes) in
      let below : q * size < limit = omega (arith, div-mul-le_self at size) in
      let word : q % 2 ^ 32 ≡ q = mod-eq_of_lt (omega (arith, div-le_self at size)) in
      let found = block_to_write-there q fs (laid.readable.block_there q below) in
      round_lem rounds at bytes fs more
      ∙ ap (round rounds at bytes size) (ap (λ i. block_to_write dev lba i inode fs) word ∙ found)
      ∙ round-there rounds at bytes fs (get_block_num dev lba inode q fs) more
          (laid.readable.block_read q below)
