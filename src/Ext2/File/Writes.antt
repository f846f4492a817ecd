-- ===== src/Ext2/File/Writes.antt =====
-- `WriteFile` inside a file whose blocks are all there, and `ReadFile` after it.
use native.Mathlib.Nat.{div-mul-le_self, mod-lt}
use info.Prelude.{
  ℕ, subst, zero, suc, ◌+◌, ◌-◌, ◌*◌, ◌/◌, ◌%◌, ◌^◌, ◌≤◌, ◌<◌, min, ◌≡◌, refl, sym, ap, ◌∙◌, ◌⊎◌,
  inl, inr, false, List, [], ◌∷◌, arith, ltb, length, take, drop, length-drop,
}
use info.Prelude.Int.{ℤ, pos}
use info.Prelude.Words.{put_bytes, length-put_bytes}
use info.Ext2.Device.{BlockDevice, Stores}
use info.Ext2.{Fs, block_size, write_block}
use info.Ext2.Inode.{i_size, is_directory}
use info.Ext2.File.{in_block, write_bytes, write_file, read_file}
use info.Ext2.File.Contents.{contents, contents_eq, contents_same, update}
use info.Ext2.File.Reads.{read_file_lem}
use info.Ext2.File.Layout.{Laid, written, Laid-written}
use info.Ext2.File.Kept.{written-Kept}
use info.Ext2.File.Rounds.{write_bytes-step}
use info.Ext2.File.Wrote.{Wrote, Wrote-none, Wrote-step}

module _ {D : Type 0} (dev : BlockDevice D) (lba : ℕ) (inode : List ℕ) (stores : Stores dev)
    (limit : ℕ) where
  pub write_bytes_lem :
      (rounds at : ℕ) (bytes : List ℕ) (fs : Fs D) (blocks : ℕ → List ℕ)
      → length bytes ≤ rounds
      → at + length bytes ≤ limit
      → 0 < block_size fs.sb
      → limit < 2 ^ 32
      → Laid dev lba inode fs blocks limit
      → Wrote dev lba inode stores limit at bytes fs blocks
          (write_bytes dev lba rounds at bytes inode fs)
  unfolding written write_block
  write_bytes_lem rounds at [] fs blocks enough fits some_size small laid =
      Wrote-none dev lba inode stores limit rounds at fs blocks laid
  write_bytes_lem zero at (x ∷ xs) fs blocks enough fits some_size small laid = absurd (omega arith)
  write_bytes_lem (suc rounds) at (x ∷ xs) fs blocks enough fits some_size small laid =
      let bytes : List ℕ = x ∷ xs in
      let size : ℕ = block_size fs.sb in
      let q : ℕ = at / size in
      let n : ℕ = in_block size at (length bytes) in
      let put : List ℕ = put_bytes (at % size) (take n bytes) (blocks q) in
      let fs' : Fs D = written dev lba inode stores limit q put fs in
      let room = mod-lt at some_size in
      let some_bytes : 0 < n = ground (arith, room) in
      let no_more : n ≤ length bytes = ground (arith, room) in
      let in_one : at % size + n ≤ size = ground (arith, room) in
      let below : q * size < limit = omega (arith, div-mul-le_self at size) in
      let left = length-drop n bytes in
      let after : Laid dev lba inode fs' (update q put blocks) limit =
        Laid-written dev lba inode stores limit q put fs blocks below
          (length-put_bytes (at % size) (take n bytes) (blocks q)) laid in
      let rest = write_bytes dev lba rounds (at + n) (drop n bytes) inode fs' in
      let w : Wrote dev lba inode stores limit (at + n) (drop n bytes) fs' (update q put blocks)
          rest =
        write_bytes_lem rounds (at + n) (drop n bytes) fs' (update q put blocks) (omega arith)
          (omega arith) some_size small after in
      subst (Wrote dev lba inode stores limit at bytes fs blocks)
        (sym (
          write_bytes-step dev lba inode stores limit rounds at bytes fs blocks (omega arith) fits
            small laid))
        (Wrote-step dev lba inode stores limit at n bytes fs fs' blocks rest in_one no_more
          (laid.readable.block_full q below) refl
          (written-Kept dev lba inode limit stores q put fs below laid) w)

module _ {D : Type 0} (dev : BlockDevice D) (lba : ℕ) (inode : List ℕ) where
  -- What a write leaves for the reads after it.
  unfoldable pub Left : List ℕ → ℕ → Fs D → ℤ × List ℕ × Fs D → Type 0
  Left bytes offset fs out =
      (out.0 ≡ pos (length bytes))
      × (out.1 ≡ inode)
      × (read_file dev lba inode (length bytes) offset out.2 ≡ (pos (length bytes), bytes))
      × ((count at : ℕ)
          → (at + count ≤ offset) ⊎ (offset + length bytes ≤ at)
          → at + count < 2 ^ 64
          → read_file dev lba inode count at out.2 ≡ read_file dev lba inode count at fs)

  pub write_file-call :
      (bytes : List ℕ) (offset : ℕ) (fs : Fs D)
      → is_directory inode ≡ false
      → i_size inode < 2 ^ 32
      → offset + length bytes ≤ i_size inode
      → let out = write_bytes dev lba (length bytes) offset bytes inode fs in
        write_file dev lba inode bytes offset fs ≡ (pos out.0, out.1, out.2)
  unfolding write_file
  write_file-call bytes offset fs file small fits =
      let kept : ltb (i_size inode) ((offset + length bytes) % 2 ^ 64) ≡ false = ground arith in
      rw (file, kept) refl

  -- On a device that stores, for bytes that end within the size of a file, not a directory, with
  -- blocks of at least one byte and a size below 2 ^ 32, whose blocks are all there, are
  -- different and are no blocks of pointers, WriteFile returns the count of the bytes and leaves
  -- the inode as it is; ReadFile at the same offset then gives these bytes, and ReadFile of any
  -- range apart from them, without overflow of its offset, gives what it gave before.
  pub write_file_lem :
      (stores : Stores dev)
      → (bytes : List ℕ) (offset : ℕ) (fs : Fs D) (blocks : ℕ → List ℕ) → is_directory inode ≡ false
      → 0 < block_size fs.sb
      → i_size inode < 2 ^ 32
      → offset + length bytes ≤ i_size inode
      → Laid dev lba inode fs blocks (i_size inode)
      → Left bytes offset fs (write_file dev lba inode bytes offset fs)
  unfolding Left
  write_file_lem stores bytes offset fs blocks file some_size small fits laid =
      let limit : ℕ = i_size inode in
      let size : ℕ = block_size fs.sb in
      let n : ℕ = length bytes in
      let out : ℕ × List ℕ × Fs D = write_bytes dev lba n offset bytes inode fs in
      let w : Wrote dev lba inode stores limit offset bytes fs blocks out =
        write_bytes_lem dev lba inode stores limit n offset bytes fs blocks (omega arith) fits
          some_size small laid in
      let resize : block_size out.2.sb ≡ size = ap block_size w.same_sb in
      let reads : (count at : ℕ)
          → at + count < 2 ^ 64
          → read_file dev lba inode count at out.2
            ≡ (pos (min count (limit - at)), contents size w.after at (min count (limit - at))) =
        λ count at no_wrap.
          read_file_lem dev lba inode out.2 w.after count at file (omega arith) small no_wrap
            w.laid.readable
          ∙ ap (λ s. (pos (min count (limit - at)), contents s w.after at (min count (limit - at))))
              resize in
      let all : min n (limit - offset) ≡ n = omega arith in
      subst (Left bytes offset fs) (sym (write_file-call bytes offset fs file small fits)) (
        ap pos w.count,
        w.same_inode,
        reads n offset (omega arith)
            ∙ ap (λ m. (pos m, contents size w.after offset m)) all
            ∙ ap (λ l. (pos n, l)) (contents_eq size w.after offset bytes w.here),
        λ count at apart no_wrap.
            reads count at no_wrap
            ∙ ap (λ l. (pos (min count (limit - at)), l))
                (contents_same size blocks w.after at (min count (limit - at)) (λ k h.
                  w.others (at + k)
                    (elim apart [ inl a ↦ inl (omega arith) | inr b ↦ inr (omega arith) ])))
            ∙ sym (
                read_file_lem dev lba inode fs blocks count at file some_size small no_wrap
                  laid.readable),
      )
