-- ===== src/Ext2/Balloc/Take.antt =====
-- A block that `AllocBlock` takes once it has found its bit, on a device that stores.
use info.Prelude.{
  ℕ, subst, ◌+◌, ◌-◌, ◌*◌, ◌/◌, ◌%◌, ◌^◌, ◌≤◌, ◌≡◌, refl, sym, ap, ◌∙◌, ◌≢◌, inl, inr, some, List,
  true, ◌<◌, arith, Option-cases, length, replicate, length-replicate,
}
use info.Prelude.Bits.{marked, mark, length-mark, marked-mark_self}
use info.Prelude.Words.{put_bytes, word32-put32_ne}
use info.Ext2.Device.{BlockDevice, Stores}
use info.Ext2.{
  Fs, s_blocks_per_group, s_free_blocks_count, block_size, sectors, bg_block_bitmap,
  bg_free_blocks_count, gd_block, group_desc_size, read_block, write_block, read_group_desc,
  write_group_desc, write_super_block,
}
use info.Ext2.Blocks.{
  block_bytes, read_block-length, write_block-true, read_block-write_block_self,
  read_block-write_block_ne,
}
use info.Ext2.Balloc.{
  dec16, dec32, set_free_blocks, set_sb_free_blocks, first_bit, write_counts, take_block,
}
use info.Ext2.Balloc.Search.{FirstClear}

sectors-count : (v : ℕ) (sb : List ℕ) → sectors (set_sb_free_blocks v sb) ≡ sectors sb
unfolding block_size
sectors-count v sb =
    ap (λ w. (1024 * 2 ^ w) % 2 ^ 32 / 512) (word32-put32_ne 12 24 v sb (inr (omega arith)))

module _ {D : Type 0} (dev : BlockDevice D) (stores : Stores dev) (lba : ℕ) where
  read_block-resize :
      (b : ℕ) (sb : List ℕ) (fs : Fs D)
      → sectors sb ≡ sectors fs.sb
      → read_block dev lba b (record fs { sb = sb }) ≡ read_block dev lba b fs
  unfolding read_block
  read_block-resize b sb fs e = ap (λ n. dev.read (lba + b * n) n fs.disk) e

  read_block-write_super_block :
      (b : ℕ) (fs : Fs D)
      → 4 ≤ lba
      → read_block dev lba b (write_super_block dev fs).1 ≡ read_block dev lba b fs
  unfolding read_block write_super_block
  read_block-write_super_block b fs h =
      stores.read-write_apart 2 2 (lba + b * sectors fs.sb) (sectors fs.sb) _ fs.disk
        (inr (omega arith))

  read_block-write_group_desc :
      (group : ℕ) (gd : List ℕ) (fs : Fs D) (b : ℕ)
      → b ≢ gd_block
      → read_block dev lba b (write_group_desc dev lba group gd fs).1 ≡ read_block dev lba b fs
  unfolding write_group_desc
  read_block-write_group_desc group gd fs b ne =
      elim (Option-cases (read_block dev lba gd_block fs)) [
        | inl e ↦ rw (e, write_group_desc)
        | inr (buf, e) ↦
            rw (e, write_group_desc)
              (read_block-write_block_ne stores lba gd_block b
                (put_bytes (group * group_desc_size) gd buf) fs (λ q. ne (sym q)))
      ]

  -- A write of the counts changes the block of the descriptors and no other.
  write_counts_lem :
      (group : ℕ) (gd sb : List ℕ) (fs : Fs D) (b : ℕ)
      → 4 ≤ lba
      → b ≢ gd_block
      → sectors sb ≡ sectors fs.sb
      → read_block dev lba b (write_counts dev lba group gd sb fs) ≡ read_block dev lba b fs
  unfolding write_counts
  write_counts_lem group gd sb fs b h ne e =
      read_block-write_super_block b _ h
      ∙ read_block-write_group_desc group gd (record fs { sb = sb }) b ne
      ∙ read_block-resize b sb fs e

  write_group_desc-sb :
      (group : ℕ) (gd : List ℕ) (fs : Fs D) → (write_group_desc dev lba group gd fs).1.sb ≡ fs.sb
  unfolding write_group_desc write_block
  write_group_desc-sb group gd fs = elim (Option-cases (read_block dev lba gd_block fs)) [
    | inl e ↦ rw (e, write_group_desc)
    | inr (buf, e) ↦ rw (e, write_group_desc)
  ]

  write_counts-sb :
      (group : ℕ) (gd sb : List ℕ) (fs : Fs D) → (write_counts dev lba group gd sb fs).sb ≡ sb
  unfolding write_counts write_super_block
  write_counts-sb group gd sb fs = write_group_desc-sb group gd (record fs { sb = sb })

  -- What a call took: the first block that is clear in the bitmap of a group, from the first bit that
  -- the call tries on; and what it left in the bitmap.
  pub record Taken (fs : Fs D) (out : ℕ × Fs D) : Type 0 where
    pub group : ℕ
    pub bit : ℕ
    pub gd : List ℕ
    pub bitmap : List ℕ
    pub desc_read : read_group_desc dev lba group fs ≡ some gd
    pub bitmap_read : read_block dev lba (bg_block_bitmap gd) fs ≡ some bitmap
    pub first_clear :
        FirstClear
          (first_bit group fs.sb)
          (first_bit group fs.sb + (s_blocks_per_group fs.sb - first_bit group fs.sb))
          bitmap
          bit
    pub number : out.0 ≡ (group * s_blocks_per_group fs.sb + bit) % 2 ^ 32
    pub bit_set : marked (mark bitmap bit) bit ≡ true
    pub marked_after :
        bg_block_bitmap gd ≢ gd_block
        → bg_block_bitmap gd ≢ out.0
        → read_block dev lba (bg_block_bitmap gd) out.1 ≡ some (mark bitmap bit)
    pub zeros : read_block dev lba out.0 out.1 ≡ some (replicate (block_size fs.sb) 0)

  -- The state once the bit is set and the counts are written.
  counted : ℕ → List ℕ → List ℕ → ℕ → Fs D → Fs D
  counted group gd bitmap i fs =
      write_counts dev lba group (set_free_blocks (dec16 (bg_free_blocks_count gd)) gd)
        (set_sb_free_blocks (dec32 (s_free_blocks_count fs.sb)) fs.sb)
        (write_block dev lba (bg_block_bitmap gd) (mark bitmap i) fs).1

  take_block-call :
      (group : ℕ) (gd bitmap : List ℕ) (i : ℕ) (fs : Fs D)
      → let n : ℕ = (group * s_blocks_per_group fs.sb + i) % 2 ^ 32 in
        take_block dev lba group gd bitmap i fs ≡ (
          n,
          (write_block dev lba n (replicate (block_size fs.sb) 0) (counted group gd bitmap i fs)).1,
        )
  unfolding take_block counted
  take_block-call group gd bitmap i fs =
      let ok = write_block-true stores lba (bg_block_bitmap gd) (mark bitmap i) fs in rw ok refl

  whole_sectors : (sb : List ℕ) → block_size sb ≡ sectors sb * 512
  unfolding block_size
  whole_sectors sb = omega arith

  pub take_block-Taken :
      (group : ℕ) (gd bitmap : List ℕ) (i : ℕ) (fs : Fs D)
      → 4 ≤ lba
      → read_group_desc dev lba group fs ≡ some gd
      → read_block dev lba (bg_block_bitmap gd) fs ≡ some bitmap
      → FirstClear
          (first_bit group fs.sb)
          (first_bit group fs.sb + (s_blocks_per_group fs.sb - first_bit group fs.sb))
          bitmap
          i
      → i < block_bytes fs.sb * 8
      → Taken fs (take_block dev lba group gd bitmap i fs)
  unfolding counted write_block
  take_block-Taken group gd bitmap i fs h desc bits clear inside =
      let b : ℕ = bg_block_bitmap gd in
      let n : ℕ = (group * s_blocks_per_group fs.sb + i) % 2 ^ 32 in
      let sb : List ℕ = set_sb_free_blocks (dec32 (s_free_blocks_count fs.sb)) fs.sb in
      let set_fs : Fs D = (write_block dev lba b (mark bitmap i) fs).1 in
      let mid : Fs D = counted group gd bitmap i fs in
      let zero_block : List ℕ = replicate (block_size fs.sb) 0 in
      let resize = sectors-count (dec32 (s_free_blocks_count fs.sb)) fs.sb in
      let fits = length-mark bitmap i ∙ read_block-length stores lba b fs bits in
      let mid_sectors : sectors mid.sb ≡ sectors fs.sb =
        ap sectors (write_counts-sb group _ sb set_fs) ∙ resize in
      let zeros_fit : length zero_block ≡ sectors mid.sb * 512 =
        length-replicate (block_size fs.sb) 0
        ∙ whole_sectors fs.sb
        ∙ ap (λ s. s * 512) (sym mid_sectors) in
      subst (Taken fs) (sym (take_block-call group gd bitmap i fs)) (record {
        group = group;
        bit = i;
        gd = gd;
        bitmap = bitmap;
        desc_read = desc;
        bitmap_read = bits;
        first_clear = clear;
        number = refl;
        bit_set =
            marked-mark_self bitmap i
              (omega (arith, read_block-length stores lba b fs bits, inside));
        marked_after = λ off other.
            read_block-write_block_ne stores lba n b zero_block mid (λ e. other (sym e))
            ∙ write_counts_lem group _ sb set_fs b h off resize
            ∙ read_block-write_block_self stores lba b (mark bitmap i) fs fits;
        zeros = read_block-write_block_self stores lba n zero_block mid zeros_fit;
      })
