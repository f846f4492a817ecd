-- ===== src/Ext2/Balloc/Alloc.antt =====
-- What `AllocBlock` takes, on a device that stores.
use mathlib.Core.Option.{some-injective}
use info.Prelude.{
  ◌*◌, ◌++◌, length, ℕ, subst, zero, suc, ◌+◌, ◌-◌, ◌≤◌, ◌<◌, ◌≡◌, refl, sym, ap, ◌∙◌, ◌≢◌, ◌⊎◌,
  inl, inr, true, Option, none, some, List, arith, ◌==◌, Bool-cases, Option-cases,
}
use info.Prelude.Bits.{marked}
use info.Ext2.Device.{BlockDevice, Stores}
use info.Ext2.{
  Fs, group_desc_size, s_blocks_count, s_blocks_per_group, bg_block_bitmap, bg_free_blocks_count,
  read_block, read_group_desc,
}
use info.Ext2.Balloc.{
  group_count, first_bit, free_bit, search_block, alloc_block_in, alloc_block_from, alloc_block,
}
use info.Ext2.Blocks.{block_bytes, read_block-length}
use info.Ext2.Balloc.Search.{
  FirstClear, marked-append, FirstClear-append, free_bit-none, none-some, free_bit_lem,
}
use info.Ext2.Balloc.Take.{Taken, take_block-Taken}

module _ {D : Type 0} (dev : BlockDevice D) (lba : ℕ) where
  -- The bitmap of a group, if the call reads it, has no clear bit from the first one on that it tries.
  unfoldable pub NoneFree : ℕ → Fs D → Type 0
  NoneFree group fs =
      (gd bitmap : List ℕ)
      → read_group_desc dev lba group fs ≡ some gd
      → bg_free_blocks_count gd ≢ 0
      → read_block dev lba (bg_block_bitmap gd) fs ≡ some bitmap
      → (j : ℕ) → first_bit group fs.sb ≤ j
      → j < first_bit group fs.sb + (s_blocks_per_group fs.sb - first_bit group fs.sb)
      → marked bitmap j ≡ true

  module _ (stores : Stores dev) where
    -- A round of the loop.
    unfoldable Round : ℕ → Fs D → Option (ℕ × Fs D) → Type 0
    Round group fs none = NoneFree group fs
    Round group fs (some out) = Taken dev stores lba fs out

    search_block-Round :
        (group : ℕ) (gd bitmap : List ℕ) (fs : Fs D)
        → 4 ≤ lba
        → s_blocks_per_group fs.sb ≤ block_bytes fs.sb * 8
        → read_group_desc dev lba group fs ≡ some gd
        → read_block dev lba (bg_block_bitmap gd) fs ≡ some bitmap
        → Round group fs (search_block dev lba group gd bitmap fs)
    unfolding search_block Round NoneFree FirstClear
    search_block-Round group gd bitmap fs h room desc bits =
        let first : ℕ = first_bit group fs.sb in
        let rounds : ℕ = s_blocks_per_group fs.sb - first in
        let long : length bitmap ≡ block_bytes fs.sb =
          read_block-length stores lba (bg_block_bitmap gd) fs bits in
        let inside : (j : ℕ) → first ≤ j → j < first + rounds → j < length bitmap * 8 =
          λ j l u. omega (arith, long, room, l, u) in
        elim (Option-cases (free_bit rounds first (bitmap ++ dev.behind))) [
          | inl e ↦
              rw (e, search_block)
                (λ gd' bitmap' desc' some_free bits' j l u.
                  let same = some-injective gd gd' (sym desc ∙ desc') in
                  let bits'' = ap (λ g. read_block dev lba (bg_block_bitmap g) fs) same ∙ bits' in
                  let same_map = some-injective bitmap bitmap' (sym bits ∙ bits'') in
                  subst (λ m. marked m j ≡ true) same_map
                    (sym (marked-append bitmap dev.behind j (inside j l u))
                      ∙ free_bit-none rounds first (bitmap ++ dev.behind) e j l u))
          | inr (i, e) ↦
              let found : FirstClear first (first + rounds) bitmap i =
                FirstClear-append first (first + rounds) bitmap dev.behind i inside
                  (free_bit_lem rounds first (bitmap ++ dev.behind) {k = i} e) in
              rw (e, search_block)
                (take_block-Taken dev stores lba group gd bitmap i fs h desc bits found
                  (omega (arith, long, inside i found.0 found.1)))
        ]

    alloc_block_in-Round :
        (group : ℕ) (fs : Fs D)
        → 4 ≤ lba
        → s_blocks_per_group fs.sb ≤ block_bytes fs.sb * 8
        → Round group fs (alloc_block_in dev lba group fs)
    unfolding alloc_block_in Round NoneFree
    alloc_block_in-Round group fs h room = elim (Option-cases (read_group_desc dev lba group fs)) [
      | inl e ↦ rw (e, alloc_block_in) (λ gd bitmap desc. none-some (sym e ∙ desc))
      | inr (gd, e) ↦ elim (Bool-cases (bg_free_blocks_count gd == 0)) [
        | inl full ↦
            rw (e, full, alloc_block_in)
              (λ gd' bitmap desc some_free.
                let same = some-injective gd gd' (sym e ∙ desc) in
                let empty : bg_free_blocks_count gd ≡ 0 = ground arith in
                absurd (some_free (ap bg_free_blocks_count (sym same) ∙ empty)))
        | inr free ↦ elim (Option-cases (read_block dev lba (bg_block_bitmap gd) fs)) [
          | inl f ↦
              rw (e, free, f, alloc_block_in)
                (λ gd' bitmap desc some_free bits.
                  let same = some-injective gd gd' (sym e ∙ desc) in
                  none-some
                    (sym f ∙ ap (λ g. read_block dev lba (bg_block_bitmap g) fs) same ∙ bits))
          | inr (bitmap, f) ↦
              rw (e, free, f, alloc_block_in) (search_block-Round group gd bitmap fs h room e f)
        ]
      ]
    ]

    alloc_block_from_lem :
        (left group : ℕ) (fs : Fs D)
        → 4 ≤ lba
        → s_blocks_per_group fs.sb ≤ block_bytes fs.sb * 8
        → let out = alloc_block_from dev lba left group fs in
          ((out ≡ (0, fs)) × ((g : ℕ) → group ≤ g → g < group + left → NoneFree g fs))
          ⊎ Taken dev stores lba fs out
    unfolding alloc_block_from Round
    alloc_block_from_lem zero group fs h room = inl (refl, λ g l u. absurd (omega arith))
    alloc_block_from_lem (suc left) group fs h room =
        let first = alloc_block_in-Round group fs h room in
        elim (Option-cases (alloc_block_in dev lba group fs)) [
          | inr (out, e) ↦
              let found : Taken dev stores lba fs out = subst (Round group fs) e first in
              rw (e, alloc_block_from) (inr found)
          | inl e ↦
              let nothing : NoneFree group fs = subst (Round group fs) e first in
              rw (e, alloc_block_from)
                (elim (alloc_block_from_lem left (group + 1) fs h room) [
                  | inr taken ↦ inr taken
                  | inl (same, below) ↦ inl (
                    same,
                    λ g l u. elim (Bool-cases (g == group)) [
                      | inl at ↦
                          let here : group ≡ g = ground arith in
                          subst (λ k. NoneFree k fs) here nothing
                      | inr past ↦ below g (ground arith) (omega arith)
                    ],
                  )
                ])
        ]

    -- On a device that stores, in a partition that starts at sector 4 or later, with at least
    -- one block in a group, no more blocks in a group than a bitmap of one block has bits, and
    -- descriptors of all groups that lie in one block, AllocBlock either returns 0 with nothing
    -- changed, and no bitmap of a group with free blocks, if it can be read, has a clear bit
    -- among those that the call tries; or takes the first clear bit of the bitmap of a group,
    -- which is a bit of the bitmap, returns the block of that bit, filled with zeros, and, if
    -- the bitmap is neither in the block of the descriptors nor in the block returned, leaves on
    -- the disk the bitmap with that bit set.
    pub alloc_block_lem :
        (fs : Fs D)
        → 4 ≤ lba
        → s_blocks_per_group fs.sb ≢ 0
        → s_blocks_per_group fs.sb ≤ block_bytes fs.sb * 8
        → group_count (s_blocks_count fs.sb) (s_blocks_per_group fs.sb) * group_desc_size
          ≤ block_bytes fs.sb
        → let out = alloc_block dev lba fs in
          let groups : ℕ = group_count (s_blocks_count fs.sb) (s_blocks_per_group fs.sb) in
          ((out ≡ (0, fs)) × ((g : ℕ) → g < groups → NoneFree g fs)) ⊎ Taken dev stores lba fs out
    unfolding alloc_block
    alloc_block_lem fs h divisor room described =
        let groups : ℕ = group_count (s_blocks_count fs.sb) (s_blocks_per_group fs.sb) in
        elim (alloc_block_from_lem groups 0 fs h room) [
          | inl (same, below) ↦ inl (same, λ g u. below g (omega arith) (omega arith))
          | inr taken ↦ inr taken
        ]
