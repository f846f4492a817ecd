-- ===== src/Ext2/Inode/Table.antt =====
-- The table of inodes on a device that stores.
use info.Prelude.{
  ◌*◌, ◌<◌, ◌%◌, ◌^◌, ℕ, suc, ◌+◌, ◌≤◌, ◌≡◌, sym, ap, ◌∙◌, ◌≢◌, inl, inr, Bool, true, false, none,
  some, List, arith, ◌==◌, Option-cases, length, replicate,
}
use info.Prelude.Words.{put_bytes, slice, length-put_bytes, slice-put_bytes_self}
use info.Ext2.Device.{BlockDevice, Stores}
use info.Ext2.{
  Fs, group_desc_size, gd_block, read_block, write_block, read_group_desc, read_super_block,
  write_super_block, s_magic,
}
use info.Ext2.Blocks.{
  block_bytes, read_block-length, write_block-true, read_block-write_block_self,
  read_block-write_block_ne,
}
use info.Ext2.Inode.{
  Divides, inode_bytes, inode_group, inode_block, inode_offset, read_inode, write_inode,
}

module _ {D : Type 0} {dev : BlockDevice D} (stores : Stores dev) (lba : ℕ) where
  read_inode-some :
      (n : ℕ) (fs : Fs D) {gd buf : List ℕ}
      → read_group_desc dev lba (inode_group n fs.sb) fs ≡ some gd
      → read_block dev lba (inode_block n gd fs.sb) fs ≡ some buf
      → read_inode dev lba (suc n) fs ≡ some (slice (inode_offset n fs.sb) inode_bytes buf)
  unfolding read_inode
  read_inode-some n fs e f = rw (e, f, read_inode)

  pub write_inode-some :
      (n : ℕ) (inode : List ℕ) (fs : Fs D) {gd buf : List ℕ}
      → read_group_desc dev lba (inode_group n fs.sb) fs ≡ some gd
      → read_block dev lba (inode_block n gd fs.sb) fs ≡ some buf
      → write_inode dev lba (suc n) inode fs
        ≡ write_block dev lba
            (inode_block n gd fs.sb)
            (put_bytes (inode_offset n fs.sb) inode buf)
            fs
  unfolding write_inode
  write_inode-some n inode fs e f = rw (e, f, write_inode)

  read_group_desc-write_block :
      (b g : ℕ) (buf : List ℕ) (fs : Fs D)
      → b ≢ gd_block
      → read_group_desc dev lba g (write_block dev lba b buf fs).1 ≡ read_group_desc dev lba g fs
  unfolding read_group_desc
  read_group_desc-write_block b g buf fs ne =
      let same = read_block-write_block_ne stores lba b gd_block buf fs ne in
      rw (same, read_group_desc)

  -- On a device that stores, for a super block that gives no divisor 0 (the size of an inode,
  -- the inodes of a block and of a group), for inode n + 1 whose group descriptor can be read
  -- and lies in the one block of descriptors that is read, and whose block of the table can be
  -- read, is not the block of the descriptors and holds the whole inode, WriteInode of 128 bytes
  -- succeeds and ReadInode then gives these bytes.
  pub read_inode-write_inode :
      (n : ℕ) (inode : List ℕ) (fs : Fs D) {gd buf : List ℕ}
      → read_group_desc dev lba (inode_group n fs.sb) fs ≡ some gd
      → read_block dev lba (inode_block n gd fs.sb) fs ≡ some buf
      → Divides fs.sb
      → inode_group n fs.sb * group_desc_size + group_desc_size ≤ block_bytes fs.sb
      → inode_block n gd fs.sb ≢ gd_block
      → length inode ≡ inode_bytes
      → inode_offset n fs.sb + inode_bytes ≤ block_bytes fs.sb
      → let out = write_inode dev lba (suc n) inode fs in
        (out.0 ≡ true) × (read_inode dev lba (suc n) out.1 ≡ some inode)
  unfolding write_block
  read_inode-write_inode n inode fs {gd} {buf} e f divides described ne size fits =
      let b : ℕ = inode_block n gd fs.sb in
      let new : List ℕ = put_bytes (inode_offset n fs.sb) inode buf in
      let fs' : Fs D = (write_block dev lba b new fs).1 in
      let wrote = write_inode-some n inode fs {gd = gd} {buf = buf} e f in
      let long : length buf ≡ block_bytes fs.sb = read_block-length stores lba b fs f in
      let long' : length new ≡ block_bytes fs.sb =
        length-put_bytes (inode_offset n fs.sb) inode buf ∙ long in
      let again : read_inode dev lba (suc n) fs'
          ≡ some (slice (inode_offset n fs.sb) inode_bytes new) =
        read_inode-some n fs' {gd = gd} {buf = new}
          (read_group_desc-write_block b (inode_group n fs.sb) new fs ne ∙ e)
          (read_block-write_block_self stores lba b new fs long') in
      (
        ap (λ (o : Bool × Fs D). o.0) wrote ∙ write_block-true stores lba b new fs,
        ap (λ (o : Bool × Fs D). read_inode dev lba (suc n) o.1) wrote
            ∙ again
            ∙ ap some (
                ap (λ k. slice (inode_offset n fs.sb) k new) (sym size)
                ∙ slice-put_bytes_self (inode_offset n fs.sb) inode buf
                    (omega (arith, size, long, fits))),
      )

  read_super_block-some :
      (fs : Fs D) {buf : List ℕ}
      → dev.read ((lba + 2) % 2 ^ 32) 2 fs.disk ≡ some buf
      → read_super_block dev lba fs
        ≡ (s_magic (slice 0 1024 buf) == 0xEF53, record fs { sb = slice 0 1024 buf })
  unfolding read_super_block
  read_super_block-some fs e = rw (e, read_super_block)

  read_super_block-none :
      (fs : Fs D)
      → dev.read ((lba + 2) % 2 ^ 32) 2 fs.disk ≡ none
      → read_super_block dev lba fs ≡ (false, fs)
  unfolding read_super_block
  read_super_block-none fs e = rw (e, read_super_block)

  -- On a device that stores, in a partition that starts at sector 2 or later, with the sector of
  -- its super block below 2 ^ 32, ReadSuperBlock after WriteSuperBlock gives the result and the
  -- super block that it gives without the write: what is written is never read back.
  pub read_super_block-write_super_block :
      (fs : Fs D)
      → 2 ≤ lba
      → lba + 2 < 2 ^ 32
      → let before = read_super_block dev lba fs in
        let after = read_super_block dev lba (write_super_block dev fs).1 in
        (after.0 ≡ before.0) × (after.1.sb ≡ before.1.sb)
  unfolding write_super_block
  read_super_block-write_super_block fs h word =
      let same =
        stores.read-write_apart 2 2 ((lba + 2) % 2 ^ 32) 2 (put_bytes 0 fs.sb (replicate 1024 0))
          fs.disk (inr (omega arith)) in
      let written : Fs D = (write_super_block dev fs).1 in
      elim (Option-cases (dev.read ((lba + 2) % 2 ^ 32) 2 fs.disk)) [
        | inl e ↦
            let p = read_super_block-none written (same ∙ e) in
            let q = read_super_block-none fs e in
            (
              ap (λ (o : Bool × Fs D). o.0) p ∙ sym (ap (λ (o : Bool × Fs D). o.0) q),
              ap (λ (o : Bool × Fs D). o.1.sb) p ∙ sym (ap (λ (o : Bool × Fs D). o.1.sb) q),
            )
        | inr e ↦
            let p = read_super_block-some written {buf = e.0} (same ∙ e.1) in
            let q = read_super_block-some fs {buf = e.0} e.1 in
            (
              ap (λ (o : Bool × Fs D). o.0) p ∙ sym (ap (λ (o : Bool × Fs D). o.0) q),
              ap (λ (o : Bool × Fs D). o.1.sb) p ∙ sym (ap (λ (o : Bool × Fs D). o.1.sb) q),
            )
      ]
