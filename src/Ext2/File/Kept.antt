-- ===== src/Ext2/File/Kept.antt =====
-- What a write to blocks of a file keeps of the rest of the disk.
use info.Prelude.{ℕ, subst, ◌*◌, ◌<◌, ◌≡◌, refl, sym, ap, ◌∙◌, ◌≢◌, List}
use info.Ext2.Device.{BlockDevice, Stores}
use info.Ext2.{Fs, block_size, read_block, write_block}
use info.Ext2.Blocks.{read_block-write_block_ne}
use info.Ext2.BlockMap.{ptrs_per_block, block_path, get_block_num}
use info.Ext2.BlockMap.Chains.{NotOn-Same, Same-write_block, walk-Same}
use info.Ext2.Inode.{i_block}
use info.Ext2.File.Reads.{Readable}
use info.Ext2.File.Layout.{Laid, OffPath, written, get_block_num-written}

module _ {D : Type 0} (dev : BlockDevice D) (lba : ℕ) (inode : List ℕ) (limit : ℕ) where
  -- The block is none of the blocks with the bytes of the file.
  abbrev pub OffBlocks : ℕ → Fs D → Type 0
  OffBlocks c fs = (q : ℕ) → q * block_size fs.sb < limit → get_block_num dev lba inode q fs ≢ c

  -- The blocks that are no blocks of the file are as they were, and so are the ways to its blocks.
  pub record Kept (fs fs' : Fs D) : Type 0 where
    pub sb_kept : fs'.sb ≡ fs.sb
    pub elsewhere : (c : ℕ) → OffBlocks c fs → read_block dev lba c fs' ≡ read_block dev lba c fs
    pub numbers :
        (q : ℕ)
        → q * block_size fs.sb < limit
        → get_block_num dev lba inode q fs' ≡ get_block_num dev lba inode q fs
    pub paths :
        (c q : ℕ)
        → q * block_size fs.sb < limit
        → OffPath dev lba inode c q fs
        → OffPath dev lba inode c q fs'

  pub Kept-none : (fs : Fs D) → Kept fs fs
  Kept-none fs = record {
    sb_kept = refl;
    elsewhere = λ c off. refl;
    numbers = λ q h. refl;
    paths = λ c q h off. off;
  }

  pub Kept-off : (fs fs' : Fs D) → Kept fs fs' → (c : ℕ) → OffBlocks c fs → OffBlocks c fs'
  Kept-off fs fs' k c off q h e =
      let same : block_size fs'.sb ≡ block_size fs.sb = ap block_size k.sb_kept in
      let below : q * block_size fs.sb < limit = subst (λ n. q * n < limit) same h in
      off q below (sym (k.numbers q below) ∙ e)

  pub Kept-next : (fs fs' fs'' : Fs D) → Kept fs fs' → Kept fs' fs'' → Kept fs fs''
  Kept-next fs fs' fs'' k l =
      let same : block_size fs.sb ≡ block_size fs'.sb = ap block_size (sym k.sb_kept) in
      let below : (q : ℕ) → q * block_size fs.sb < limit → q * block_size fs'.sb < limit =
        λ q h. subst (λ n. q * n < limit) same h in
      record {
        sb_kept = l.sb_kept ∙ k.sb_kept;
        elsewhere = λ c off. l.elsewhere c (Kept-off fs fs' k c off) ∙ k.elsewhere c off;
        numbers = λ q h. l.numbers q (below q h) ∙ k.numbers q h;
        paths = λ c q h off. l.paths c q (below q h) (k.paths c q h off);
      }

  pub written-Kept :
      (stores : Stores dev) (q : ℕ) (buf : List ℕ) (fs : Fs D) {blocks : ℕ → List ℕ}
      → q * block_size fs.sb < limit
      → Laid dev lba inode fs blocks limit
      → Kept fs (written dev lba inode stores limit q buf fs)
  unfolding written write_block OffPath
  written-Kept stores q buf fs h l =
      let b : ℕ = get_block_num dev lba inode q fs in
      record {
        sb_kept = refl;
        elsewhere = λ c off. read_block-write_block_ne stores lba b c buf fs (off q h);
        numbers = λ r hr.
            get_block_num-written dev lba inode stores limit q r buf fs (l.off_paths q r h hr);
        paths = λ c r hr off.
            let path = block_path (ptrs_per_block fs.sb) r in
            NotOn-Same dev lba b c path.1 (i_block path.0 inode) fs (write_block dev lba b buf fs).1
              (Same-write_block dev lba stores b buf fs) (l.off_paths q r h hr) off;
      }

  -- A write of a block that is no part of the file.
  pub Readable-write_apart :
      (stores : Stores dev) (c : ℕ) (buf : List ℕ) (fs : Fs D) (blocks : ℕ → List ℕ)
      → OffBlocks c fs
      → ((q : ℕ) → q * block_size fs.sb < limit → OffPath dev lba inode c q fs)
      → Readable dev lba inode fs blocks limit
      → Readable dev lba inode (write_block dev lba c buf fs).1 blocks limit
  unfolding write_block get_block_num OffPath
  Readable-write_apart stores c buf fs blocks off off_paths r =
      let fs' : Fs D = (write_block dev lba c buf fs).1 in
      let same : (q : ℕ)
          → q * block_size fs.sb < limit
          → get_block_num dev lba inode q fs' ≡ get_block_num dev lba inode q fs =
        λ q h.
          let path = block_path (ptrs_per_block fs.sb) q in
          walk-Same dev lba c path.1 (i_block path.0 inode) fs fs'
            (Same-write_block dev lba stores c buf fs) (off_paths q h) in
      record {
        block_there = λ q h e. r.block_there q h (sym (same q h) ∙ e);
        block_read = λ q h.
            ap (λ n. read_block dev lba n fs') (same q h)
            ∙ read_block-write_block_ne stores lba c (get_block_num dev lba inode q fs) buf fs
                (λ e. off q h (sym e))
            ∙ r.block_read q h;
        block_full = r.block_full;
      }
