-- ===== src/Ext2/File/Layout.antt =====
-- A file whose blocks are all there, and a write to one of them.
use info.Prelude.{
  ℕ, subst, ◌*◌, ◌<◌, ◌≡◌, refl, sym, ap, ◌∙◌, ◌≢◌, inl, inr, some, List, arith, ◌==◌, Bool-cases,
  length,
}
use info.Ext2.Device.{BlockDevice, Stores}
use info.Ext2.{Fs, block_size, read_block, write_block}
use info.Ext2.Blocks.{read_block-length, read_block-write_block_self, read_block-write_block_ne}
use info.Ext2.BlockMap.{ptrs_per_block, block_path, get_block_num}
use info.Ext2.BlockMap.Chains.{NotOn, NotOn-Same, Same-write_block, walk-Same}
use info.Ext2.Inode.{i_block}
use info.Ext2.File.Contents.{update}
use info.Ext2.File.Reads.{Readable}

module _ {D : Type 0} (dev : BlockDevice D) (lba : ℕ) (inode : List ℕ) where
  -- The block is none of the blocks of pointers on the way to block `r` of the file.
  unfoldable pub OffPath : ℕ → ℕ → Fs D → Type 0
  OffPath c r fs =
      let path = block_path (ptrs_per_block fs.sb) r in
      NotOn dev lba c path.1 (i_block path.0 inode) fs

  -- The blocks of the file are there, and no two of its parts share a block of the disk.
  pub record Laid (fs : Fs D) (blocks : ℕ → List ℕ) (limit : ℕ) : Type 0 where
    pub readable : Readable dev lba inode fs blocks limit
    pub distinct :
        (q r : ℕ)
        → q * block_size fs.sb < limit
        → r * block_size fs.sb < limit
        → q ≢ r
        → get_block_num dev lba inode q fs ≢ get_block_num dev lba inode r fs
    pub off_paths :
        (q r : ℕ)
        → q * block_size fs.sb < limit
        → r * block_size fs.sb < limit
        → OffPath (get_block_num dev lba inode q fs) r fs

  module _ (stores : Stores dev) (limit : ℕ) where
    -- The state after a write to block `q` of the file.
    unfoldable pub written : ℕ → List ℕ → Fs D → Fs D
    written q buf fs = (write_block dev lba (get_block_num dev lba inode q fs) buf fs).1

    pub get_block_num-written :
        (q r : ℕ) (buf : List ℕ) (fs : Fs D)
        → OffPath (get_block_num dev lba inode q fs) r fs
        → get_block_num dev lba inode r (written q buf fs) ≡ get_block_num dev lba inode r fs
    unfolding written write_block get_block_num OffPath
    get_block_num-written q r buf fs off =
        let path = block_path (ptrs_per_block fs.sb) r in
        let c : ℕ = get_block_num dev lba inode q fs in
        walk-Same dev lba c path.1 (i_block path.0 inode) fs (write_block dev lba c buf fs).1
          (Same-write_block dev lba stores c buf fs) off

    pub read_block-written :
        (q r : ℕ) (buf : List ℕ) (fs : Fs D) (blocks : ℕ → List ℕ)
        → q * block_size fs.sb < limit
        → r * block_size fs.sb < limit
        → length buf ≡ length (blocks q)
        → Laid fs blocks limit
        → read_block dev lba (get_block_num dev lba inode r fs) (written q buf fs)
          ≡ some (update q buf blocks r)
    unfolding written update
    read_block-written q r buf fs blocks hq hr size l = elim (Bool-cases (r == q)) [
      | inl e ↦
          let same : r ≡ q = ground arith in
          let num : ℕ = get_block_num dev lba inode q fs in
          let fits = size ∙ read_block-length stores lba num fs (l.readable.block_read q hq) in
          rw e (
            ap
              (λ k.
                read_block dev lba (get_block_num dev lba inode k fs)
                  (write_block dev lba num buf fs).1)
              same
            ∙ read_block-write_block_self stores lba num buf fs fits)
      | inr e ↦
          let other : q ≢ r = λ p. ground arith in
          rw e (
            read_block-write_block_ne stores lba (get_block_num dev lba inode q fs)
              (get_block_num dev lba inode r fs) buf fs (l.distinct q r hq hr other)
            ∙ l.readable.block_read r hr)
    ]

    length-update :
        (q r : ℕ) (buf : List ℕ) (blocks : ℕ → List ℕ)
        → length buf ≡ length (blocks q)
        → length (update q buf blocks r) ≡ length (blocks r)
    unfolding update
    length-update q r buf blocks size = elim (Bool-cases (r == q)) [
      | inl e ↦
          let same : r ≡ q = ground arith in rw e (size ∙ ap (λ k. length (blocks k)) (sym same))
      | inr e ↦ rw e refl
    ]

    -- A write to a block of the file keeps its layout.
    pub Laid-written :
        (q : ℕ) (buf : List ℕ) (fs : Fs D) (blocks : ℕ → List ℕ)
        → q * block_size fs.sb < limit
        → length buf ≡ length (blocks q)
        → Laid fs blocks limit
        → Laid (written q buf fs) (update q buf blocks) limit
    unfolding written write_block OffPath
    Laid-written q buf fs blocks h size l =
        let c : ℕ = get_block_num dev lba inode q fs in
        let fs' : Fs D = written q buf fs in
        let num : (r : ℕ)
            → r * block_size fs.sb < limit
            → get_block_num dev lba inode r fs' ≡ get_block_num dev lba inode r fs =
          λ r hr. get_block_num-written q r buf fs (l.off_paths q r h hr) in
        record {
          readable = record {
            block_there = λ r hr e. l.readable.block_there r hr (sym (num r hr) ∙ e);
            block_read = λ r hr.
                ap (λ n. read_block dev lba n fs') (num r hr)
                ∙ read_block-written q r buf fs blocks h hr size l;
            block_full = λ r hr.
                omega (arith, length-update q r buf blocks size, l.readable.block_full r hr);
          };
          distinct = λ a b ha hb ne e. l.distinct a b ha hb ne (sym (num a ha) ∙ e ∙ num b hb);
          off_paths = λ a b ha hb.
              let path = block_path (ptrs_per_block fs.sb) b in
              let on : NotOn dev lba (get_block_num dev lba inode a fs') path.1
                  (i_block path.0 inode) fs =
                subst (λ n. NotOn dev lba n path.1 (i_block path.0 inode) fs) (sym (num a ha))
                  (l.off_paths a b ha hb) in
              NotOn-Same dev lba c (get_block_num dev lba inode a fs') path.1 (i_block path.0 inode)
                fs fs' (Same-write_block dev lba stores c buf fs) (l.off_paths q b h hb) on;
        }
