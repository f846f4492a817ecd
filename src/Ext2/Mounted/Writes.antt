-- ===== src/Ext2/Mounted/Writes.antt =====
-- `Write`, `Seek` and `Read` of fs/vfs.cc on a file of a mount of ext2.
use info.Prelude.{
  ℕ, subst, ap₂, suc, ◌+◌, ◌-◌, ◌*◌, ◌^◌, ◌≤◌, ◌<◌, min, ◌≡◌, refl, sym, ap, ◌∙◌, Bool, true, false,
  Option, some, List, [], ◌∷◌, arith, ◌==◌, if◌then◌else◌, length,
}
use info.Prelude.Int.{ℤ, pos, negsuc}
use info.Prelude.Words.{put_bytes}
use info.Vfs.File.{File, advance, write_by, write_op, read, write, new_position, move_to, seek}
use info.Ext2.Device.{BlockDevice, Stores}
use info.Ext2.{Fs, block_size, group_desc_size, gd_block, read_block, write_block, read_group_desc}
use info.Ext2.Blocks.{block_bytes}
use info.Ext2.Inode.{
  Divides, inode_bytes, inode_group, inode_block, inode_offset, i_size, is_directory, write_inode,
}
use info.Ext2.Inode.Table.{write_inode-some}
use info.Ext2.File.{write_bytes, read_file}
use info.Ext2.File.Contents.{contents, contents_eq}
use info.Ext2.File.Reads.{Readable, read_file_lem}
use info.Ext2.File.Layout.{Laid, OffPath}
use info.Ext2.File.Kept.{Kept, Kept-off, OffBlocks, Readable-write_apart}
use info.Ext2.File.Wrote.{Wrote}
use info.Ext2.File.Writes.{write_bytes_lem, write_file-call}
use info.Ext2.Mounted.{FileData, Mounted, put_file, write_back, ext2_written, ext2_write}
use info.Ext2.Mounted.Reads.{Open, read-ext2}

module _ {D : Type 0} (dev : BlockDevice D) (lba : ℕ) where
  -- The inode of a file has its place in a table that can be read, and neither the block of the table
  -- nor the one of the descriptors is a block of the file.
  pub record InTable (d : FileData) (fs : Fs D) : Type 0 where
    pub n : ℕ
    pub gd : List ℕ
    pub buf : List ℕ
    pub number : d.inode_num ≡ suc n
    pub divides : Divides fs.sb
    pub described : inode_group n fs.sb * group_desc_size + group_desc_size ≤ block_bytes fs.sb
    pub inside : inode_offset n fs.sb + inode_bytes ≤ block_bytes fs.sb
    pub desc_read : read_group_desc dev lba (inode_group n fs.sb) fs ≡ some gd
    pub table_read : read_block dev lba (inode_block n gd fs.sb) fs ≡ some buf
    pub off_table : OffBlocks dev lba d.inode (i_size d.inode) (inode_block n gd fs.sb) fs
    pub off_desc : OffBlocks dev lba d.inode (i_size d.inode) gd_block fs
    pub off_paths :
        (q : ℕ)
        → q * block_size fs.sb < i_size d.inode
        → OffPath dev lba d.inode (inode_block n gd fs.sb) q fs

  read_group_desc-Kept :
      (d : FileData) (fs fs' : Fs D) (g : ℕ)
      → OffBlocks dev lba d.inode (i_size d.inode) gd_block fs
      → Kept dev lba d.inode (i_size d.inode) fs fs'
      → read_group_desc dev lba g fs' ≡ read_group_desc dev lba g fs
  unfolding read_group_desc
  read_group_desc-Kept d fs fs' g off k =
      let same = k.elsewhere gd_block off in rw (same, read_group_desc)

  -- WriteInode after a write to the file puts one block that is no part of the file.
  Readable-write_inode :
      (stores : Stores dev) (d : FileData) (fs fs' : Fs D) (blocks : ℕ → List ℕ)
      → InTable d fs
      → Kept dev lba d.inode (i_size d.inode) fs fs'
      → Readable dev lba d.inode fs' blocks (i_size d.inode)
      → let out = write_inode dev lba d.inode_num d.inode fs' in
        Readable dev lba d.inode out.1 blocks (i_size d.inode) × (out.1.sb ≡ fs.sb)
  unfolding write_block
  Readable-write_inode stores d fs fs' blocks t k r =
      let limit : ℕ = i_size d.inode in
      let c : ℕ = inode_block t.n t.gd fs.sb in
      let c' : ℕ = inode_block t.n t.gd fs'.sb in
      let moved : c ≡ c' = ap (inode_block t.n t.gd) (sym k.sb_kept) in
      let desc : read_group_desc dev lba (inode_group t.n fs'.sb) fs' ≡ some t.gd =
        ap (λ sb. read_group_desc dev lba (inode_group t.n sb) fs') k.sb_kept
        ∙ read_group_desc-Kept d fs fs' (inode_group t.n fs.sb) t.off_desc k
        ∙ t.desc_read in
      let table : read_block dev lba c' fs' ≡ some t.buf =
        ap (λ b. read_block dev lba b fs') (sym moved) ∙ k.elsewhere c t.off_table ∙ t.table_read in
      let call =
        ap (λ m. write_inode dev lba m d.inode fs') t.number
        ∙ write_inode-some stores lba t.n d.inode fs' {gd = t.gd} {buf = t.buf} desc table in
      let off : OffBlocks dev lba d.inode limit c' fs' =
        subst (λ b. OffBlocks dev lba d.inode limit b fs') moved
          (Kept-off dev lba d.inode limit fs fs' k c t.off_table) in
      let off_paths : (q : ℕ) → q * block_size fs'.sb < limit → OffPath dev lba d.inode c' q fs' =
        λ q h.
          let below : q * block_size fs.sb < limit =
            subst (λ n. q * n < limit) (ap block_size k.sb_kept) h in
          subst (λ b. OffPath dev lba d.inode b q fs') moved
            (k.paths c q below (t.off_paths q below)) in
      let new : List ℕ = put_bytes (inode_offset t.n fs'.sb) d.inode t.buf in
      subst (λ (o : Bool × Fs D). Readable dev lba d.inode o.1 blocks limit × (o.1.sb ≡ fs.sb))
        (sym call)
        (
          Readable-write_apart dev lba d.inode limit stores c' new fs' blocks off off_paths r,
          k.sb_kept,
        )

  module _ (stores : Stores dev) (d : FileData) (s : Mounted D) (blocks : ℕ → List ℕ)
      (file : is_directory d.inode ≡ false) (some_size : 0 < block_size s.fs.sb)
      (small : i_size d.inode < 2 ^ 32) (laid : Laid dev lba d.inode s.fs blocks (i_size d.inode))
      (in_table : InTable d s.fs) where
    -- Ext2Write within the size of the file.
    ext2_write_lem :
        (p : ℕ) (bytes : List ℕ) (offset : ℕ)
        → s.files p ≡ some d
        → 0 < length bytes
        → offset + length bytes ≤ i_size d.inode
        → let out = ext2_write dev lba p bytes offset s in
          (out.0 ≡ pos (length bytes))
          × (out.1.files p ≡ some d)
          × (read_file dev lba d.inode (length bytes) offset out.1.fs ≡ (pos (length bytes), bytes))
    unfolding ext2_write ext2_written write_back
    ext2_write_lem p [] offset e some_bytes fits = absurd (omega arith)
    ext2_write_lem p (x ∷ xs) offset e some_bytes fits =
        let bytes : List ℕ = x ∷ xs in
        let n : ℕ = length bytes in
        let limit : ℕ = i_size d.inode in
        let size : ℕ = block_size s.fs.sb in
        let out : ℕ × List ℕ × Fs D = write_bytes dev lba n offset bytes d.inode s.fs in
        let w : Wrote dev lba d.inode stores limit offset bytes s.fs blocks out =
          write_bytes_lem dev lba d.inode stores limit n offset bytes s.fs blocks (omega arith) fits
            some_size small laid in
        let fs : Fs D = (write_inode dev lba d.inode_num d.inode out.2).1 in
        let back =
          Readable-write_inode stores d s.fs out.2 w.after in_table w.kept w.laid.readable in
        let resize : block_size fs.sb ≡ size = ap block_size back.1 in
        let all : min n (limit - offset) ≡ n = omega arith in
        let call : ext2_write dev lba p bytes offset s
            ≡ (pos n, put_file p (some d) (record s { fs = fs })) =
          rw (e, ext2_write)
            (ap (λ o. ext2_written dev lba p d o s)
              (write_file-call dev lba d.inode bytes offset s.fs file small fits
                ∙ ap₂ (λ k i. (pos k, i, out.2)) w.count w.same_inode)) in
        let here : (p == p) ≡ true = ground arith in
        let reads : read_file dev lba d.inode n offset fs ≡ (pos n, bytes) =
          read_file_lem dev lba d.inode fs w.after n offset file (omega arith) small (omega arith)
            back.0
          ∙ ap
              (λ k.
                (pos (min n (limit - offset)), contents k w.after offset (min n (limit - offset))))
              resize
          ∙ ap (λ m. (pos m, contents size w.after offset m)) all
          ∙ ap (λ l. (pos n, l)) (contents_eq size w.after offset bytes w.here) in
        (
          ap (λ (o : ℤ × Mounted D). o.0) call,
          ap (λ (o : ℤ × Mounted D). o.1.files p) call ∙ rw here refl,
          ap (λ (o : ℤ × Mounted D). read_file dev lba d.inode n offset o.1.fs) call ∙ reads,
        )

    -- Write of a file that is open is Ext2Write at the position.
    write-ext2 :
        (f : File (Mounted D)) (bytes : List ℕ)
        → Open dev lba f d s
        → 0 < length bytes
        → let out = ext2_write dev lba f.private_data bytes f.position s in
          write (some f) bytes s ≡ (out.0, some (advance out.0 f), out.1)
    unfolding write write_by
    write-ext2 f bytes o h =
        let some_bytes : (length bytes == 0) ≡ false = ground arith in
        let out = ext2_write dev lba f.private_data bytes f.position s in
        let op : write_op f.mount ≡ some (ext2_write dev lba) = ap write_op o.on_mount in
        let done : write_by (write_op f.mount) bytes f s ≡ (out.0, advance out.0 f, out.1) =
          ap (λ q. write_by q bytes f s) op in
        ap
          (λ (b : Bool). if b then (negsuc 0, some f, s) else (
            (write_by (write_op f.mount) bytes f s).0,
            some (write_by (write_op f.mount) bytes f s).1,
            (write_by (write_op f.mount) bytes f s).2,
          ))
          some_bytes
        ∙ ap (λ (r : ℤ × File (Mounted D) × Mounted D). (r.0, some r.1, r.2)) done

    -- On a device that stores, for an open file of a mount of ext2 that is not a directory, with
    -- blocks of at least one byte and a size below 2 ^ 32, whose blocks are all there, are
    -- different and are no blocks of pointers, and whose inode has its place in a table that can
    -- be read (no divisor is 0, the descriptor lies in the block of descriptors and the inode in
    -- the block of the table, the block of the table is no block of the file nor of its
    -- pointers, and that of the descriptors is no block of the file): Write of at least one
    -- byte, within the size, returns the count of the bytes, and Seek from the start back to the
    -- position before and Read of as many bytes return the bytes written, although Ext2Write
    -- writes the inode in between.
    pub write-seek-read :
        (f : File (Mounted D)) (bytes : List ℕ)
        → Open dev lba f d s
        → 0 < length bytes
        → f.position + length bytes ≤ i_size d.inode
        → let written = write (some f) bytes s in
          let back = seek written.1 (pos f.position) 0 in
          (written.0 ≡ pos (length bytes))
          × ((read back.1 (length bytes) written.2).0 ≡ (pos (length bytes), bytes))
    unfolding seek new_position move_to advance
    write-seek-read f bytes o h fits =
        let n : ℕ = length bytes in
        let p : ℕ = f.private_data in
        let out : ℤ × Mounted D = ext2_write dev lba p bytes f.position s in
        let stored = ext2_write_lem p bytes f.position o.there h fits in
        let written : write (some f) bytes s ≡ (pos n, some (advance (pos n) f), out.1) =
          write-ext2 f bytes o h ∙ ap (λ r. (r, some (advance r f), out.1)) stored.0 in
        let again : Open dev lba f d out.1 = record { on_mount = o.on_mount; there = stored.1 } in
        (
          ap (λ (w : ℤ × Option (File (Mounted D)) × Mounted D). w.0) written,
          ap
                (λ (w : ℤ × Option (File (Mounted D)) × Mounted D).
                  (read (seek w.1 (pos f.position) 0).1 n w.2).0)
                written
              ∙ ap (λ (r : (ℤ × List ℕ) × Option (File (Mounted D))). r.0)
                  (read-ext2 dev lba f d out.1 n again h)
              ∙ stored.2,
        )
