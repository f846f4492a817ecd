-- ===== src/Ext2/Mounted/Reads.antt =====
-- `Read` of fs/vfs.cc on a file of a mount of ext2.
use info.Prelude.{
  ℕ, ap₂, ◌+◌, ◌-◌, ◌%◌, ◌^◌, ◌<◌, min, ◌≡◌, refl, sym, ap, ◌∙◌, Bool, false, Option, some, List,
  [], ◌++◌, arith, ◌==◌, if◌then◌else◌,
}
use info.Prelude.Int.{ℤ, pos, negsuc}
use info.Vfs.File.{File, advance, read_by, read_op, read}
use info.Ext2.Device.{BlockDevice}
use info.Ext2.{block_size}
use info.Ext2.Inode.{i_size, is_directory}
use info.Ext2.File.{read_file}
use info.Ext2.File.Contents.{contents, contents_add}
use info.Ext2.File.Reads.{Readable, read_file_lem}
use info.Ext2.Mounted.{FileData, Mounted, ext2_read, ext2_ops}

module _ {D : Type 0} (dev : BlockDevice D) (lba : ℕ) where
  -- A file is open on the mount, with its inode.
  pub record Open (f : File (Mounted D)) (d : FileData) (s : Mounted D) : Type 0 where
    pub on_mount : f.mount ≡ some (ext2_ops dev lba)
    pub there : s.files f.private_data ≡ some d

  -- Read of a file that is open is ReadFile at the position.
  pub read-ext2 :
      (f : File (Mounted D)) (d : FileData) (s : Mounted D) (count : ℕ)
      → Open f d s
      → 0 < count
      → let out = read_file dev lba d.inode count f.position s.fs in
        read (some f) count s ≡ (out, some (advance out.0 f))
  unfolding read read_by ext2_read
  read-ext2 f d s count o h =
      let some_bytes : (count == 0) ≡ false = ground arith in
      let out = read_file dev lba d.inode count f.position s.fs in
      let op : read_op f.mount ≡ some (ext2_read dev lba) = ap read_op o.on_mount in
      let file : ext2_read dev lba f.private_data count f.position s ≡ out =
        rw (o.there, ext2_read) refl in
      let done : read_by (read_op f.mount) count f s ≡ (out, advance out.0 f) =
        ap (λ q. read_by q count f s) op ∙ ap (λ (r : ℤ × List ℕ). (r, advance r.0 f)) file in
      ap
        (λ (b : Bool). if b then ((negsuc 0, []), some f) else (
          (read_by (read_op f.mount) count f s).0,
          some (read_by (read_op f.mount) count f s).1,
        ))
        some_bytes
      ∙ ap (λ (r : (ℤ × List ℕ) × File (Mounted D)). (r.0, some r.1)) done

  module _ (d : FileData) (s : Mounted D) (blocks : ℕ → List ℕ)
      (file : is_directory d.inode ≡ false) (some_size : 0 < block_size s.fs.sb)
      (small : i_size d.inode < 2 ^ 32)
      (readable : Readable dev lba d.inode s.fs blocks (i_size d.inode)) where
    abbrev got : ℕ → ℕ → ℕ
    got count position = min count (i_size d.inode - position)

    abbrev bytes : ℕ → ℕ → List ℕ
    bytes count position = contents (block_size s.fs.sb) blocks position (got count position)

    read-contents :
        (f : File (Mounted D)) (count : ℕ)
        → Open f d s
        → 0 < count
        → f.position + count < 2 ^ 64
        → read (some f) count s ≡ (
          (pos (got count f.position), bytes count f.position),
          some (advance (pos (got count f.position)) f),
        )
    read-contents f count o h no_wrap =
        read-ext2 f d s count o h
        ∙ ap (λ (r : ℤ × List ℕ). (r, some (advance r.0 f)))
            (read_file_lem dev lba d.inode s.fs blocks count f.position file some_size small no_wrap
              readable)

    -- For an open file of a mount of ext2 that is not a directory, with blocks of at least one
    -- byte and a size below 2 ^ 32, whose blocks up to the size are there and can be read,
    -- without overflow of the position, two Reads one after the other, of sizes other than 0,
    -- give the bytes of one Read of both sizes, and leave the same position, at the end of the
    -- file too.
    pub read-read :
        (f : File (Mounted D)) (a b : ℕ)
        → Open f d s
        → 0 < a
        → 0 < b
        → f.position + (a + b) < 2 ^ 64
        → let first = read (some f) a s in
          let second = read first.1 b s in
          let whole = read (some f) (a + b) s in
          (whole.0.1 ≡ first.0.1 ++ second.0.1) × (whole.1 ≡ second.1)
    unfolding advance
    read-read f a b o pa pb no_wrap =
        let p : ℕ = f.position in
        let n : ℕ = got a p in
        let g : File (Mounted D) = record f { position = (p + n) % 2 ^ 64 } in
        let word : (p + n) % 2 ^ 64 ≡ p + n = ground arith in
        let og : Open g d s = record { on_mount = o.on_mount; there = o.there } in
        let first = read-contents f a o pa (omega arith) in
        let second = read-contents g b og pb (ground arith) in
        let whole = read-contents f (a + b) o (omega arith) no_wrap in
        let two : read (read (some f) a s).1 b s ≡ read (some g) b s =
          ap (λ (r : (ℤ × List ℕ) × Option (File (Mounted D))). read r.1 b s) first in
        let sum : got (a + b) p ≡ n + got b (p + n) = ground arith in
        let place : got b g.position ≡ got b (p + n) = ap (got b) word in
        let parts : bytes (a + b) p ≡ bytes a p ++ bytes b g.position =
          ap (contents (block_size s.fs.sb) blocks p) sum
          ∙ sym (contents_add (block_size s.fs.sb) blocks p n (got b (p + n)))
          ∙ ap (λ q. bytes a p ++ bytes b q) (sym word) in
        let end : p + got (a + b) p ≡ g.position + got b g.position =
          omega (arith, sum, word, place) in
        (
          ap (λ (r : (ℤ × List ℕ) × Option (File (Mounted D))). r.0.1) whole
              ∙ parts
              ∙ sym (
                  ap₂ (λ (x y : List ℕ). x ++ y)
                    (ap (λ (r : (ℤ × List ℕ) × Option (File (Mounted D))). r.0.1) first)
                    (ap (λ (r : (ℤ × List ℕ) × Option (File (Mounted D))). r.0.1) (two ∙ second))),
          ap (λ (r : (ℤ × List ℕ) × Option (File (Mounted D))). r.1) whole
              ∙ ap (λ q. some (record f { position = q % 2 ^ 64 })) end
              ∙ sym (ap (λ (r : (ℤ × List ℕ) × Option (File (Mounted D))). r.1) (two ∙ second)),
        )
