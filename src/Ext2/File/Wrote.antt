-- ===== src/Ext2/File/Wrote.antt =====
-- What the loop of `WriteFile` leaves in the file.
use native.Mathlib.Nat.{div-add-mod}
use info.Prelude.{
  ℕ, subst, zero, suc, ◌+◌, ◌-◌, ◌*◌, ◌/◌, ◌%◌, ◌≤◌, ◌<◌, ◌≡◌, refl, sym, ap, ◌∙◌, ◌⊎◌, inl, inr,
  List, [], arith, ltb, ltb→lt, Bool-cases, length, get_or, take, drop, length-take, length-drop,
}
use info.Prelude.Words.{put_bytes, get_or-take, get_or-drop}
use info.Ext2.Device.{BlockDevice, Stores}
use info.Ext2.{Fs, block_size}
use info.Ext2.File.{write_bytes}
use info.Ext2.File.Contents.{byte_at, update, byte_at_put, byte_at_kept}
use info.Ext2.File.Layout.{Laid}
use info.Ext2.File.Kept.{Kept, Kept-none, Kept-next}

module _ {D : Type 0} (dev : BlockDevice D) (lba : ℕ) (inode : List ℕ) (stores : Stores dev)
    (limit : ℕ) where
  -- What the loop leaves: the bytes from a place on are the ones given, and the others as they were.
  pub record Wrote (at : ℕ) (bytes : List ℕ) (fs : Fs D) (blocks : ℕ → List ℕ)
      (out : ℕ × List ℕ × Fs D) : Type 0 where
    pub count : out.0 ≡ length bytes
    pub same_inode : out.1 ≡ inode
    pub same_sb : out.2.sb ≡ fs.sb
    pub kept : Kept dev lba inode limit fs out.2
    pub after : ℕ → List ℕ
    pub laid : Laid dev lba inode out.2 after limit
    pub here :
        (k : ℕ) → k < length bytes → byte_at (block_size fs.sb) after (at + k) ≡ get_or bytes k 0
    pub others :
        (p : ℕ)
        → (p < at) ⊎ (at + length bytes ≤ p)
        → byte_at (block_size fs.sb) after p ≡ byte_at (block_size fs.sb) blocks p

  write_bytes-nil :
      (rounds at : ℕ) (fs : Fs D) → write_bytes dev lba rounds at [] inode fs ≡ (0, inode, fs)
  unfolding write_bytes
  write_bytes-nil zero at fs = refl
  write_bytes-nil (suc rounds) at fs = refl

  pub Wrote-none :
      (rounds at : ℕ) (fs : Fs D) (blocks : ℕ → List ℕ)
      → Laid dev lba inode fs blocks limit
      → Wrote at [] fs blocks (write_bytes dev lba rounds at [] inode fs)
  Wrote-none rounds at fs blocks l =
      subst (Wrote at [] fs blocks) (sym (write_bytes-nil rounds at fs)) (record {
        count = refl;
        same_inode = refl;
        same_sb = refl;
        kept = Kept-none dev lba inode limit fs;
        after = blocks;
        laid = l;
        here = λ k h. absurd (omega arith);
        others = λ p h. refl;
      })

  -- A round, and what the rest of the loop wrote.
  pub Wrote-step :
      (at n : ℕ) (bytes : List ℕ) (fs fs' : Fs D) (blocks : ℕ → List ℕ) (rest : ℕ × List ℕ × Fs D)
      → let size : ℕ = block_size fs.sb in
        let q : ℕ = at / size in
        let put : List ℕ = put_bytes (at % size) (take n bytes) (blocks q) in
        at % size + n ≤ size
        → n ≤ length bytes
        → size ≤ length (blocks q)
        → fs'.sb ≡ fs.sb
        → Kept dev lba inode limit fs fs'
        → Wrote (at + n) (drop n bytes) fs' (update q put blocks) rest
        → Wrote at bytes fs blocks (n + rest.0, rest.1, rest.2)
  Wrote-step at n bytes fs fs' blocks rest in_one no_more full sb k w =
      let size : ℕ = block_size fs.sb in
      let q : ℕ = at / size in
      let put : List ℕ = put_bytes (at % size) (take n bytes) (blocks q) in
      let place : q * size + at % size ≡ at = omega (arith, div-add-mod at size) in
      let size_n : length (take n bytes) ≡ n = omega (arith, length-take n bytes) in
      let left = length-drop n bytes in
      let resize : block_size fs'.sb ≡ size = ap block_size sb in
      let kept : (p : ℕ)
          → (p < at) ⊎ (at + n ≤ p)
          → byte_at size (update q put blocks) p ≡ byte_at size blocks p =
        λ p out.
          byte_at_kept size blocks q (at % size) (take n bytes) (omega arith) full p
            (elim out [ inl a ↦ inl (omega arith) | inr b ↦ inr (omega arith) ]) in
      let now : ℕ → List ℕ = update q put blocks in
      let later : (p : ℕ)
          → (p < at + n) ⊎ (at + length bytes ≤ p)
          → byte_at size w.after p ≡ byte_at size now p =
        λ p out.
          subst (λ s. byte_at s w.after p ≡ byte_at s now p) resize
            (w.others p (elim out [ inl a ↦ inl a | inr b ↦ inr (omega arith) ])) in
      let tail : (k : ℕ)
          → k < length (drop n bytes)
          → byte_at size w.after (at + n + k) ≡ get_or (drop n bytes) k 0 =
        λ k h.
          subst (λ s. byte_at s w.after (at + n + k) ≡ get_or (drop n bytes) k 0) resize
            (w.here k h) in
      record {
        count = omega (arith, w.count);
        same_inode = w.same_inode;
        same_sb = w.same_sb ∙ sb;
        kept = Kept-next dev lba inode limit fs fs' rest.2 k w.kept;
        after = w.after;
        laid = w.laid;
        here = λ i h. elim (Bool-cases (ltb i n)) [
          | inl first ↦
              let early : i < n = ltb→lt i n first in
              later (at + i) (inl (omega arith))
              ∙ ap (byte_at size now) (ap (λ a. a + i) (sym place))
              ∙ byte_at_put size blocks q (at % size) (take n bytes) (omega arith) full i
                  (omega arith)
              ∙ get_or-take n bytes i early
          | inr second ↦
              let late : n ≤ i = ground arith in
              let far : at + i ≡ at + n + (i - n) = omega arith in
              let there : n + (i - n) ≡ i = omega arith in
              ap (byte_at size w.after) far
              ∙ tail (i - n) (omega arith)
              ∙ get_or-drop n bytes (i - n)
              ∙ ap (λ j. get_or bytes j 0) there
        ];
        others = λ p out.
            later p (elim out [ inl a ↦ inl (omega arith) | inr b ↦ inr b ])
            ∙ kept p (elim out [ inl a ↦ inl a | inr b ↦ inr (omega arith) ]);
      }
