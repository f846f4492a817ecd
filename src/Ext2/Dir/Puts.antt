-- ===== src/Ext2/Dir/Puts.antt =====
-- The entry that `AddEntry` writes, and what it leaves of the block.
use info.Prelude.{
  ℕ, ◌+◌, ◌^◌, ◌≤◌, ◌<◌, ◌≡◌, sym, ap, ◌∙◌, ◌⊎◌, inl, inr, List, arith, length, set, length-set,
  get_or, get_or-set_self, get_or-set_ne,
}
use info.Prelude.Words.{
  slice, put16, put32, length-put_bytes, length-put16, length-put32, get_or-put_bytes_out,
  get_or-put16_out, get_or-put32_out, word16-put16_self, word32-put32_self, Agree, word16-Agree,
  word32-Agree, slice-Agree, slice-put_bytes_self,
}
use info.Ext2.Dir.{d_inode, d_rec_len, d_name_len, d_file_type, d_name, put_entry}

-- The fields of an entry.
pub record Entry (at inode rec_len file_type : ℕ) (name buf : List ℕ) : Type 0 where
  pub inode_at : d_inode at buf ≡ inode
  pub rec_len_at : d_rec_len at buf ≡ rec_len
  pub name_len_at : d_name_len at buf ≡ length name
  pub file_type_at : d_file_type at buf ≡ file_type
  pub name_at : d_name at buf ≡ name

-- The bytes of an entry are its fields.
pub Entry-Agree :
    (at inode rec_len file_type : ℕ) (name a b : List ℕ)
    → length a ≡ length b
    → at + 8 + length name ≤ length a
    → Agree at (8 + length name) a b
    → Entry at inode rec_len file_type name b
    → Entry at inode rec_len file_type name a
unfolding Agree
Entry-Agree at inode rec_len file_type name a b size fits same e =
    let name_len : d_name_len at a ≡ d_name_len at b = same (at + 6) (omega arith) (omega arith) in
    record {
      inode_at = word32-Agree at a b (λ k h l. same k (omega arith) (omega arith)) ∙ e.inode_at;
      rec_len_at =
          word16-Agree (at + 4) a b (λ k h l. same k (omega arith) (omega arith)) ∙ e.rec_len_at;
      name_len_at = name_len ∙ e.name_len_at;
      file_type_at = same (at + 7) (omega arith) (omega arith) ∙ e.file_type_at;
      name_at =
          ap (λ n. slice (at + 8) n a) (name_len ∙ e.name_len_at)
          ∙ slice-Agree (at + 8) (length name) a b size fits
              (λ k h l. same k (omega arith) (omega arith))
          ∙ ap (λ n. slice (at + 8) n b) (sym e.name_len_at)
          ∙ e.name_at;
    }

module _ (at inode rec_len file_type : ℕ) (name buf : List ℕ) where
  head : List ℕ
  head = put16 (at + 4) rec_len (put32 at inode buf)

  sized : List ℕ
  sized = set (set head (at + 6) (length name)) (at + 7) file_type

  length-sized : length sized ≡ length buf
  unfolding sized head
  length-sized =
      length-set (set head (at + 6) (length name)) (at + 7) file_type
      ∙ length-set head (at + 6) (length name)
      ∙ length-put16 (at + 4) rec_len (put32 at inode buf)
      ∙ length-put32 at inode buf

  pub length-put_entry : length (put_entry at inode rec_len file_type name buf) ≡ length buf
  unfolding sized head put_entry
  length-put_entry = length-put_bytes (at + 8) name sized ∙ length-sized

  get_or-sized : (k : ℕ) → (k < at + 6) ⊎ (at + 8 ≤ k) → get_or sized k 0 ≡ get_or head k 0
  unfolding sized
  get_or-sized k out =
      get_or-set_ne (set head (at + 6) (length name)) {i = at + 7} {j = k} file_type
        (λ e. elim out [ inl a ↦ omega arith | inr b ↦ omega arith ])
      ∙ get_or-set_ne head {i = at + 6} {j = k} (length name)
          (λ e. elim out [ inl a ↦ omega arith | inr b ↦ omega arith ])

  get_or-head : (k : ℕ) → (k < at) ⊎ (at + 6 ≤ k) → get_or head k 0 ≡ get_or buf k 0
  unfolding head
  get_or-head k out =
      get_or-put16_out (at + 4) rec_len (put32 at inode buf) k
        (elim out [ inl a ↦ inl (omega arith) | inr b ↦ inr (omega arith) ])
      ∙ get_or-put32_out at inode buf k
          (elim out [ inl a ↦ inl (omega arith) | inr b ↦ inr (omega arith) ])

  -- An entry that is written changes no byte outside it.
  pub put_entry-out :
      (k : ℕ)
      → (k < at) ⊎ (at + 8 + length name ≤ k)
      → get_or (put_entry at inode rec_len file_type name buf) k 0 ≡ get_or buf k 0
  unfolding put_entry sized head
  put_entry-out k out =
      get_or-put_bytes_out (at + 8) name sized k
        (elim out [ inl a ↦ inl (omega arith) | inr b ↦ inr (omega arith) ])
      ∙ get_or-sized k (elim out [ inl a ↦ inl (omega arith) | inr b ↦ inr (omega arith) ])
      ∙ get_or-head k (elim out [ inl a ↦ inl (omega arith) | inr b ↦ inr (omega arith) ])

  pub put_entry_lem :
      at + 8 + length name ≤ length buf
      → inode < 2 ^ 32
      → rec_len < 2 ^ 16
      → Entry at inode rec_len file_type name (put_entry at inode rec_len file_type name buf)
  unfolding put_entry sized head Agree
  put_entry_lem fits small short =
      let new : List ℕ = put_entry at inode rec_len file_type name buf in
      let before : (k : ℕ) → k < at + 8 → get_or new k 0 ≡ get_or sized k 0 =
        λ k h. get_or-put_bytes_out (at + 8) name sized k (inl (omega arith)) in
      let low : (k : ℕ) → k < at + 6 → get_or new k 0 ≡ get_or head k 0 =
        λ k h. before k (omega arith) ∙ get_or-sized k (inl h) in
      let first : List ℕ = put32 at inode buf in
      let name_len : d_name_len at new ≡ length name =
        before (at + 6) (omega arith)
        ∙ get_or-set_ne (set head (at + 6) (length name)) {i = at + 7} {j = at + 6} file_type
            (λ e. omega arith)
        ∙ get_or-set_self head (at + 6) (length name)
            (omega (arith, length-put16 (at + 4) rec_len first, length-put32 at inode buf)) in
      record {
        inode_at =
            word32-Agree at new first (λ k h l.
              low k (omega arith) ∙ get_or-put16_out (at + 4) rec_len first k (inl (omega arith)))
            ∙ word32-put32_self at inode buf (omega arith) small;
        rec_len_at =
            word16-Agree (at + 4) new head (λ k h l. low k (omega arith))
            ∙ word16-put16_self (at + 4) rec_len first (omega (arith, length-put32 at inode buf))
                short;
        name_len_at = name_len;
        file_type_at =
            before (at + 7) (omega arith)
            ∙ get_or-set_self (set head (at + 6) (length name)) (at + 7) file_type (
                omega (
                  arith,
                  length-set head (at + 6) (length name),
                  length-put16 (at + 4) rec_len first,
                  length-put32 at inode buf,
                ));
        name_at =
            ap (λ n. slice (at + 8) n new) name_len
            ∙ slice-put_bytes_self (at + 8) name sized (omega (arith, length-sized));
      }
