-- ===== src/Ext2/Dir/Inserts.antt =====
-- `AddEntry` at an entry that is in use and has room behind it.
use mathlib.Core.Option.{some-injective}
use info.Prelude.{
  ℕ, subst, ◌+◌, ◌-◌, ◌^◌, ◌≤◌, ◌<◌, ◌≡◌, refl, sym, ap, ◌∙◌, ◌≢◌, ◌⊎◌, inl, inr, true, false, none,
  some, List, arith, ltb, leb, ◌==◌, leb→le, Bool-cases, length, get_or,
}
use info.Prelude.Bytes.{bytes_eq_refl}
use info.Prelude.Words.{
  slice, put16, length-put16, length-slice, get_or-put16_out, word16-put16_self, Agree,
  word32-Agree, slice-Agree,
}
use info.Ext2.Dir.{
  d_inode, d_rec_len, d_name_len, d_file_type, d_name, put_entry, matches, entry_length, add_at,
}
use info.Ext2.Dir.Puts.{Entry, Entry-Agree, length-put_entry, put_entry-out, put_entry_lem}

-- An entry that was added behind the one at an offset.
pub record Inserted (at inode file_type : ℕ) (name buf new : List ℕ) : Type 0 where
  pub old :
      Entry at
        (d_inode at buf)
        (entry_length (d_name_len at buf))
        (d_file_type at buf)
        (d_name at buf)
        new
  pub added :
      Entry
        (at + d_rec_len at new)
        inode
        (d_rec_len at buf - entry_length (d_name_len at buf))
        file_type
        name
        new
  pub found : matches name (at + d_rec_len at new) new ≡ true
  pub next : at + d_rec_len at new + d_rec_len (at + d_rec_len at new) new ≡ at + d_rec_len at buf
  pub others : (k : ℕ) → (k < at) ⊎ (at + d_rec_len at buf ≤ k) → get_or new k 0 ≡ get_or buf k 0

Entry-matches :
    (at inode rec_len file_type : ℕ) (name buf : List ℕ)
    → Entry at inode rec_len file_type name buf
    → inode ≢ 0
    → 0 < length name
    → matches name at buf ≡ true
unfolding matches
Entry-matches at inode rec_len file_type name buf e nz some_name =
    let used : (d_inode at buf == 0) ≡ false = ground (arith, e.inode_at) in
    let named : ltb 0 (d_name_len at buf) ≡ true = ground (arith, e.name_len_at) in
    rw (used, named, e.name_at) (bytes_eq_refl name)

none-list : {P : Type 0} {l : List ℕ} → none ≡ some l → P
none-list e = absurd (ground arith)

module _ (at inode file_type : ℕ) (name buf : List ℕ) where
  abbrev used_length : ℕ
  used_length = entry_length (d_name_len at buf)

  split : List ℕ
  split =
      put16 (at + 4) used_length
        (put_entry (at + used_length) inode (d_rec_len at buf - used_length) file_type name buf)

  add_at-room :
      d_inode at buf ≢ 0
      → leb (used_length + entry_length (length name)) (d_rec_len at buf) ≡ true
      → add_at inode file_type name at buf ≡ some split
  unfolding add_at split
  add_at-room nz room =
      let there : (d_inode at buf == 0) ≡ false = ground arith in rw (there, room) refl

  add_at-full :
      d_inode at buf ≢ 0
      → leb (used_length + entry_length (length name)) (d_rec_len at buf) ≡ false
      → add_at inode file_type name at buf ≡ none
  unfolding add_at
  add_at-full nz full =
      let there : (d_inode at buf == 0) ≡ false = ground arith in rw (there, full) refl

  add_at-split :
      {new : List ℕ}
      → d_inode at buf ≢ 0
      → add_at inode file_type name at buf ≡ some new
      → (used_length + entry_length (length name) ≤ d_rec_len at buf) × (split ≡ new)
  add_at-split {new} nz e =
      elim (Bool-cases (leb (used_length + entry_length (length name)) (d_rec_len at buf))) [
        | inl room ↦ (leb→le _ _ room, some-injective split new (sym (add_at-room nz room) ∙ e))
        | inr full ↦ none-list (sym (add_at-full nz full) ∙ e)
      ]

  split-Inserted :
      inode ≢ 0
      → inode < 2 ^ 32
      → 0 < length name
      → d_rec_len at buf < 2 ^ 16
      → at + d_rec_len at buf ≤ length buf
      → used_length + entry_length (length name) ≤ d_rec_len at buf
      → Inserted at inode file_type name buf split
  unfolding split Agree
  split-Inserted nz small some_name short fits room =
      let p : ℕ = at + used_length in
      let rec_len : ℕ = d_rec_len at buf - used_length in
      let e2 : List ℕ = put_entry p inode rec_len file_type name buf in
      let size2 = length-put_entry p inode rec_len file_type name buf in
      let size = length-put16 (at + 4) used_length e2 in
      let rec_at : d_rec_len at split ≡ used_length =
        word16-put16_self (at + 4) used_length e2 (omega arith) (omega arith) in
      let out : (k : ℕ)
          → (k < at + 4) ⊎ (at + 6 ≤ k)
          → (k < p) ⊎ (p + 8 + length name ≤ k)
          → get_or split k 0 ≡ get_or buf k 0 =
        λ k h l.
          get_or-put16_out (at + 4) used_length e2 k
            (elim h [ inl a ↦ inl a | inr b ↦ inr (omega arith) ])
          ∙ put_entry-out p inode rec_len file_type name buf k l in
      let new_entry : Entry p inode rec_len file_type name split =
        Entry-Agree p inode rec_len file_type name split e2 size (omega arith)
          (λ k h l. get_or-put16_out (at + 4) used_length e2 k (inr (omega arith)))
          (put_entry_lem p inode rec_len file_type name buf (omega arith) small (omega arith)) in
      let place : at + d_rec_len at split ≡ p = ap (λ n. at + n) rec_at in
      let name_len : d_name_len at split ≡ d_name_len at buf =
        out (at + 6) (inr (omega arith)) (inl (omega arith)) in
      let name_fits = length-slice (at + 8) (d_name_len at buf) buf (omega arith) in
      let added_at : Entry (at + d_rec_len at split) inode rec_len file_type name split =
        subst (λ q. Entry q inode rec_len file_type name split) (sym place) new_entry in
      record {
        old = record {
          inode_at =
              word32-Agree at split buf (λ k h l. out k (inl (omega arith)) (inl (omega arith)));
          rec_len_at = rec_at;
          name_len_at = name_len ∙ sym name_fits;
          file_type_at = out (at + 7) (inr (omega arith)) (inl (omega arith));
          name_at =
              ap (λ n. slice (at + 8) n split) name_len
              ∙ slice-Agree (at + 8) (d_name_len at buf) split buf (size ∙ size2) (omega arith)
                  (λ k h l. out k (inr (omega arith)) (inl (omega arith)));
        };
        added = added_at;
        found =
            Entry-matches (at + d_rec_len at split) inode rec_len file_type name split added_at nz
              some_name;
        next = omega (arith, added_at.rec_len_at, rec_at);
        others = λ k h.
            out k (elim h [ inl a ↦ inl (omega arith) | inr b ↦ inr (omega arith) ])
              (elim h [ inl a ↦ inl (omega arith) | inr b ↦ inr (omega arith) ]);
      }

-- Where AddEntry adds an entry, with an inode other than 0 and below 2 ^ 32 and a name that is
-- not empty, behind an entry that is in use and lies within the block, the old entry keeps its
-- fields but for its length, which is then just what its name needs; the entry behind it has the
-- inode, type and name given and matches the name; it ends where the old one ended, so that the
-- next entry is the same as before; and every byte outside the old entry is kept.
pub add_at_lem :
    (at inode file_type : ℕ) (name buf : List ℕ) {new : List ℕ}
    → d_inode at buf ≢ 0
    → inode ≢ 0
    → inode < 2 ^ 32
    → 0 < length name
    → d_rec_len at buf < 2 ^ 16
    → at + d_rec_len at buf ≤ length buf
    → add_at inode file_type name at buf ≡ some new
    → Inserted at inode file_type name buf new
add_at_lem at inode file_type name buf used nz small some_name short fits e =
    let s = add_at-split at inode file_type name buf used e in
    subst (Inserted at inode file_type name buf) s.1
      (split-Inserted at inode file_type name buf nz small some_name short fits s.0)
