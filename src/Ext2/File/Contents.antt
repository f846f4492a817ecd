-- ===== src/Ext2/File/Contents.antt =====
-- The bytes of a file, as its blocks give them.
use native.Mathlib.Nat.{
  mul-add-div_right, mul-add-mod_self_right, div-eq_of_lt, mod-eq_of_lt, div-add-mod,
}
use info.Prelude.{
  ℕ, ap₂, zero, suc, ◌+◌, ◌*◌, ◌/◌, ◌%◌, ◌≤◌, ◌<◌, ◌≡◌, refl, sym, ap, ◌∙◌, ◌⊎◌, inl, inr, true,
  List, [], ◌∷◌, ◌++◌, arith, ◌==◌, if◌then◌else◌, Bool-cases, length, get_or,
}
use info.Prelude.Words.{slice, slice_step, put_bytes, get_or-put_bytes_in, get_or-put_bytes_out}

-- The byte at a place of a file, where `blocks` gives the bytes of each of its blocks.
pub byte_at : ℕ → (ℕ → List ℕ) → ℕ → ℕ
byte_at size blocks at = get_or (blocks (at / size)) (at % size) 0

-- The bytes of a file from a place on.
unfoldable pub contents : ℕ → (ℕ → List ℕ) → ℕ → ℕ → List ℕ
contents size blocks at zero = []
contents size blocks at (suc n) = byte_at size blocks at ∷ contents size blocks (at + 1) n

module _ (size : ℕ) (blocks : ℕ → List ℕ) where
  pub length-contents : (at n : ℕ) → length (contents size blocks at n) ≡ n
  unfolding contents
  length-contents at zero = refl
  length-contents at (suc n) = ap suc (length-contents (at + 1) n)

  pub contents_add :
      (at n k : ℕ)
      → contents size blocks at n ++ contents size blocks (at + n) k
        ≡ contents size blocks at (n + k)
  unfolding contents
  contents_add at zero k =
      let same : at + 0 ≡ at = omega arith in
      let none_more : 0 + k ≡ k = omega arith in rw (same, none_more) refl
  contents_add at (suc n) k =
      let shift : at + suc n ≡ at + 1 + n = omega arith in
      let more : suc n + k ≡ suc (n + k) = omega arith in
      rw (shift, more) (ap (λ l. byte_at size blocks at ∷ l) (contents_add (at + 1) n k))

  pub byte_at-block :
      (q o : ℕ) → o < size → byte_at size blocks (q * size + o) ≡ get_or (blocks q) o 0
  unfolding byte_at
  byte_at-block q o h =
      let here : 0 < size = omega arith in
      let block : (q * size + o) / size ≡ q =
        mul-add-div_right here q o ∙ omega (arith, div-eq_of_lt h) in
      let place : (q * size + o) % size ≡ o = mul-add-mod_self_right q size o ∙ mod-eq_of_lt h in
      rw (block, place) refl

  slice_block :
      (q o n : ℕ)
      → o + n ≤ size
      → size ≤ length (blocks q)
      → slice o n (blocks q) ≡ contents size blocks (q * size + o) n
  unfolding contents
  slice_block q o zero fits enough = refl
  slice_block q o (suc n) fits enough =
      let shift : q * size + o + 1 ≡ q * size + (o + 1) = omega arith in
      slice_step o n (blocks q) (omega arith)
      ∙ ap₂ (λ x l. x ∷ l) (sym (byte_at-block q o (omega arith)))
          (slice_block q (o + 1) n (omega arith) enough
            ∙ ap (λ a. contents size blocks a n) (sym shift))

  -- Bytes of one block.
  pub slice-contents :
      (at n : ℕ)
      → at % size + n ≤ size
      → size ≤ length (blocks (at / size))
      → slice (at % size) n (blocks (at / size)) ≡ contents size blocks at n
  slice-contents at n fits enough =
      slice_block (at / size) (at % size) n fits enough
      ∙ ap (λ a. contents size blocks a n) (omega (arith, div-add-mod at size))

  -- Lists that agree with the bytes of a file.
  pub contents_eq :
      (at : ℕ) (bytes : List ℕ)
      → ((k : ℕ) → k < length bytes → byte_at size blocks (at + k) ≡ get_or bytes k 0)
      → contents size blocks at (length bytes) ≡ bytes
  unfolding contents
  contents_eq at [] same = refl
  contents_eq at (x ∷ bytes) same =
      ap₂ (λ y l. y ∷ l) (ap (byte_at size blocks) (omega arith) ∙ same 0 (omega arith))
        (contents_eq (at + 1) bytes
          (λ k h. ap (byte_at size blocks) (omega arith) ∙ same (suc k) (omega arith)))

pub contents_same :
    (size : ℕ) (blocks after : ℕ → List ℕ) (at n : ℕ)
    → ((k : ℕ) → k < n → byte_at size after (at + k) ≡ byte_at size blocks (at + k))
    → contents size after at n ≡ contents size blocks at n
unfolding contents
contents_same size blocks after at zero same = refl
contents_same size blocks after at (suc n) same =
    ap₂ (λ y l. y ∷ l)
      (ap (byte_at size after) (omega arith)
        ∙ same 0 (omega arith)
        ∙ ap (byte_at size blocks) (omega arith))
      (contents_same size blocks after (at + 1) n (λ k h.
        ap (byte_at size after) (omega arith)
        ∙ same (suc k) (omega arith)
        ∙ ap (byte_at size blocks) (omega arith)))

-- The blocks of a file of which one is written.
unfoldable pub update : ℕ → List ℕ → (ℕ → List ℕ) → ℕ → List ℕ
update q buf blocks r = if r == q then buf else blocks r

module _ (size : ℕ) (blocks : ℕ → List ℕ) (q o : ℕ) (bytes : List ℕ)
    (fits : o + length bytes ≤ size) (enough : size ≤ length (blocks q)) where
  pub byte_at_put :
      (k : ℕ)
      → k < length bytes
      → byte_at size (update q (put_bytes o bytes (blocks q)) blocks) (q * size + o + k)
        ≡ get_or bytes k 0
  unfolding update
  byte_at_put k h =
      let place : q * size + o + k ≡ q * size + (o + k) = omega arith in
      let here : (q == q) ≡ true = ground arith in
      ap (byte_at size (update q (put_bytes o bytes (blocks q)) blocks)) place
      ∙ byte_at-block size (update q (put_bytes o bytes (blocks q)) blocks) q (o + k) (omega arith)
      ∙ rw here (get_or-put_bytes_in o bytes (blocks q) k (omega arith) h)

  pub byte_at_kept :
      (p : ℕ)
      → (p < q * size + o) ⊎ (q * size + o + length bytes ≤ p)
      → byte_at size (update q (put_bytes o bytes (blocks q)) blocks) p ≡ byte_at size blocks p
  unfolding update byte_at
  byte_at_kept p out = elim (Bool-cases (p / size == q)) [
    | inr other ↦ rw other refl
    | inl same ↦
        let there : p / size ≡ q = ground arith in
        let parts : q * size + p % size ≡ p =
          ap (λ r. r * size + p % size) (sym there) ∙ omega (arith, div-add-mod p size) in
        rw same (
          get_or-put_bytes_out o bytes (blocks q) (p % size)
            (elim out [ inl a ↦ inl (omega arith) | inr b ↦ inr (omega arith) ])
          ∙ ap (λ r. get_or (blocks r) (p % size) 0) (sym there))
  ]
