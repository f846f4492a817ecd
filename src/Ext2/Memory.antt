-- ===== src/Ext2/Memory.antt =====
-- A disk in memory, and that it stores.
use info.Prelude.{
  ℕ, ap₂, zero, suc, ◌+◌, ◌-◌, ◌*◌, ◌≤◌, ◌<◌, ◌≡◌, refl, sym, ap, ◌∙◌, ◌⊎◌, inl, inr, true, false,
  ◌&&◌, Option, none, some, List, [], ◌∷◌, arith, ltb, leb, if◌then◌else◌, Bool-cases, length,
  get_or, take, length-take, take_all,
}
use info.Ext2.Device.{BlockDevice, Stores, sector_size}

-- The bytes of a disk from a place on.
unfoldable pub bytes_of : (ℕ → ℕ) → ℕ → ℕ → List ℕ
bytes_of d at zero = []
bytes_of d at (suc n) = d at ∷ bytes_of d (at + 1) n

pub overlay : ℕ → List ℕ → (ℕ → ℕ) → ℕ → ℕ
overlay at buf d p = if leb at p && ltb p (at + length buf) then get_or buf (p - at) 0 else d p

abbrev pub memory : BlockDevice (ℕ → ℕ)
memory = record {
  read = λ s n d. some (bytes_of d (s * sector_size) (n * sector_size));
  write = λ s n buf d. (true, overlay (s * sector_size) (take (n * sector_size) buf) d);
  behind = [];
}

length-bytes_of : (d : ℕ → ℕ) (at n : ℕ) → length (bytes_of d at n) ≡ n
unfolding bytes_of
length-bytes_of d at zero = refl
length-bytes_of d at (suc n) = ap suc (length-bytes_of d (at + 1) n)

bytes_of-apart :
    (d e : ℕ → ℕ) (at n : ℕ)
    → ((p : ℕ) → at ≤ p → p < at + n → e p ≡ d p)
    → bytes_of e at n ≡ bytes_of d at n
unfolding bytes_of
bytes_of-apart d e at zero same = refl
bytes_of-apart d e at (suc n) same =
    ap₂ (λ x l. x ∷ l) (same at (omega arith) (omega arith))
      (bytes_of-apart d e (at + 1) n (λ p h l. same p (omega arith) (omega arith)))

bytes_of-same :
    (e : ℕ → ℕ) (at : ℕ) (buf : List ℕ)
    → ((k : ℕ) → k < length buf → e (at + k) ≡ get_or buf k 0)
    → bytes_of e at (length buf) ≡ buf
unfolding bytes_of
bytes_of-same e at [] same = refl
bytes_of-same e at (x ∷ buf) same =
    ap₂ (λ y l. y ∷ l) (ap e (omega arith) ∙ same 0 (omega arith))
      (bytes_of-same e (at + 1) buf (λ k h. ap e (omega arith) ∙ same (suc k) (omega arith)))

overlay-in :
    (at : ℕ) (buf : List ℕ) (d : ℕ → ℕ) (k : ℕ)
    → k < length buf
    → overlay at buf d (at + k) ≡ get_or buf k 0
unfolding overlay
overlay-in at buf d k h =
    let low : leb at (at + k) ≡ true = ground arith in
    let high : ltb (at + k) (at + length buf) ≡ true = ground arith in
    let place : at + k - at ≡ k = omega arith in rw (low, high, place) refl

overlay-out :
    (at : ℕ) (buf : List ℕ) (d : ℕ → ℕ) (p : ℕ)
    → (p < at) ⊎ (at + length buf ≤ p)
    → overlay at buf d p ≡ d p
unfolding overlay
overlay-out at buf d p (inl h) = let low : leb at p ≡ false = ground arith in rw low refl
overlay-out at buf d p (inr h) = elim (Bool-cases (leb at p)) [
  | inl low ↦ let high : ltb p (at + length buf) ≡ false = ground arith in rw (low, high) refl
  | inr low ↦ rw low refl
]

content_of : Option (List ℕ) → List ℕ
content_of none = []
content_of (some buf) = buf

pub memory-Stores : Stores memory
unfolding content_of
memory-Stores = record {
  read_size = λ {s} {n} {d} {buf} e.
      ap (λ o. length (content_of o)) (sym e) ∙ length-bytes_of d (s * 512) (n * 512);
  writes = λ s n buf d. refl;
  read-write_self = λ s n buf d h.
      let whole : take (n * 512) buf ≡ buf = take_all (n * 512) buf (omega arith) in
      rw (whole, sym h)
        (ap some
          (bytes_of-same (overlay (s * 512) buf d) (s * 512) buf (overlay-in (s * 512) buf d)));
  read-write_apart = λ s n t m buf d h.
      let fits = length-take (n * 512) buf in
      ap some (
        bytes_of-apart d (overlay (s * 512) (take (n * 512) buf) d) (t * 512) (m * 512)
          (λ p low high.
            overlay-out (s * 512) (take (n * 512) buf) d p
              (elim h [ inl a ↦ inl (omega arith) | inr b ↦ inr (omega arith) ])));
}
