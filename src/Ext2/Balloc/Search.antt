-- ===== src/Ext2/Balloc/Search.antt =====
-- The search of `AllocBlock` in a bitmap.
use mathlib.Core.Option.{some-injective}
use info.Prelude.{
  [], ◌∷◌, ◌++◌, ap, length, get_or, ◌*◌, ◌/◌, ◌%◌, ℕ, subst, zero, suc, ◌+◌, ◌≤◌, ◌<◌, ◌≡◌, refl,
  sym, ◌∙◌, inl, inr, true, false, none, some, List, arith, ◌==◌, Bool-cases,
}
use info.Prelude.Bits.{marked, bit}
use info.Ext2.Balloc.{free_bit}

pub free_bit-skip :
    (rounds i : ℕ) (bitmap : List ℕ)
    → marked bitmap i ≡ true
    → free_bit (suc rounds) i bitmap ≡ free_bit rounds (i + 1) bitmap
unfolding free_bit
free_bit-skip rounds i bitmap m = rw m refl

pub free_bit-stop :
    (rounds i : ℕ) (bitmap : List ℕ)
    → marked bitmap i ≡ false
    → free_bit (suc rounds) i bitmap ≡ some i
unfolding free_bit
free_bit-stop rounds i bitmap m = rw m refl

get_or-append : (l more : List ℕ) (i : ℕ) → i < length l → get_or (l ++ more) i 0 ≡ get_or l i 0
get_or-append [] more i h = absurd (omega arith)
get_or-append (x ∷ l) more zero h = refl
get_or-append (x ∷ l) more (suc i) h = get_or-append l more i (omega arith)

-- A bit of a bitmap is not behind it.
pub marked-append :
    (bitmap more : List ℕ) (i : ℕ)
    → i < length bitmap * 8
    → marked (bitmap ++ more) i ≡ marked bitmap i
unfolding marked
marked-append bitmap more i h =
    ap (λ b. bit b (i % 8)) (get_or-append bitmap more (i / 8) (omega arith))

pub none-some : {A P : Type 0} {k : A} → none ≡ some k → P
none-some e = absurd (ground arith)

-- The first bit that is clear, in a range.
unfoldable pub FirstClear : ℕ → ℕ → List ℕ → ℕ → Type 0
FirstClear i bound bitmap k =
    (i ≤ k)
    × (k < bound)
    × (marked bitmap k ≡ false)
    × ((j : ℕ) → i ≤ j → j < k → marked bitmap j ≡ true)

pub FirstClear-append :
    (i bound : ℕ) (bitmap more : List ℕ) (k : ℕ)
    → ((j : ℕ) → i ≤ j → j < bound → j < length bitmap * 8)
    → FirstClear i bound (bitmap ++ more) k
    → FirstClear i bound bitmap k
unfolding FirstClear
FirstClear-append i bound bitmap more k inside (low, high, clear, set_before) = (
  low,
  high,
  sym (marked-append bitmap more k (inside k low high)) ∙ clear,
  λ j h l. sym (marked-append bitmap more j (inside j h (omega arith))) ∙ set_before j h l,
)

pub free_bit_lem :
    (rounds i : ℕ) (bitmap : List ℕ) {k : ℕ}
    → free_bit rounds i bitmap ≡ some k
    → FirstClear i (i + rounds) bitmap k
unfolding free_bit FirstClear
free_bit_lem zero i bitmap e = none-some e
free_bit_lem (suc rounds) i bitmap {k} e = elim (Bool-cases (marked bitmap i)) [
  | inl m ↦
      let rest =
        free_bit_lem rounds (i + 1) bitmap {k = k} (sym (free_bit-skip rounds i bitmap m) ∙ e) in
      (
        omega (arith, rest.0),
        omega (arith, rest.1),
        rest.2,
        λ j h l. elim (Bool-cases (j == i)) [
          | inl at ↦ let same : i ≡ j = ground arith in subst (λ n. marked bitmap n ≡ true) same m
          | inr past ↦ rest.3 j (ground arith) l
        ],
      )
  | inr m ↦
      let stop = sym (free_bit-stop rounds i bitmap m) ∙ e in
      let same : i ≡ k = some-injective i k stop in
      (
        omega arith,
        omega arith,
        subst (λ n. marked bitmap n ≡ false) same m,
        λ j h l. absurd (omega arith),
      )
]

pub free_bit-none :
    (rounds i : ℕ) (bitmap : List ℕ)
    → free_bit rounds i bitmap ≡ none
    → (j : ℕ) → i ≤ j
    → j < i + rounds
    → marked bitmap j ≡ true
free_bit-none zero i bitmap e j h l = absurd (omega arith)
free_bit-none (suc rounds) i bitmap e j h l = elim (Bool-cases (marked bitmap i)) [
  | inr m ↦ none-some (sym e ∙ free_bit-stop rounds i bitmap m)
  | inl m ↦ elim (Bool-cases (j == i)) [
    | inl at ↦ let same : i ≡ j = ground arith in subst (λ n. marked bitmap n ≡ true) same m
    | inr past ↦
        free_bit-none rounds (i + 1) bitmap (sym (free_bit-skip rounds i bitmap m) ∙ e) j
          (ground arith) (omega arith)
  ]
]
