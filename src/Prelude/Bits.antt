-- ===== src/Prelude/Bits.antt =====
-- Bits of bytes, and bitmaps: lists of bytes where bit `i` is bit `i % 8` of byte `i / 8`.
use mathlib.Core.Path.{◌≡◌, refl, sym, ap, ◌∙◌}
use mathlib.Core.Logic.{◌≢◌, inl, inr}
use mathlib.Core.Bool.{Bool, true, false}
use mathlib.Core.List.{List}
use native.Mathlib.Omega.{arith}
use Prim.Native.Nat.{ℕ, zero, suc, ◌+◌, ◌*◌, ◌/◌, ◌%◌, ◌<◌}
use info.Prelude.Tests.{◌==◌, if◌then◌else◌, Bool-cases}
use info.Prelude.Lists.{length, get_or, set, length-set, get_or-set_self, get_or-set_ne}

-- `b & (1 << k)`, as a test.
unfoldable pub bit : ℕ → ℕ → Bool
bit b zero = b % 2 == 1
bit b (suc k) = bit (b / 2) k

-- `b | (1 << k)`
unfoldable pub with_bit : ℕ → ℕ → ℕ
with_bit b zero = if b % 2 == 1 then b else b + 1
with_bit b (suc k) = b % 2 + with_bit (b / 2) k * 2

-- `b & ~(1 << k)`
unfoldable pub without_bit : ℕ → ℕ → ℕ
without_bit b zero = if b % 2 == 1 then b / 2 * 2 else b
without_bit b (suc k) = b % 2 + without_bit (b / 2) k * 2

bit-join : (r b k : ℕ) → r < 2 → bit (r + b * 2) (suc k) ≡ bit b k
unfolding bit
bit-join r b k h = ap (λ n. bit n k) (omega arith)

bit-with_bit_self : (b k : ℕ) → bit (with_bit b k) k ≡ true
unfolding bit with_bit
bit-with_bit_self b zero = ground arith
bit-with_bit_self b (suc k) =
    bit-join (b % 2) (with_bit (b / 2) k) k (omega arith) ∙ bit-with_bit_self (b / 2) k

bit-without_bit_self : (b k : ℕ) → bit (without_bit b k) k ≡ false
unfolding bit without_bit
bit-without_bit_self b zero = ground arith
bit-without_bit_self b (suc k) =
    bit-join (b % 2) (without_bit (b / 2) k) k (omega arith) ∙ bit-without_bit_self (b / 2) k

half-with_bit : (b k : ℕ) → with_bit b zero / 2 ≡ b / 2
unfolding with_bit
half-with_bit b k = ground arith

half-without_bit : (b k : ℕ) → without_bit b zero / 2 ≡ b / 2
unfolding without_bit
half-without_bit b k = ground arith

bit-with_bit_ne : (b : ℕ) {k j : ℕ} → k ≢ j → bit (with_bit b k) j ≡ bit b j
unfolding bit with_bit
bit-with_bit_ne b {k = zero} {j = zero} h = absurd (h refl)
bit-with_bit_ne b {k = zero} {j = suc j} h = ap (λ n. bit n j) (half-with_bit b 0)
bit-with_bit_ne b {k = suc k} {j = zero} h = ap (λ n. n == 1) (omega arith)
bit-with_bit_ne b {k = suc k} {j = suc j} h =
    bit-join (b % 2) (with_bit (b / 2) k) j (omega arith)
    ∙ bit-with_bit_ne (b / 2) {k = k} {j = j} (λ e. h (ap suc e))

bit-without_bit_ne : (b : ℕ) {k j : ℕ} → k ≢ j → bit (without_bit b k) j ≡ bit b j
unfolding bit without_bit
bit-without_bit_ne b {k = zero} {j = zero} h = absurd (h refl)
bit-without_bit_ne b {k = zero} {j = suc j} h = ap (λ n. bit n j) (half-without_bit b 0)
bit-without_bit_ne b {k = suc k} {j = zero} h = ap (λ n. n == 1) (omega arith)
bit-without_bit_ne b {k = suc k} {j = suc j} h =
    bit-join (b % 2) (without_bit (b / 2) k) j (omega arith)
    ∙ bit-without_bit_ne (b / 2) {k = k} {j = j} (λ e. h (ap suc e))

-- Whether bit `i` of a bitmap is set.
unfoldable pub marked : List ℕ → ℕ → Bool
marked bm i = bit (get_or bm (i / 8) 0) (i % 8)

-- A bitmap with its bit `i` set, and with it cleared.
unfoldable pub mark : List ℕ → ℕ → List ℕ
mark bm i = set bm (i / 8) (with_bit (get_or bm (i / 8) 0) (i % 8))

unfoldable pub unmark : List ℕ → ℕ → List ℕ
unmark bm i = set bm (i / 8) (without_bit (get_or bm (i / 8) 0) (i % 8))

pub marked-mark_self : (bm : List ℕ) (i : ℕ) → i < length bm * 8 → marked (mark bm i) i ≡ true
unfolding marked mark
marked-mark_self bm i h =
    ap (λ b. bit b (i % 8)) (get_or-set_self bm (i / 8) _ (omega arith))
    ∙ bit-with_bit_self (get_or bm (i / 8) 0) (i % 8)

pub marked-unmark_self : (bm : List ℕ) (i : ℕ) → i < length bm * 8 → marked (unmark bm i) i ≡ false
unfolding marked unmark
marked-unmark_self bm i h =
    ap (λ b. bit b (i % 8)) (get_or-set_self bm (i / 8) _ (omega arith))
    ∙ bit-without_bit_self (get_or bm (i / 8) 0) (i % 8)

-- A change of one byte that keeps its bits but bit `i % 8` keeps the bits of the map but bit `i`.
marked-set_ne :
    (bm : List ℕ) {i j : ℕ} (v : ℕ)
    → i < length bm * 8
    → i ≢ j
    → ((k : ℕ) → i % 8 ≢ k → bit v k ≡ bit (get_or bm (i / 8) 0) k)
    → marked (set bm (i / 8) v) j ≡ marked bm j
unfolding marked
marked-set_ne bm {i = i} {j = j} v h ne same = elim (Bool-cases (i / 8 == j / 8)) [
  | inl e ↦
      let q : i / 8 ≡ j / 8 = ground arith in
      ap (λ n. bit (get_or (set bm (i / 8) v) n 0) (j % 8)) (sym q)
      ∙ ap (λ b. bit b (j % 8)) (get_or-set_self bm (i / 8) v (omega arith))
      ∙ same (j % 8) (λ e. ne (omega arith))
      ∙ ap (λ n. bit (get_or bm n 0) (j % 8)) q
  | inr e ↦ ap (λ b. bit b (j % 8)) (get_or-set_ne bm v (λ q. absurd (ground arith)))
]

pub marked-mark_ne :
    (bm : List ℕ) {i j : ℕ} → i < length bm * 8 → i ≢ j → marked (mark bm i) j ≡ marked bm j
unfolding mark
marked-mark_ne bm {i = i} {j = j} h ne =
    marked-set_ne bm {i = i} {j = j} (with_bit (get_or bm (i / 8) 0) (i % 8)) h ne
      (λ k. bit-with_bit_ne (get_or bm (i / 8) 0))

pub marked-unmark_ne :
    (bm : List ℕ) {i j : ℕ} → i < length bm * 8 → i ≢ j → marked (unmark bm i) j ≡ marked bm j
unfolding unmark
marked-unmark_ne bm {i = i} {j = j} h ne =
    marked-set_ne bm {i = i} {j = j} (without_bit (get_or bm (i / 8) 0) (i % 8)) h ne
      (λ k. bit-without_bit_ne (get_or bm (i / 8) 0))

pub length-mark : (bm : List ℕ) (i : ℕ) → length (mark bm i) ≡ length bm
unfolding mark
length-mark bm i = length-set bm (i / 8) _

pub length-unmark : (bm : List ℕ) (i : ℕ) → length (unmark bm i) ≡ length bm
unfolding unmark
length-unmark bm i = length-set bm (i / 8) _
