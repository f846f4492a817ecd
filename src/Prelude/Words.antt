-- ===== src/Prelude/Words.antt =====
-- Words in memory: little-endian fields of 2 and 4 bytes, copies of bytes into a buffer, and slices.
-- A packed structure is the list of its bytes. Past the end of a list a read gives 0, and a write
-- does nothing.
use Prim.Native.Nat.{ℕ, zero, suc, ◌+◌, ◌*◌, ◌/◌, ◌%◌, ◌^◌, ◌≤◌, ◌<◌}
use mathlib.Core.Path.{◌≡◌, refl, sym, ap, ap₂, ◌∙◌}
use mathlib.Core.Logic.{◌⊎◌, inl, inr}
use mathlib.Core.List.{List, [], ◌∷◌}
use native.Mathlib.Omega.{arith}
use info.Prelude.Lists.{
  length, get_or, set, length-set, take, drop, length-take, length-drop, replicate, get_or-set_self,
  get_or-set_ne,
}

-- `memcpy(buf + offset, bytes, ...)`
unfoldable pub put_bytes : ℕ → List ℕ → List ℕ → List ℕ
put_bytes offset [] buf = buf
put_bytes offset (x ∷ xs) buf = put_bytes (offset + 1) xs (set buf offset x)

-- The bytes that a copy from `buf + offset` reads.
abbrev pub slice : ℕ → ℕ → List ℕ → List ℕ
slice offset n buf = take n (drop offset buf)

unfoldable pub word16 : ℕ → List ℕ → ℕ
word16 offset buf = get_or buf offset 0 + get_or buf (offset + 1) 0 * 256

unfoldable pub word32 : ℕ → List ℕ → ℕ
word32 offset buf =
    get_or buf offset 0
    + get_or buf (offset + 1) 0 * 256
    + get_or buf (offset + 2) 0 * 65536
    + get_or buf (offset + 3) 0 * 16777216

abbrev bytes16 : ℕ → List ℕ
bytes16 v = v % 256 ∷ v / 256 % 256 ∷ []

abbrev bytes32 : ℕ → List ℕ
bytes32 v = v % 256 ∷ v / 256 % 256 ∷ v / 65536 % 256 ∷ v / 16777216 % 256 ∷ []

unfoldable pub put16 : ℕ → ℕ → List ℕ → List ℕ
put16 offset v buf = put_bytes offset (bytes16 v) buf

unfoldable pub put32 : ℕ → ℕ → List ℕ → List ℕ
put32 offset v buf = put_bytes offset (bytes32 v) buf

pub length-put_bytes : (o : ℕ) (v b : List ℕ) → length (put_bytes o v b) ≡ length b
unfolding put_bytes
length-put_bytes o [] b = refl
length-put_bytes o (x ∷ v) b = length-put_bytes (o + 1) v (set b o x) ∙ length-set b o x

pub get_or-put_bytes_out :
    (o : ℕ) (v b : List ℕ) (k : ℕ)
    → (k < o) ⊎ (o + length v ≤ k)
    → get_or (put_bytes o v b) k 0 ≡ get_or b k 0
unfolding put_bytes
get_or-put_bytes_out o [] b k out = refl
get_or-put_bytes_out o (x ∷ v) b k out =
    get_or-put_bytes_out (o + 1) v (set b o x) k
      (elim out [ inl a ↦ inl (omega arith) | inr c ↦ inr (omega arith) ])
    ∙ get_or-set_ne b {i = o} {j = k} x
        (λ e. elim out [ inl a ↦ omega arith | inr c ↦ omega arith ])

pub get_or-put_bytes_in :
    (o : ℕ) (v b : List ℕ) (k : ℕ)
    → o + length v ≤ length b
    → k < length v
    → get_or (put_bytes o v b) (o + k) 0 ≡ get_or v k 0
unfolding put_bytes
get_or-put_bytes_in o [] b k fits h = absurd (omega arith)
get_or-put_bytes_in o (x ∷ v) b zero fits h =
    get_or-put_bytes_out (o + 1) v (set b o x) (o + 0) (inl (omega arith))
    ∙ ap (λ i. get_or (set b o x) i 0) (omega arith)
    ∙ get_or-set_self b o x (omega arith)
get_or-put_bytes_in o (x ∷ v) b (suc k) fits h =
    ap (λ i. get_or (put_bytes (o + 1) v (set b o x)) i 0) (omega arith)
    ∙ get_or-put_bytes_in (o + 1) v (set b o x) k (omega (arith, length-set b o x)) (omega arith)

add_zero_eq : (o : ℕ) → o + 0 ≡ o
add_zero_eq o = omega arith

pub length-put32 : (o v : ℕ) (b : List ℕ) → length (put32 o v b) ≡ length b
unfolding put32
length-put32 o v b = length-put_bytes o (bytes32 v) b

pub word32-put32_self :
    (o v : ℕ) (b : List ℕ) → o + 4 ≤ length b → v < 2 ^ 32 → word32 o (put32 o v b) ≡ v
unfolding word32 put32
word32-put32_self o v b fits h =
    let at_0 = get_or-put_bytes_in o (bytes32 v) b 0 fits (omega arith) in
    let at_1 = get_or-put_bytes_in o (bytes32 v) b 1 fits (omega arith) in
    let at_2 = get_or-put_bytes_in o (bytes32 v) b 2 fits (omega arith) in
    let at_3 = get_or-put_bytes_in o (bytes32 v) b 3 fits (omega arith) in
    let at_o = ap (λ i. get_or (put_bytes o (bytes32 v) b) i 0) (add_zero_eq o) in
    omega (arith, at_0, at_1, at_2, at_3, at_o)

pub word32-put32_ne :
    (o p v : ℕ) (b : List ℕ) → (p + 4 ≤ o) ⊎ (o + 4 ≤ p) → word32 p (put32 o v b) ≡ word32 p b
unfolding word32 put32
word32-put32_ne o p v b out =
    let same : (k : ℕ) → k < 4 → get_or (put_bytes o (bytes32 v) b) (p + k) 0 ≡ get_or b (p + k) 0 =
      λ k h.
        get_or-put_bytes_out o (bytes32 v) b (p + k)
          (elim out [ inl a ↦ inl (omega arith) | inr c ↦ inr (omega arith) ]) in
    let at_p = ap (λ i. get_or (put_bytes o (bytes32 v) b) i 0) (add_zero_eq p) in
    let at_p' = ap (λ i. get_or b i 0) (add_zero_eq p) in
    omega (
      arith,
      same 0 (omega arith),
      same 1 (omega arith),
      same 2 (omega arith),
      same 3 (omega arith),
      at_p,
      at_p',
    )

pub length-put16 : (o v : ℕ) (b : List ℕ) → length (put16 o v b) ≡ length b
unfolding put16
length-put16 o v b = length-put_bytes o (bytes16 v) b

succ_add : (o : ℕ) → suc (o + 1) ≡ suc o + 1
succ_add o = omega arith

pub slice_step :
    (o n : ℕ) (b : List ℕ) → o < length b → slice o (suc n) b ≡ get_or b o 0 ∷ slice (o + 1) n b
slice_step o n [] h = absurd (omega arith)
slice_step zero n (x ∷ b) h = refl
slice_step (suc o) n (x ∷ b) h =
    slice_step o n b (omega arith) ∙ ap (λ k. get_or b o 0 ∷ slice k n (x ∷ b)) (succ_add o)

pub slice-put_bytes_self :
    (o : ℕ) (v b : List ℕ) → o + length v ≤ length b → slice o (length v) (put_bytes o v b) ≡ v
unfolding put_bytes
slice-put_bytes_self o [] b h = refl
slice-put_bytes_self o (x ∷ v) b h =
    let fits : o < length (put_bytes (o + 1) v (set b o x)) =
      omega (arith, length-put_bytes (o + 1) v (set b o x), length-set b o x) in
    slice_step o (length v) _ fits
    ∙ ap₂ (λ y ys. y ∷ ys)
        (get_or-put_bytes_out (o + 1) v (set b o x) o (inl (omega arith))
          ∙ get_or-set_self b o x (omega arith))
        (slice-put_bytes_self (o + 1) v (set b o x) (omega (arith, length-set b o x)))

pub length-slice : (o n : ℕ) (b : List ℕ) → o + n ≤ length b → length (slice o n b) ≡ n
length-slice o n b h = omega (arith, length-take n (drop o b), length-drop o b)

get_or-zeros : (n k : ℕ) → ◌≡◌ {A = ℕ} (get_or (replicate n 0) k 0) 0
get_or-zeros zero k = refl
get_or-zeros (suc n) zero = refl
get_or-zeros (suc n) (suc k) = get_or-zeros n k

-- The fields of a buffer of zeros.
pub word16-zeros : (n o : ℕ) → word16 o (replicate n 0) ≡ 0
unfolding word16
word16-zeros n o = omega (arith, get_or-zeros n o, get_or-zeros n (o + 1))

pub word32-zeros : (n o : ℕ) → word32 o (replicate n 0) ≡ 0
unfolding word32
word32-zeros n o = omega (
  arith,
  get_or-zeros n o,
  get_or-zeros n (o + 1),
  get_or-zeros n (o + 2),
  get_or-zeros n (o + 3),
)

pub get_or-take : (n : ℕ) (xs : List ℕ) (k : ℕ) → k < n → get_or (take n xs) k 0 ≡ get_or xs k 0
get_or-take zero xs k h = absurd (omega arith)
get_or-take (suc n) [] k h = refl
get_or-take (suc n) (x ∷ xs) zero h = refl
get_or-take (suc n) (x ∷ xs) (suc k) h = get_or-take n xs k (omega arith)

pub get_or-drop : (n : ℕ) (xs : List ℕ) (k : ℕ) → get_or (drop n xs) k 0 ≡ get_or xs (n + k) 0
get_or-drop zero xs k = ap (λ i. get_or xs i 0) (omega arith)
get_or-drop (suc n) [] k = refl
get_or-drop (suc n) (x ∷ xs) k =
    get_or-drop n xs k ∙ ap (λ i. get_or (x ∷ xs) i 0) {x = suc (n + k)} (omega arith)

pub get_or-put16_out :
    (o v : ℕ) (b : List ℕ) (k : ℕ) → (k < o) ⊎ (o + 2 ≤ k) → get_or (put16 o v b) k 0 ≡ get_or b k 0
unfolding put16
get_or-put16_out o v b k out = get_or-put_bytes_out o (bytes16 v) b k out

pub get_or-put32_out :
    (o v : ℕ) (b : List ℕ) (k : ℕ) → (k < o) ⊎ (o + 4 ≤ k) → get_or (put32 o v b) k 0 ≡ get_or b k 0
unfolding put32
get_or-put32_out o v b k out = get_or-put_bytes_out o (bytes32 v) b k out

pub word16-put16_self :
    (o v : ℕ) (b : List ℕ) → o + 2 ≤ length b → v < 2 ^ 16 → word16 o (put16 o v b) ≡ v
unfolding word16 put16
word16-put16_self o v b fits h =
    let at_0 = get_or-put_bytes_in o (bytes16 v) b 0 fits (omega arith) in
    let at_1 = get_or-put_bytes_in o (bytes16 v) b 1 fits (omega arith) in
    let at_o = ap (λ i. get_or (put_bytes o (bytes16 v) b) i 0) (add_zero_eq o) in
    omega (arith, at_0, at_1, at_o)

-- Two buffers that agree on the bytes from an offset on, as many as given.
unfoldable pub Agree : ℕ → ℕ → List ℕ → List ℕ → Type 0
Agree o n a b = (k : ℕ) → o ≤ k → k < o + n → get_or a k 0 ≡ get_or b k 0

pub word16-Agree : (o : ℕ) (a b : List ℕ) → Agree o 2 a b → word16 o a ≡ word16 o b
unfolding word16 Agree
word16-Agree o a b same =
    omega (arith, same o (omega arith) (omega arith), same (o + 1) (omega arith) (omega arith))

pub word32-Agree : (o : ℕ) (a b : List ℕ) → Agree o 4 a b → word32 o a ≡ word32 o b
unfolding word32 Agree
word32-Agree o a b same = omega (
  arith,
  same o (omega arith) (omega arith),
  same (o + 1) (omega arith) (omega arith),
  same (o + 2) (omega arith) (omega arith),
  same (o + 3) (omega arith) (omega arith),
)

pub slice-Agree :
    (o n : ℕ) (a b : List ℕ)
    → length a ≡ length b
    → o + n ≤ length a
    → Agree o n a b
    → slice o n a ≡ slice o n b
unfolding Agree
slice-Agree o zero a b e fits same = refl
slice-Agree o (suc n) a b e fits same =
    slice_step o n a (omega arith)
    ∙ ap₂ (λ x l. x ∷ l) (same o (omega arith) (omega arith))
        (slice-Agree (o + 1) n a b e (omega arith) (λ k h l. same k (omega arith) (omega arith)))
    ∙ sym (slice_step o n b (omega arith))
