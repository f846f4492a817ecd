-- ===== src/Prelude/Ring.antt =====
-- Circular storage: what an array holds from an index on, going round at its size. The
-- keyboard's queue and the pipes keep their bytes this way.
use Prim.Native.Nat.{ℕ, zero, suc, ◌+◌, ◌-◌, ◌%◌, ◌≤◌, ◌<◌}
use mathlib.Core.Path.{◌≡◌, refl, ap, ap₂, ◌∙◌}
use mathlib.Core.Logic.{◌≢◌}
use mathlib.Core.List.{List, [], ◌∷◌, ◌++◌}
use native.Mathlib.Omega.{arith}
use native.Mathlib.Decide.{dec_lt}
use native.Mathlib.Nat.{add-zero, sub-zero, mod-eq_of_lt, mod-eq-sub-mod, mod-add-mod}
use info.Prelude.Lists.{length, get_or, set, take, drop}

pub get_or-set_self {ℓ} :
    {A : Type ℓ} (xs : List A) (i : ℕ) (v d : A) → i < length xs → get_or (set xs i v) i d ≡ v
get_or-set_self [] i v d h = absurd (omega arith)
get_or-set_self (x ∷ xs) zero v d h = refl
get_or-set_self (x ∷ xs) (suc i) v d h = get_or-set_self xs i v d (omega arith)

pub get_or-set_ne {ℓ} :
    {A : Type ℓ} (xs : List A) (i j : ℕ) (v d : A) → i ≢ j → get_or (set xs i v) j d ≡ get_or xs j d
get_or-set_ne [] i j v d h = refl
get_or-set_ne (x ∷ xs) zero zero v d h = absurd (h refl)
get_or-set_ne (x ∷ xs) zero (suc j) v d h = refl
get_or-set_ne (x ∷ xs) (suc i) zero v d h = refl
get_or-set_ne (x ∷ xs) (suc i) (suc j) v d h = get_or-set_ne xs i j v d (λ e. h (ap suc e))

-- The `n` bytes from `head` on.
abbrev pub stored : ℕ → List ℕ → ℕ → ℕ → List ℕ
stored size buf head zero = []
stored size buf head (suc n) = get_or buf head 0 ∷ stored size buf ((head + 1) % size) n

pub length-stored : (size : ℕ) (buf : List ℕ) (head n : ℕ) → length (stored size buf head n) ≡ n
length-stored size buf head zero = refl
length-stored size buf head (suc n) = ap suc (length-stored size buf ((head + 1) % size) n)

-- The first byte of a range that is not empty.
pub stored-first :
    (size : ℕ) (buf : List ℕ) (head n : ℕ)
    → 0 < n
    → stored size buf head n ≡ get_or buf head 0 ∷ stored size buf ((head + 1) % size) (n - 1)
stored-first size buf head zero h = absurd (omega arith)
stored-first size buf head (suc n) h =
    ap (λ k. get_or buf head 0 ∷ stored size buf ((head + 1) % size) k) (omega arith)

pub stored-none : (size : ℕ) (buf : List ℕ) (head n : ℕ) → n ≡ 0 → stored size buf head n ≡ []
stored-none size buf head zero h = refl
stored-none size buf head (suc n) h = absurd (omega arith)

-- Going on from `head + 1`, round the end or not.
pub next_slot : (size head n : ℕ) → ((head + 1) % size + n) % size ≡ (head + suc n) % size
next_slot size head n = mod-add-mod (head + 1) size n ∙ ap (λ k. k % size) (omega arith)

-- Fewer than `size` steps forward do not come back.
slot-ne : (size head k : ℕ) → head < size → suc k < size → (head + suc k) % size ≢ head
slot-ne size head k h hk = elim (dec_lt (head + suc k) size) [
  | yes p ↦ omega (arith, mod-eq_of_lt p)
  | no p ↦ omega (
    arith,
    mod-eq-sub-mod {n = head + suc k} {m = size} (omega arith),
    mod-eq_of_lt {n = head + suc k - size} {m = size} (omega arith),
  )
]

-- A byte written behind a range extends it.
pub stored-set :
    (size : ℕ) (buf : List ℕ) (head n i v : ℕ)
    → i ≡ (head + n) % size
    → size ≤ length buf
    → head < size
    → n < size
    → stored size (set buf i v) head (suc n) ≡ stored size buf head n ++ (v ∷ [])
stored-set size buf head zero i v e hb hh hn =
    let here : i ≡ head = e ∙ ap (λ k. k % size) (add-zero head) ∙ mod-eq_of_lt hh in
    ap (λ x. x ∷ [])
      (ap (λ k. get_or (set buf k v) head 0) here ∙ get_or-set_self buf head v 0 (omega arith))
stored-set size buf head (suc n) i v e hb hh hn =
    let apart : i ≢ head = λ p. slot-ne size head n hh hn (omega arith) in
    ap₂ ◌∷◌ (get_or-set_ne buf i head v 0 apart) (
      stored-set size buf ((head + 1) % size) n i v (omega (arith, next_slot size head n)) hb
        (omega arith) (omega arith))

pub stored-take :
    (size : ℕ) (buf : List ℕ) (head n m : ℕ)
    → n ≤ m
    → take n (stored size buf head m) ≡ stored size buf head n
stored-take size buf head zero m h = refl
stored-take size buf head (suc n) zero h = absurd (omega arith)
stored-take size buf head (suc n) (suc m) h =
    ap (λ l. get_or buf head 0 ∷ l) (stored-take size buf ((head + 1) % size) n m (omega arith))

pub stored-drop :
    (size : ℕ) (buf : List ℕ) (head n m : ℕ)
    → head < size
    → n ≤ m
    → drop n (stored size buf head m) ≡ stored size buf ((head + n) % size) (m - n)
stored-drop size buf head zero m b h = rw (add-zero, mod-eq_of_lt b, sub-zero)
stored-drop size buf head (suc n) zero b h = absurd (omega arith)
stored-drop size buf head (suc n) (suc m) b h =
    stored-drop size buf ((head + 1) % size) n m (omega arith) (omega arith)
    ∙ ap₂ (stored size buf) (next_slot size head n) (omega arith)
