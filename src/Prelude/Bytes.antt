-- ===== src/Prelude/Bytes.antt =====
-- C strings as lists of bytes without the terminator: `strcmp` and `strncmp` as tests.
use Prim.Native.Nat.{ℕ}
use mathlib.Core.Path.{◌≡◌, refl}
use mathlib.Core.Bool.{Bool, true, false, ◌&&◌}
use mathlib.Core.List.{List, [], ◌∷◌, ◌++◌}
use native.Mathlib.Omega.{arith}
use info.Prelude.Tests.{◌==◌}
use info.Prelude.Lists.{length, drop}

-- `strcmp(a, b) == 0`
abbrev pub bytes_eq : List ℕ → List ℕ → Bool
bytes_eq [] [] = true
bytes_eq [] (y ∷ ys) = false
bytes_eq (x ∷ xs) [] = false
bytes_eq (x ∷ xs) (y ∷ ys) = x == y && bytes_eq xs ys

-- `strncmp(s, p, strlen(p)) == 0`
abbrev pub is_prefix : List ℕ → List ℕ → Bool
is_prefix [] s = true
is_prefix (p ∷ ps) [] = false
is_prefix (p ∷ ps) (c ∷ cs) = p == c && is_prefix ps cs

pub bytes_eq→eq : (xs ys : List ℕ) → bytes_eq xs ys ≡ true → xs ≡ ys
bytes_eq→eq [] [] h = refl
bytes_eq→eq [] (y ∷ ys) h = cc
bytes_eq→eq (x ∷ xs) [] h = cc
bytes_eq→eq (x ∷ xs) (y ∷ ys) h = ground (arith, bytes_eq→eq xs ys)

pub bytes_eq_refl : (xs : List ℕ) → bytes_eq xs xs ≡ true
bytes_eq_refl [] = refl
bytes_eq_refl (x ∷ xs) = ground (arith, bytes_eq_refl xs)

pub is_prefix→append : (p s : List ℕ) → is_prefix p s ≡ true → p ++ drop (length p) s ≡ s
is_prefix→append [] s h = refl
is_prefix→append (p ∷ ps) [] h = cc
is_prefix→append (p ∷ ps) (c ∷ cs) h = ground (arith, is_prefix→append ps cs)

pub is_prefix-append : (p s : List ℕ) → is_prefix p (p ++ s) ≡ true
is_prefix-append [] s = refl
is_prefix-append (p ∷ ps) s = ground (arith, is_prefix-append ps s)

pub drop-append : (p s : List ℕ) → drop (length p) (p ++ s) ≡ s
drop-append [] s = refl
drop-append (p ∷ ps) s = drop-append ps s
