-- ===== src/Prelude/Maps.antt =====
-- Maps from numbers, as functions.
use Prim.Native.Nat.{ℕ}
use mathlib.Core.Path.{◌≡◌, refl}
use mathlib.Core.Logic.{◌≢◌, inl, inr}
use mathlib.Core.Bool.{true}
use native.Mathlib.Omega.{arith}
use info.Prelude.Tests.{◌==◌, if◌then◌else◌, Bool-cases}

module _ {ℓ} {A : Type ℓ} where
  -- The map with the value at one key replaced.
  unfoldable pub put : (ℕ → A) → ℕ → A → ℕ → A
  put f i v j = if j == i then v else f j

  pub put_self : (f : ℕ → A) (i : ℕ) (v : A) → put f i v i ≡ v
  unfolding put
  put_self f i v = let same : (i == i) ≡ true = ground arith in rw same refl

  pub put_ne : (f : ℕ → A) {i j : ℕ} (v : A) → i ≢ j → put f i v j ≡ f j
  unfolding put
  put_ne f {i} {j} v ne = elim (Bool-cases (j == i)) [
    | inl e ↦ absurd (ne (ground arith))
    | inr e ↦ rw e refl
  ]
