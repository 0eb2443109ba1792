-- ===== src/Base/Digits.antt =====
-- The recursion on binary digits that the native bit operations stand for: more fuel than the first
-- number changes nothing. Shared by the laws of `bit_and` and `bit_xor`.
use Prim.Native.Nat.{ℕ, zero, suc, ◌/◌, ◌≤◌, digits}
use mathlib.Core.Path.{◌≡◌, refl}
use native.Mathlib.Omega.{arith}

module _ (keep : ℕ → ℕ) (mix : ℕ → ℕ → ℕ) where
  pub digits-enough :
      (x y fuel more : ℕ)
      → x ≤ fuel
      → x ≤ more
      → digits keep mix fuel x y ≡ digits keep mix more x y
  digits-enough zero y zero zero hf hm = refl
  digits-enough zero y zero (suc more) hf hm = refl
  digits-enough zero y (suc fuel) zero hf hm = refl
  digits-enough zero y (suc fuel) (suc more) hf hm = refl
  digits-enough (suc x) y zero more hf hm = absurd (omega arith)
  digits-enough (suc x) y (suc fuel) zero hf hm = absurd (omega arith)
  digits-enough (suc x) y (suc fuel) (suc more) hf hm =
      omega (arith, digits-enough (suc x / 2) (y / 2) fuel more (omega arith) (omega arith))
