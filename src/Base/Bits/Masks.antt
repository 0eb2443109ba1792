-- ===== src/Base/Bits/Masks.antt =====
-- `x & mask` for a mask of low bits, and the test of bit 0.
use Prim.Native.Nat.{
  ℕ, zero, suc, ◌+◌, ◌-◌, ◌*◌, ◌/◌, ◌%◌, ◌^◌, ◌≤◌, ◌<◌, min, bit_and, bit_and-bitwise,
}
use mathlib.Core.Path.{◌≡◌, ◌∙◌, ap}
use native.Mathlib.Nat.{pow-suc, one-le-pow}
use native.Mathlib.Omega.{arith}
use ds4_translator.Base.Digits.{digits-enough}

nothing_and : (m : ℕ) → bit_and 0 m ≡ 0
nothing_and = bit_and-bitwise 0

-- The lowest digits of both sides are combined by themselves.
pub bit_and_halves : (x m : ℕ) → bit_and x m ≡ min (x % 2) (m % 2) + 2 * bit_and (x / 2) (m / 2)
bit_and_halves zero m = omega (arith, nothing_and m, nothing_and (m / 2))
bit_and_halves (suc x) m =
    let half = suc x / 2 in
    let same = digits-enough (λ t. zero) min half (m / 2) x half (omega arith) (omega arith) in
    omega (arith, same, bit_and-bitwise half (m / 2), bit_and-bitwise (suc x) m)

and_nothing_below : (bound x : ℕ) → x ≤ bound → bit_and x 0 ≡ 0
and_nothing_below bound zero le = nothing_and 0
and_nothing_below zero (suc x) le = absurd (omega arith)
and_nothing_below (suc bound) (suc x) le =
    omega (arith, and_nothing_below bound (suc x / 2) (omega arith), bit_and_halves (suc x) 0)

pub bit_and-zero : (x : ℕ) → bit_and x 0 ≡ 0
bit_and-zero x = and_nothing_below x x (omega arith)

mask_half : (k : ℕ) → (2 ^ suc k - 1) / 2 ≡ 2 ^ k - 1
mask_half k = omega (arith, pow-suc 2 k, one-le-pow k 2)

mask_odd : (k : ℕ) → (2 ^ suc k - 1) % 2 ≡ 1
mask_odd k = omega (arith, pow-suc 2 k, one-le-pow k 2)

low_bits : (k q r : ℕ) → r < 2 ^ k → bit_and (q * 2 ^ k + r) (2 ^ k - 1) ≡ r
low_bits zero q r h = omega (arith, bit_and-zero (q * 2 ^ 0 + r))
low_bits (suc k) q r h =
    let fits : r / 2 < 2 ^ k = omega (arith, pow-suc 2 k) in
    let ih = low_bits k q (r / 2) fits in
    let double : q * 2 ^ suc k ≡ 2 * (q * 2 ^ k) =
      omega (arith, ap (λ (t : ℕ). q * t) (pow-suc 2 k)) in
    let half : (q * 2 ^ suc k + r) / 2 ≡ q * 2 ^ k + r / 2 = omega (arith, double) in
    bit_and_halves (q * 2 ^ suc k + r) (2 ^ suc k - 1)
    ∙ rw (half, mask_half k, mask_odd k, ih) (omega (arith, double))

-- A mask of `k` low bits is the remainder by `2 ^ k`.
pub bit_and_mask : (k a : ℕ) → bit_and a (2 ^ k - 1) ≡ a % 2 ^ k
bit_and_mask k a = ground (arith, one-le-pow k 2, low_bits k (a / 2 ^ k) (a % 2 ^ k))

pub bit_and_one : (a : ℕ) → bit_and a 1 ≡ a % 2
bit_and_one a = bit_and_mask 1 a

pub bit_and_0xff : (a : ℕ) → bit_and a 0xff ≡ a % 256
bit_and_0xff a = bit_and_mask 8 a

pub bit_and_0x0f : (a : ℕ) → bit_and a 0x0f ≡ a % 16
bit_and_0x0f a = bit_and_mask 4 a
