-- ===== src/Base/Bits/Unions.antt =====
-- `x | y` keeps to the bits of its sides.
use Prim.Native.Nat.{ℕ, zero, suc, ◌+◌, ◌*◌, ◌/◌, ◌%◌, ◌^◌, ◌<◌, max, bit_or, bit_or-bitwise}
use mathlib.Core.Path.{◌≡◌, ◌∙◌}
use native.Mathlib.Nat.{pow-suc}
use native.Mathlib.Omega.{arith}
use ds4_translator.Base.Digits.{digits-enough}
use ds4_translator.Base.Bits.{mul-two-pow-suc, half-mul-two-pow}

nothing_or : (m : ℕ) → bit_or 0 m ≡ m
nothing_or = bit_or-bitwise 0

bit_or_halves : (x m : ℕ) → bit_or x m ≡ max (x % 2) (m % 2) + 2 * bit_or (x / 2) (m / 2)
bit_or_halves zero m = omega (arith, nothing_or m, nothing_or (m / 2))
bit_or_halves (suc x) m =
    let half = suc x / 2 in
    let same = digits-enough (λ t. t) max half (m / 2) x half (omega arith) (omega arith) in
    omega (arith, same, bit_or-bitwise half (m / 2), bit_or-bitwise (suc x) m)

pub bit_or-lt : (k a b : ℕ) → a < 2 ^ k → b < 2 ^ k → bit_or a b < 2 ^ k
bit_or-lt zero zero zero p q = omega (arith, nothing_or 0)
bit_or-lt zero (suc a) b p q = absurd (omega arith)
bit_or-lt zero zero (suc b) p q = absurd (omega arith)
bit_or-lt (suc k) a b p q = omega (
  arith,
  bit_or_halves a b,
  pow-suc 2 k,
  bit_or-lt k (a / 2) (b / 2) (omega (arith, pow-suc 2 k)) (omega (arith, pow-suc 2 k)),
)

-- A multiple of `2 ^ k` and a number of `k` bits are joined to their sum.
pub bit_or-disjoint : (k q r : ℕ) → r < 2 ^ k → bit_or r (q * 2 ^ k) ≡ q * 2 ^ k + r
bit_or-disjoint zero q zero h = omega (arith, nothing_or (q * 2 ^ 0))
bit_or-disjoint zero q (suc r) h = absurd (omega arith)
bit_or-disjoint (suc k) q r h =
    let ih = bit_or-disjoint k q (r / 2) (omega (arith, pow-suc 2 k)) in
    bit_or_halves r (q * 2 ^ suc k)
    ∙ rw (half-mul-two-pow k q) (omega (arith, ih, mul-two-pow-suc k q))
