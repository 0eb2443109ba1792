-- ===== src/Base/Bits.antt =====
-- Laws of `bit_xor` at variables (`bit_and` is in the child), from the recursion on binary digits.
pub mod Masks
pub mod Unions
use Prim.Native.Nat.{
  ℕ, zero, suc, ◌+◌, ◌*◌, ◌/◌, ◌%◌, ◌^◌, ◌≤◌, ◌<◌, bit_xor, digits, bit_xor-bitwise, differ,
}
use mathlib.Core.Path.{◌≡◌, refl, sym, ap, ap₂, ◌∙◌}
use native.Mathlib.Nat.{pow-suc, mul_comm, div-div-eq-div-mul}
use native.Mathlib.Omega.{arith}
use ds4_translator.Base.Digits.{digits-enough}

zero-bit_xor : (b : ℕ) → bit_xor 0 b ≡ b
zero-bit_xor b = bit_xor-bitwise 0 b

differ_parity : (x y : ℕ) → x < 2 → y < 2 → differ x y ≡ (x + y) % 2
differ_parity zero y p q = omega arith
differ_parity (suc zero) zero p q = refl
differ_parity (suc zero) (suc zero) p q = refl
differ_parity (suc zero) (suc (suc y)) p q = absurd (omega arith)
differ_parity (suc (suc x)) y p q = absurd (omega arith)

-- The law for the lowest digit.
pub bit_xor_step : (a b : ℕ) → bit_xor a b ≡ bit_xor (a / 2) (b / 2) * 2 + (a + b) % 2
bit_xor_step zero b = omega (arith, zero-bit_xor b, zero-bit_xor (b / 2))
bit_xor_step (suc a) b = omega (
  arith,
  bit_xor-bitwise (suc a) b,
  bit_xor-bitwise (suc a / 2) (b / 2),
  digits-enough (λ t. t) differ (suc a / 2) (b / 2) a (suc a / 2) (omega arith) (omega arith),
  differ_parity (suc a % 2) (b % 2) (omega arith) (omega arith),
)

pub bit_xor-half : (a b : ℕ) → bit_xor a b / 2 ≡ bit_xor (a / 2) (b / 2)
bit_xor-half a b = omega (arith, bit_xor_step a b)

pub bit_xor_parity : (a b : ℕ) → bit_xor a b % 2 ≡ (a + b) % 2
bit_xor_parity a b = omega (arith, bit_xor_step a b)

-- Two numbers with the same half and the same parity are one.
pub eq_of_half : (a b : ℕ) → a / 2 ≡ b / 2 → a % 2 ≡ b % 2 → a ≡ b
eq_of_half a b p q = omega arith

comm_fuel : (n a b : ℕ) → a + b ≤ n → bit_xor a b ≡ bit_xor b a
comm_fuel zero zero zero h = refl
comm_fuel zero (suc a) b h = absurd (omega arith)
comm_fuel zero zero (suc b) h = absurd (omega arith)
comm_fuel (suc n) zero zero h = refl
comm_fuel (suc n) (suc a) b h = omega (
  arith,
  bit_xor_step (suc a) b,
  bit_xor_step b (suc a),
  comm_fuel n (suc a / 2) (b / 2) (omega arith),
)
comm_fuel (suc n) zero (suc b) h =
    omega (
      arith,
      bit_xor_step 0 (suc b),
      bit_xor_step (suc b) 0,
      comm_fuel n 0 (suc b / 2) (omega arith),
    )

pub bit_xor_comm : (a b : ℕ) → bit_xor a b ≡ bit_xor b a
bit_xor_comm a b = comm_fuel (a + b) a b (omega arith)

pub bit_xor-zero : (a : ℕ) → bit_xor a 0 ≡ a
bit_xor-zero a = omega (arith, bit_xor_comm a 0, zero-bit_xor a)

pub bit_xor-zero_left : (a : ℕ) → bit_xor 0 a ≡ a
bit_xor-zero_left a = zero-bit_xor a

self_fuel : (n a : ℕ) → a ≤ n → bit_xor a a ≡ 0
self_fuel n zero h = refl
self_fuel zero (suc a) h = absurd (omega arith)
self_fuel (suc n) (suc a) h =
    omega (arith, bit_xor_step (suc a) (suc a), self_fuel n (suc a / 2) (omega arith))

pub bit_xor_self : (a : ℕ) → bit_xor a a ≡ 0
bit_xor_self a = self_fuel a a (omega arith)

-- The induction step of associativity, with the halves' equation given.
assoc_step :
    (a b c : ℕ)
    → bit_xor (bit_xor (a / 2) (b / 2)) (c / 2) ≡ bit_xor (a / 2) (bit_xor (b / 2) (c / 2))
    → bit_xor (bit_xor a b) c ≡ bit_xor a (bit_xor b c)
assoc_step a b c ih = eq_of_half _ _ halves parities
  where
    halves : bit_xor (bit_xor a b) c / 2 ≡ bit_xor a (bit_xor b c) / 2
    halves = simp bit_xor-half ih

    parities : bit_xor (bit_xor a b) c % 2 ≡ bit_xor a (bit_xor b c) % 2
    parities = omega (
      arith,
      bit_xor_parity (bit_xor a b) c,
      bit_xor_parity a b,
      bit_xor_parity a (bit_xor b c),
      bit_xor_parity b c,
    )

assoc_fuel : (n a b c : ℕ) → a ≤ n → bit_xor (bit_xor a b) c ≡ bit_xor a (bit_xor b c)
assoc_fuel n zero b c h = rw (zero-bit_xor b, zero-bit_xor (bit_xor b c))
assoc_fuel zero (suc a) b c h = absurd (omega arith)
assoc_fuel (suc n) (suc a) b c h =
    assoc_step (suc a) b c (assoc_fuel n (suc a / 2) (b / 2) (c / 2) (omega arith))

pub bit_xor_assoc : (a b c : ℕ) → bit_xor (bit_xor a b) c ≡ bit_xor a (bit_xor b c)
bit_xor_assoc a b c = assoc_fuel a a b c (omega arith)

pub bit_xor_cancel : (a b : ℕ) → bit_xor a (bit_xor a b) ≡ b
bit_xor_cancel a b =
    sym (bit_xor_assoc a a b) ∙ ap (λ t. bit_xor t b) (bit_xor_self a) ∙ zero-bit_xor b

pub bit_xor_left_injective : (a b c : ℕ) → bit_xor a b ≡ bit_xor a c → b ≡ c
bit_xor_left_injective a b c h =
    sym (bit_xor_cancel a b) ∙ ap (λ t. bit_xor a t) h ∙ bit_xor_cancel a c

pub bit_xor_right_injective : (a b c : ℕ) → bit_xor b a ≡ bit_xor c a → b ≡ c
bit_xor_right_injective a b c h =
    bit_xor_left_injective a b c (bit_xor_comm a b ∙ h ∙ bit_xor_comm c a)

-- The exclusive or of two `k`-bit numbers has `k` bits.
pub bit_xor-lt : (k a b : ℕ) → a < 2 ^ k → b < 2 ^ k → bit_xor a b < 2 ^ k
bit_xor-lt zero zero zero p q = omega arith
bit_xor-lt zero (suc a) b p q = absurd (omega arith)
bit_xor-lt zero zero (suc b) p q = absurd (omega arith)
bit_xor-lt (suc k) a b p q = omega (
  arith,
  bit_xor_step a b,
  pow-suc 2 k,
  bit_xor-lt k (a / 2) (b / 2) (omega (arith, pow-suc 2 k)) (omega (arith, pow-suc 2 k)),
)

-- Exclusive or with four parts, regrouped.
pub bit_xor_swap :
    (a b c d : ℕ) → bit_xor (bit_xor a b) (bit_xor c d) ≡ bit_xor (bit_xor a c) (bit_xor b d)
bit_xor_swap a b c d =
    bit_xor_assoc a b (bit_xor c d)
    ∙ ap (λ t. bit_xor a t) (sym (bit_xor_assoc b c d))
    ∙ ap (λ t. bit_xor a (bit_xor t d)) (bit_xor_comm b c)
    ∙ ap (λ t. bit_xor a t) (bit_xor_assoc c b d)
    ∙ sym (bit_xor_assoc a c (bit_xor b d))

pub mul-two-pow-suc : (k q : ℕ) → q * 2 ^ suc k ≡ 2 * (q * 2 ^ k)
mul-two-pow-suc k q = omega (arith, ap (λ (t : ℕ). q * t) (pow-suc 2 k))

pub half-mul-two-pow : (k q : ℕ) → q * 2 ^ suc k / 2 ≡ q * 2 ^ k
half-mul-two-pow k q = omega (arith, mul-two-pow-suc k q)

-- The exclusive or of a multiple of `2 ^ k` with a number of `k` bits is their sum.
pub bit_xor-disjoint : (k q r : ℕ) → r < 2 ^ k → bit_xor r (q * 2 ^ k) ≡ q * 2 ^ k + r
bit_xor-disjoint zero q zero h = omega (arith, zero-bit_xor (q * 2 ^ 0))
bit_xor-disjoint zero q (suc r) h = absurd (omega arith)
bit_xor-disjoint (suc k) q r h =
    let ih = bit_xor-disjoint k q (r / 2) (omega (arith, pow-suc 2 k)) in
    bit_xor_step r (q * 2 ^ suc k)
    ∙ rw (half-mul-two-pow k q) (omega (arith, ih, mul-two-pow-suc k q))

div_one : (n : ℕ) → n / 2 ^ 0 ≡ n
div_one n = omega arith

shift_suc : (k n : ℕ) → n / 2 ^ suc k ≡ n / 2 / 2 ^ k
shift_suc k n =
    ap (λ t. n / t) (pow-suc 2 k ∙ mul_comm (2 ^ k) 2) ∙ sym (div-div-eq-div-mul n 2 (2 ^ k))

-- A right shift acts on both sides.
pub bit_xor-shift : (k a b : ℕ) → bit_xor a b / 2 ^ k ≡ bit_xor (a / 2 ^ k) (b / 2 ^ k)
bit_xor-shift zero a b = div_one (bit_xor a b) ∙ ap₂ bit_xor (sym (div_one a)) (sym (div_one b))
bit_xor-shift (suc k) a b =
    shift_suc k (bit_xor a b)
    ∙ ap (λ t. t / 2 ^ k) (bit_xor-half a b)
    ∙ bit_xor-shift k (a / 2) (b / 2)
    ∙ ap₂ bit_xor (sym (shift_suc k a)) (sym (shift_suc k b))

pub bit_xor-byte_div : (a d : ℕ) → d < 256 → bit_xor a d / 2 ^ 8 ≡ a / 2 ^ 8
bit_xor-byte_div a d h =
    let gone : d / 2 ^ 8 ≡ 0 = omega arith in
    bit_xor-shift 8 a d ∙ rw gone (bit_xor-zero (a / 2 ^ 8))
