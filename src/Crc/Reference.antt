-- ===== src/Crc/Reference.antt =====
-- The table-driven code against the bit-serial definition of the checksum.
use ds4_translator.Base.{
  ℕ, zero, suc, ◌+◌, ◌*◌, ◌/◌, ◌%◌, ◌^◌, ◌<◌, bit_and, bit_xor, ◌≡◌, refl, sym, ap, ap₂, ◌∙◌, [],
  ◌∷◌, Bytes, AreBytes, get_or, arith,
}
use ds4_translator.Base.Bits.{
  bit_xor-half, bit_xor_parity, bit_xor_swap, bit_xor-disjoint, bit_xor-zero_left, bit_xor-byte_div,
}
use ds4_translator.Base.Bits.Masks.{bit_and_one, bit_and_0xff}
use ds4_translator.Crc.{
  polynomial, crc_shift, crc_shifts, fill_table, crc_table, crc_update, crc_bytes, calculate_crc32,
}

-- The checksum register fed one byte, eight shifts of the register at a time.
unfoldable pub serial_update : ℕ → ℕ → ℕ
serial_update crc byte = crc_shifts 8 (bit_xor crc byte)

unfoldable pub serial_bytes : ℕ → Bytes → ℕ
serial_bytes crc [] = crc
serial_bytes crc (b ∷ bs) = serial_bytes (serial_update crc b) bs

unfoldable pub serial_crc32 : ℕ → Bytes → ℕ
unfolding serial_bytes
serial_crc32 seed bytes = bit_xor (serial_bytes 0xFFFFFFFF (seed ∷ bytes)) 0xFFFFFFFF

-- What a shift adds, by the parity of the register.
abbrev pub feedback : ℕ → ℕ
feedback zero = 0
feedback (suc p) = polynomial

pub crc_shift_lem : (c : ℕ) → crc_shift c ≡ bit_xor (feedback (c % 2)) (c / 2)
unfolding crc_shift
crc_shift_lem c = ground (arith, bit_and_one c, bit_xor-zero_left (c / 2))

feedback_bits :
    (p q : ℕ) → p < 2 → q < 2 → feedback ((p + q) % 2) ≡ bit_xor (feedback p) (feedback q)
feedback_bits zero zero h k = refl
feedback_bits zero (suc zero) h k = refl
feedback_bits (suc zero) zero h k = refl
feedback_bits (suc zero) (suc zero) h k = refl
feedback_bits (suc (suc p)) q h k = absurd (omega arith)
feedback_bits p (suc (suc q)) h k = absurd (omega arith)

feedback-add : (a b : ℕ) → feedback ((a + b) % 2) ≡ bit_xor (feedback (a % 2)) (feedback (b % 2))
feedback-add a b =
    let parts : (a + b) % 2 ≡ (a % 2 + b % 2) % 2 = omega arith in
    rw parts (feedback_bits (a % 2) (b % 2) (omega arith) (omega arith))

crc_shift-bit_xor : (a b : ℕ) → crc_shift (bit_xor a b) ≡ bit_xor (crc_shift a) (crc_shift b)
crc_shift-bit_xor a b =
    simp (crc_shift_lem, bit_xor-half, bit_xor_parity, feedback-add)
      (bit_xor_swap (feedback (a % 2)) (feedback (b % 2)) (a / 2) (b / 2))

crc_shifts-bit_xor :
    (n a b : ℕ) → crc_shifts n (bit_xor a b) ≡ bit_xor (crc_shifts n a) (crc_shifts n b)
unfolding crc_shifts
crc_shifts-bit_xor zero a b = refl
crc_shifts-bit_xor (suc n) a b = rw (crc_shift-bit_xor a b) (crc_shifts-bit_xor n _ _)

crc_shift-even : (m : ℕ) → crc_shift (m * 2) ≡ m
crc_shift-even m =
    let even : m * 2 % 2 ≡ 0 = omega arith in
    let half : m * 2 / 2 ≡ m = omega arith in
    crc_shift_lem (m * 2) ∙ rw (even, half) (bit_xor-zero_left m)

-- Eight zero bits at the bottom are shifted out unchanged.
crc_shifts-high : (m : ℕ) → crc_shifts 8 (m * 2 ^ 8) ≡ m
unfolding crc_shifts
crc_shifts-high m =
    let parts : m * 2 ^ 8 ≡ m * 2 * 2 * 2 * 2 * 2 * 2 * 2 * 2 = omega arith in
    rw parts (simp crc_shift-even)

get_or-fill_table : (n i k : ℕ) → k < n → get_or (fill_table n i) k 0 ≡ crc_shifts 8 (i + k)
unfolding fill_table
get_or-fill_table zero i k h = absurd (omega arith)
get_or-fill_table (suc n) i zero h = ap (crc_shifts 8) (omega arith)
get_or-fill_table (suc n) i (suc k) h =
    get_or-fill_table n (i + 1) k (omega arith) ∙ ap (crc_shifts 8) (omega arith)

-- Each entry of the table is the register after eight shifts.
pub crc_table_lem : (k : ℕ) → k < 256 → get_or crc_table k 0 ≡ crc_shifts 8 k
unfolding crc_table
crc_table_lem k h = get_or-fill_table 256 0 k h ∙ ap (crc_shifts 8) (omega arith)

-- One table lookup is eight shifts.
pub crc_update-serial : (crc b : ℕ) → b < 256 → crc_update crc b ≡ serial_update crc b
unfolding crc_update serial_update
crc_update-serial crc b h =
    let x = bit_xor crc b in
    let low = x % 2 ^ 8 in
    let high = x / 2 ^ 8 in
    let split : x ≡ bit_xor low (high * 2 ^ 8) =
      sym (bit_xor-disjoint 8 high low (omega arith) ∙ omega arith) in
    let table : get_or crc_table (bit_and x 0xff) 0 ≡ crc_shifts 8 low =
      rw (bit_and_0xff x) (crc_table_lem low (omega arith)) in
    let rest : crc / 2 ^ 8 ≡ crc_shifts 8 (high * 2 ^ 8) =
      sym (crc_shifts-high high ∙ bit_xor-byte_div crc b h) in
    ap₂ bit_xor table rest
    ∙ sym (crc_shifts-bit_xor 8 low (high * 2 ^ 8))
    ∙ ap (crc_shifts 8) (sym split)

crc_bytes-serial : (crc : ℕ) (bs : Bytes) → AreBytes bs → crc_bytes crc bs ≡ serial_bytes crc bs
unfolding crc_bytes serial_bytes
crc_bytes-serial crc [] h = refl
crc_bytes-serial crc (b ∷ bs) h =
    rw (crc_update-serial crc b h.0) (crc_bytes-serial (serial_update crc b) bs h.1)

-- On a seed and a message of bytes, the table-driven `calculate_crc32` gives the checksum of the
-- bit-serial definition: the register starts with all ones, takes the seed and then the message
-- by eight shifts a byte under the reflected polynomial, and is complemented at the end.
pub calculate_crc32-serial :
    (seed : ℕ) (bs : Bytes)
    → seed < 256
    → AreBytes bs
    → calculate_crc32 seed bs ≡ serial_crc32 seed bs
unfolding calculate_crc32 serial_crc32
calculate_crc32-serial seed bs h hs =
    ap (λ t. bit_xor t 0xFFFFFFFF)
      (ap (λ t. crc_bytes t bs) (crc_update-serial 0xFFFFFFFF seed h)
        ∙ crc_bytes-serial (serial_update 0xFFFFFFFF seed) bs hs)
