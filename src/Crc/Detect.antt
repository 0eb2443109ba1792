-- ===== src/Crc/Detect.antt =====
-- Which corruptions the checksum detects, and its range.
use ds4_translator.Base.{
  ℕ, zero, suc, ◌/◌, ◌%◌, ◌^◌, ◌<◌, bit_xor, ◌≡◌, ◌≢◌, sym, ap, ◌∙◌, [], ◌∷◌, ◌++◌, Bytes, AreBytes,
  AreBytes-append, arith,
}
use ds4_translator.Base.Bits.{
  bit_xor-lt, bit_xor_left_injective, bit_xor_right_injective, bit_xor-zero_left, bit_xor-shift,
  eq_of_half,
}
use ds4_translator.Crc.{polynomial, crc_shift, crc_shifts, calculate_crc32}
use ds4_translator.Crc.Reference.{
  crc_shift_lem, feedback, serial_update, serial_bytes, serial_crc32, calculate_crc32-serial,
}

-- The top bit of the polynomial marks the parity that a shift took out of the register.
feedback_top : (p h : ℕ) → p < 2 → h < 2 ^ 31 → bit_xor (feedback p) h / 2 ^ 31 ≡ p
feedback_top zero h hp hh = rw (bit_xor-zero_left h) (omega arith)
feedback_top (suc zero) h hp hh =
    let gone : h / 2 ^ 31 ≡ 0 = omega arith in bit_xor-shift 31 polynomial h ∙ rw gone
feedback_top (suc (suc p)) h hp hh = absurd (omega arith)

crc_shift_parity : (a : ℕ) → a < 2 ^ 32 → crc_shift a / 2 ^ 31 ≡ a % 2
crc_shift_parity a h =
    rw (crc_shift_lem a) (feedback_top (a % 2) (a / 2) (omega arith) (omega arith))

feedback-lt : (p : ℕ) → feedback p < 2 ^ 32
feedback-lt zero = omega arith
feedback-lt (suc p) = omega arith

crc_shift-lt : (a : ℕ) → a < 2 ^ 32 → crc_shift a < 2 ^ 32
crc_shift-lt a h = rw (crc_shift_lem a) (bit_xor-lt 32 _ _ (feedback-lt (a % 2)) (omega arith))

crc_shift_injective : (a b : ℕ) → a < 2 ^ 32 → b < 2 ^ 32 → crc_shift a ≡ crc_shift b → a ≡ b
crc_shift_injective a b ha hb e =
    let parity : a % 2 ≡ b % 2 =
      sym (crc_shift_parity a ha) ∙ ap (λ t. t / 2 ^ 31) e ∙ crc_shift_parity b hb in
    let sums : bit_xor (feedback (b % 2)) (a / 2) ≡ bit_xor (feedback (b % 2)) (b / 2) =
      ap (λ t. bit_xor (feedback t) (a / 2)) (sym parity)
      ∙ sym (crc_shift_lem a)
      ∙ e
      ∙ crc_shift_lem b in
    eq_of_half a b (bit_xor_left_injective (feedback (b % 2)) (a / 2) (b / 2) sums) parity

crc_shifts-lt : (n a : ℕ) → a < 2 ^ 32 → crc_shifts n a < 2 ^ 32
unfolding crc_shifts
crc_shifts-lt zero a h = h
crc_shifts-lt (suc n) a h = crc_shifts-lt n (crc_shift a) (crc_shift-lt a h)

crc_shifts_injective :
    (n a b : ℕ) → a < 2 ^ 32 → b < 2 ^ 32 → crc_shifts n a ≡ crc_shifts n b → a ≡ b
unfolding crc_shifts
crc_shifts_injective zero a b ha hb e = e
crc_shifts_injective (suc n) a b ha hb e =
    crc_shift_injective a b ha hb
      (crc_shifts_injective n (crc_shift a) (crc_shift b) (crc_shift-lt a ha) (crc_shift-lt b hb) e)

xor_byte-lt : (a d : ℕ) → a < 2 ^ 32 → d < 256 → bit_xor a d < 2 ^ 32
xor_byte-lt a d h hd = bit_xor-lt 32 a d h (omega arith)

serial_update-lt : (a d : ℕ) → a < 2 ^ 32 → d < 256 → serial_update a d < 2 ^ 32
unfolding serial_update
serial_update-lt a d h hd = crc_shifts-lt 8 (bit_xor a d) (xor_byte-lt a d h hd)

serial_bytes-lt : (a : ℕ) (bs : Bytes) → a < 2 ^ 32 → AreBytes bs → serial_bytes a bs < 2 ^ 32
unfolding serial_bytes
serial_bytes-lt a [] h hb = h
serial_bytes-lt a (b ∷ bs) h hb =
    serial_bytes-lt (serial_update a b) bs (serial_update-lt a b h hb.0) hb.1

-- Two registers that differ still differ after the same message.
serial_bytes_injective :
    (a c : ℕ) (bs : Bytes)
    → a < 2 ^ 32
    → c < 2 ^ 32
    → AreBytes bs
    → serial_bytes a bs ≡ serial_bytes c bs
    → a ≡ c
unfolding serial_bytes serial_update
serial_bytes_injective a c [] ha hc hb e = e
serial_bytes_injective a c (b ∷ bs) ha hc hb e =
    let after =
      serial_bytes_injective (serial_update a b) (serial_update c b) bs
        (serial_update-lt a b ha hb.0) (serial_update-lt c b hc hb.0) hb.1 e in
    bit_xor_right_injective b a c (
      crc_shifts_injective 8 (bit_xor a b) (bit_xor c b) (xor_byte-lt a b ha hb.0)
        (xor_byte-lt c b hc hb.0) after)

-- One byte changed anywhere changes the register.
serial_bytes_byte :
    (a : ℕ) (pre post : Bytes) (x y : ℕ)
    → a < 2 ^ 32
    → AreBytes pre
    → AreBytes post
    → x < 256
    → y < 256
    → serial_bytes a (pre ++ x ∷ post) ≡ serial_bytes a (pre ++ y ∷ post)
    → x ≡ y
unfolding serial_bytes serial_update
serial_bytes_byte a [] post x y ha hp hq hx hy e =
    let after =
      serial_bytes_injective (serial_update a x) (serial_update a y) post
        (serial_update-lt a x ha hx) (serial_update-lt a y ha hy) hq e in
    bit_xor_left_injective a x y (
      crc_shifts_injective 8 (bit_xor a x) (bit_xor a y) (xor_byte-lt a x ha hx)
        (xor_byte-lt a y ha hy) after)
serial_bytes_byte a (b ∷ pre) post x y ha hp hq hx hy e =
    serial_bytes_byte (serial_update a b) pre post x y (serial_update-lt a b ha hp.0) hp.1 hq hx hy
      e

-- The checksum is a 32-bit number, for every seed and message of bytes.
pub calculate_crc32-lt :
    (seed : ℕ) (bs : Bytes) → seed < 256 → AreBytes bs → calculate_crc32 seed bs < 2 ^ 32
unfolding serial_crc32
calculate_crc32-lt seed bs h hb =
    rw (calculate_crc32-serial seed bs h hb) (
      bit_xor-lt 32 _ _ (serial_bytes-lt 0xFFFFFFFF (seed ∷ bs) (omega arith) (h, hb))
        (omega arith))

-- Two messages that differ in exactly one byte, at any place, have different checksums under the
-- same seed: no single-byte corruption of a report passes the check.
pub calculate_crc32_detects :
    (seed : ℕ) (pre post : Bytes) (x y : ℕ)
    → seed < 256
    → AreBytes pre
    → AreBytes post
    → x < 256
    → y < 256
    → x ≢ y
    → calculate_crc32 seed (pre ++ x ∷ post) ≢ calculate_crc32 seed (pre ++ y ∷ post)
unfolding serial_crc32
calculate_crc32_detects seed pre post x y h hp hq hx hy ne e =
    let serial_eq : serial_crc32 seed (pre ++ x ∷ post) ≡ serial_crc32 seed (pre ++ y ∷ post) =
      sym (
        calculate_crc32-serial seed (pre ++ x ∷ post) h
          (AreBytes-append pre (x ∷ post) hp (hx, hq)))
      ∙ e
      ∙ calculate_crc32-serial seed (pre ++ y ∷ post) h
          (AreBytes-append pre (y ∷ post) hp (hy, hq)) in
    ne (
      serial_bytes_byte 0xFFFFFFFF (seed ∷ pre) post x y (omega arith) (h, hp) hq hx hy
        (bit_xor_right_injective 0xFFFFFFFF _ _ serial_eq))
