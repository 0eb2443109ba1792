-- ===== src/HidId/RoundTrip.antt =====
-- The names that the kernel gives to devices on the HID bus are read back.
use ds4_translator.Base.{
  ℕ, ◌/◌, ◌%◌, ◌<◌, false, ◌≡◌, refl, ap, some, [], ◌∷◌, ◌++◌, Bytes, All, is_some, arith, ◌==◌,
}
use ds4_translator.Base.Strtoul.{digits, IsDigit, upper_digit, digit_value-upper}
use ds4_translator.Base.Strtoul.Laws.{strtoul-digits}
use ds4_translator.HidId.{cut, parse_hex, parse_parts, parse_hid_id}

-- `%04X` of a number below 2 ^ 16.
abbrev pub hex4 : ℕ → Bytes
hex4 n =
    upper_digit (n / 4096)
    ∷ upper_digit (n / 256 % 16)
    ∷ upper_digit (n / 16 % 16)
    ∷ upper_digit (n % 16)
    ∷ []

upper-IsDigit : (d : ℕ) → d < 16 → IsDigit 16 (upper_digit d)
upper-IsDigit d lt = ap is_some (digit_value-upper 16 d (omega arith) lt)

hex4-IsDigit : (n : ℕ) → n < 65536 → All (IsDigit 16) (hex4 n)
hex4-IsDigit n h = (
  upper-IsDigit (n / 4096) (omega arith),
  (
    upper-IsDigit (n / 256 % 16) (omega arith),
    (upper-IsDigit (n / 16 % 16) (omega arith), (upper-IsDigit (n % 16) (omega arith), tt)),
  ),
)

digits-hex4 : (n : ℕ) → n < 65536 → digits 16 0 (hex4 n) ≡ (n, [])
unfolding digits
digits-hex4 n h =
    rw
      (
        digit_value-upper 16 (n / 4096) (omega arith) (omega arith),
        digit_value-upper 16 (n / 256 % 16) (omega arith) (omega arith),
        digit_value-upper 16 (n / 16 % 16) (omega arith) (omega arith),
        digit_value-upper 16 (n % 16) (omega arith) (omega arith),
        digits,
      )
      (ap (λ k. (k, [])) (omega arith))

parse_hex-hex4 : (n : ℕ) → n < 65536 → parse_hex (hex4 n) ≡ some n
unfolding parse_hex
parse_hex-hex4 n h =
    rw
      (strtoul-digits 16 n (upper_digit (n / 4096))
        (upper_digit (n / 256 % 16) ∷ upper_digit (n / 16 % 16) ∷ upper_digit (n % 16) ∷ [])
        (omega arith) (hex4-IsDigit n h) (digits-hex4 n h) (omega arith))
      (ap some (omega arith))

pub cut-append :
    (c : ℕ) (front back : Bytes)
    → All (λ (x : ℕ). (x == c) ≡ false) front
    → cut c (front ++ c ∷ back) ≡ some (front, back)
unfolding cut
cut-append c [] back h = ground arith
cut-append c (x ∷ front) back h = rw (h.0, cut-append c front back h.1) refl

hex4-lacks : (c n : ℕ) → 45 < c → c < 48 → n < 65536 → All (λ (x : ℕ). (x == c) ≡ false) (hex4 n)
hex4-lacks c n l u h = ground arith

hex4-lacks_colon : (n : ℕ) → n < 65536 → All (λ (x : ℕ). (x == 58) ≡ false) (hex4 n)
hex4-lacks_colon n h = ground arith

-- The name of a device on the HID bus, as the kernel prints it (`%04X:%04X:%04X.` and an instance),
-- is read as the bus, the vendor and the product in it, whatever the instance.
pub parse_hid_id_round_trip :
    (bus vendor product : ℕ) (instance_id : Bytes)
    → bus < 65536
    → vendor < 65536
    → product < 65536
    → parse_hid_id (hex4 bus ++ 58 ∷ (hex4 vendor ++ 58 ∷ (hex4 product ++ 46 ∷ instance_id)))
      ≡ some (record { bus = bus; vendor = vendor; product = product })
unfolding parse_hid_id parse_parts
parse_hid_id_round_trip bus vendor product instance_id hb hv hp =
    rw
      (
        cut-append 58 (hex4 bus) (hex4 vendor ++ 58 ∷ (hex4 product ++ 46 ∷ instance_id))
            (hex4-lacks_colon bus hb),
        cut-append 58 (hex4 vendor) (hex4 product ++ 46 ∷ instance_id) (hex4-lacks_colon vendor hv),
        cut-append 46 (hex4 product) instance_id
            (hex4-lacks 46 product (omega arith) (omega arith) hp),
        parse_hex-hex4 bus hb,
        parse_hex-hex4 vendor hv,
        parse_hex-hex4 product hp,
        parse_hid_id,
        parse_parts,
      )
      refl
