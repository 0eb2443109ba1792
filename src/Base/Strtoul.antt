-- ===== src/Base/Strtoul.antt =====
-- `strtoul` of the C library, as src/main.cpp and src/hid-unbind-detect.cpp use it, and the digits
-- that `printf` writes.
pub mod Laws
use ds4_translator.Base.{
  ℕ, zero, suc, ◌+◌, ◌-◌, ◌*◌, ◌/◌, ◌%◌, ◌^◌, ◌<◌, ◌≤◌, Bool, true, false, ◌&&◌, ◌||◌, ◌≡◌, refl,
  sym, ap, ◌∙◌, Option, none, some, [], ◌∷◌, ◌++◌, Bytes, All, leb, ltb, ◌==◌, if◌then◌else◌,
  is_some, arith,
}
use ds4_translator.Base.Text.{trim_front}

-- `isspace`
abbrev pub is_space : ℕ → Bool
is_space c = c == 32 || leb 9 c && leb c 13

-- The value of a digit in the base.
unfoldable pub digit_value : ℕ → ℕ → Option ℕ
digit_value base c =
    let value =
      (if leb 48 c && leb c 57
        then c - 48
        else if leb 97 c && leb c 122
        then c - 87
        else if leb 65 c && leb c 90
        then c - 55
        else base) in
    if ltb value base then some value else none

-- The digits at the front, onto the number read so far.
unfoldable pub digits : ℕ → ℕ → Bytes → ℕ × Bytes
unfolding digit_value
digits base n [] = (n, [])
digits base n (c ∷ s) = elim (digit_value base c) [
  | none ↦ (n, c ∷ s)
  | some d ↦ digits base (n * base + d) s
]

abbrev pub sign : Bytes → Bool × Bytes
sign [] = (false, [])
sign (c ∷ s) = if c == 45 then (true, s) else if c == 43 then (false, s) else (false, c ∷ s)

-- `0x` before a hexadecimal digit.
unfoldable pub skip_prefix : ℕ → Bytes → Bytes
unfolding digit_value
skip_prefix base (z ∷ x ∷ c ∷ s) =
    if base == 16 && z == 48 && (x == 120 || x == 88) && is_some (digit_value base c)
    then c ∷ s
    else z ∷ x ∷ c ∷ s
skip_prefix base s = s

-- The value, where the reading ended, and `errno == ERANGE`.
pub record Conversion : Type 0 where
  pub value : ℕ
  pub rest : Bytes
  pub range_error : Bool

abbrev pub unsigned_long : ℕ → Bool → ℕ × Bytes → Conversion
unsigned_long width minus (n, rest) =
    if leb (2 ^ width) n
    then record { value = 2 ^ width - 1; rest = rest; range_error = true }
    else record {
      value = if minus then (2 ^ width - n) % 2 ^ width else n;
      rest = rest;
      range_error = false;
    }

-- `unsigned long` has 64 bits. Without a digit nothing of the text is read.
unfoldable pub read_number : ℕ → Bytes → Bool → Bytes → Conversion
unfolding digits digit_value
read_number base s minus [] = record { value = 0; rest = s; range_error = false }
read_number base s minus (c ∷ cs) =
    if is_some (digit_value base c)
    then unsigned_long 64 minus (digits base 0 (c ∷ cs))
    else record { value = 0; rest = s; range_error = false }

unfoldable pub read_signed : ℕ → Bytes → Bool × Bytes → Conversion
unfolding read_number skip_prefix
read_signed base s (minus, body) = read_number base s minus (skip_prefix base body)

unfoldable pub strtoul : ℕ → Bytes → Conversion
unfolding read_signed
strtoul base s = read_signed base s (sign (trim_front is_space s))

-- The digit of a value below 36, as `%x` writes it, and as `%X` does.
abbrev pub lower_digit : ℕ → ℕ
lower_digit d = if ltb d 10 then d + 48 else d + 87

abbrev pub upper_digit : ℕ → ℕ
upper_digit d = if ltb d 10 then d + 48 else d + 55

-- `%u` and `%x`: no more digits than `fuel` and one more; a number needs at most as many as itself.
unfoldable pub print_digits : ℕ → ℕ → ℕ → Bytes
print_digits base zero n = lower_digit n ∷ []
print_digits base (suc fuel) n =
    let front = print_digits base fuel (n / base) in
    if ltb n base then lower_digit n ∷ [] else front ++ (lower_digit (n % base) ∷ [])

unfoldable pub print : ℕ → ℕ → Bytes
unfolding print_digits
print base n = print_digits base n n

abbrev pub IsDigit : ℕ → ℕ → Type 0
IsDigit base c = is_some (digit_value base c) ≡ true

pub digit_value-lower :
    (base d : ℕ) → base ≤ 16 → d < base → digit_value base (lower_digit d) ≡ some d
unfolding digit_value
digit_value-lower base d h lt = ground arith

pub digit_value-upper :
    (base d : ℕ) → base ≤ 16 → d < base → digit_value base (upper_digit d) ≡ some d
unfolding digit_value
digit_value-upper base d h lt = ground arith
