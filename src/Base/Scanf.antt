-- ===== src/Base/Scanf.antt =====
-- `sscanf` and `snprintf` of the C library, as src/ipc-client.cpp uses them, and the signed integers
-- they read and write. A number read is kept as the pattern of its bits.
pub mod Laws
pub mod Tokens
pub mod Fits
use ds4_translator.Base.{
  ℕ, zero, suc, ◌+◌, ◌-◌, ◌%◌, ◌^◌, ◌≤◌, ◌<◌, Bool, true, false, ◌||◌, Option, none, some, List, [],
  ◌∷◌, ◌++◌, Bytes, ltb, leb, ◌==◌, u16, u32, take, is_some, if◌then◌else◌,
}
use ds4_translator.Base.Text.{trim_front}
use ds4_translator.Base.Strtoul.{is_space, digit_value, digits, sign, skip_prefix, print}

-- `negsuc n` is -(n + 1).
pub data ℤ : Type 0 where
  pos : ℕ → ℤ
  negsuc : ℕ → ℤ

-- The pattern of 32 bits as an `int`, and its low half as an `int16_t`.
abbrev pub int32 : ℕ → ℤ
int32 n = if ltb n 2147483648 then pos n else negsuc (4294967295 - n)

abbrev pub int16 : ℕ → ℤ
int16 n = if ltb (u16 n) 32768 then pos (u16 n) else negsuc (65535 - u16 n)

-- `%d`
unfoldable pub print_int : ℤ → Bytes
unfolding print
print_int (pos n) = print 10 n
print_int (negsuc n) = 45 ∷ print 10 (suc n)

-- `%02x`
unfoldable pub print_byte : ℕ → Bytes
unfolding print
print_byte n = if ltb n 16 then 48 ∷ print 16 n else print 16 n

-- What `snprintf` leaves in a buffer of the given size.
unfoldable pub snprintf : ℕ → Bytes → Bytes
snprintf size s = take (size - 1) s

-- One directive of a format. `integer` has the base, whether the type is signed, and its width.
pub data Directive : Type 0 where
  blank : Directive
  literal : ℕ → Directive
  integer : ℕ → Bool → ℕ → Directive
  word : ℕ → Directive

-- `%u`, `%llu`, `%x` and `%d`.
abbrev pub unsigned : Directive
unsigned = integer 10 false 32

abbrev pub unsigned_long_long : Directive
unsigned_long_long = integer 10 false 64

abbrev pub hexadecimal : Directive
hexadecimal = integer 16 false 32

abbrev pub decimal : Directive
decimal = integer 10 true 32

pub data Field : Type 0 where
  bits : ℕ → Field
  chars : Bytes → Field

-- Out of the range of 64 bits the number stops at its end.
abbrev pub pattern64 : Bool → Bool → ℕ → ℕ
pattern64 false minus n =
    if leb (2 ^ 64) n then 2 ^ 64 - 1 else if minus then (2 ^ 64 - n) % 2 ^ 64 else n
pattern64 true true n = if ltb (2 ^ 63) n then 2 ^ 63 else (2 ^ 64 - n) % 2 ^ 64
pattern64 true false n = if leb (2 ^ 63) n then 2 ^ 63 - 1 else n

abbrev number_of : Bool → Bool → ℕ × Bytes → ℕ × Bytes
number_of signed minus (n, rest) = (pattern64 signed minus n, rest)

-- Without a digit nothing is converted.
unfoldable pub read_digits : ℕ → Bool → Bool → Bytes → Option (ℕ × Bytes)
unfolding digit_value digits
read_digits base signed minus [] = none
read_digits base signed minus (c ∷ s) =
    if is_some (digit_value base c)
    then some (number_of signed minus (digits base 0 (c ∷ s)))
    else none

unfoldable pub read_behind : ℕ → Bool → Bool × Bytes → Option (ℕ × Bytes)
unfolding read_digits skip_prefix
read_behind base signed (minus, body) = read_digits base signed minus (skip_prefix base body)

unfoldable pub read_integer : ℕ → Bool → Bytes → Option (ℕ × Bytes)
unfolding read_behind
read_integer base signed s = read_behind base signed (sign (trim_front is_space s))

-- A word ends at white space, at the end of the text, and at the given number of characters.
abbrev onto_word : ℕ → Bytes × Bytes → Bytes × Bytes
onto_word c (w, rest) = (c ∷ w, rest)

unfoldable pub read_word : ℕ → Bytes → Bytes × Bytes
read_word zero s = ([], s)
read_word (suc max) [] = ([], [])
read_word (suc max) (c ∷ s) =
    let more = read_word max s in if is_space c || c == 0 then ([], c ∷ s) else onto_word c more

-- The fields converted before the first directive that fails, in order.
unfoldable pub sscanf : Bytes → List Directive → List Field
unfolding read_integer read_word trim_front
sscanf s [] = []
sscanf s (blank ∷ f) = sscanf (trim_front is_space s) f
sscanf [] (literal c ∷ f) = []
sscanf (x ∷ s) (literal c ∷ f) = elim (x == c) [ true ↦ sscanf s f | false ↦ [] ]
sscanf s (integer base signed width ∷ f) = elim (read_integer base signed s) [
  | none ↦ []
  | some (n, rest) ↦ bits (n % 2 ^ width) ∷ sscanf rest f
]
sscanf s (word max ∷ f) =
    let (w, rest) = read_word max (trim_front is_space s) in
    elim w [ [] ↦ [] | c ∷ cs ↦ chars (c ∷ cs) ∷ sscanf rest f ]

-- A format whose fields are single spaces apart, and the text that such a format prints, up to what
-- ends it.
abbrev pub literals : Bytes → List Directive → List Directive
literals [] f = f
literals (c ∷ s) f = literal c ∷ literals s f

abbrev pub spaced_format : List Directive → List Directive
spaced_format [] = []
spaced_format (d ∷ ds) = blank ∷ d ∷ spaced_format ds

unfoldable pub spaced : Bytes → List Bytes → Bytes
spaced ending [] = ending
spaced ending (t ∷ ts) = 32 ∷ (t ++ spaced ending ts)
