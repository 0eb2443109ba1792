-- ===== src/Base/Scanf/Fits.antt =====
-- How long a printed line is: `snprintf` cuts nothing off a line that fits.
use ds4_translator.Base.{
  ℕ, zero, suc, ◌+◌, ◌-◌, ◌*◌, ◌/◌, ◌%◌, ◌^◌, ◌≤◌, ◌<◌, ◌≡◌, ◌≢◌, refl, sym, ap, ◌∙◌, append_assoc,
  All-append, List, [], ◌∷◌, ◌++◌, Bytes, All, arith, length, length-append, take, ltb, Bool, true,
  leb, all_below, all_below_sound, Bool-cases, inl, inr,
}
use native.Mathlib.Nat.{pow-suc}
use ds4_translator.Base.Strtoul.{print, print_digits, lower_digit, IsDigit, digit_value}
use ds4_translator.Base.Scanf.Laws.{decimal-Numeral, print_byte-Numeral}
use ds4_translator.Base.Scanf.{ℤ, pos, negsuc, print_int, print_byte, snprintf, spaced}
use ds4_translator.Base.Scanf.Tokens.{Below, Token, texts_of, IsWordChar}

take-all : (n : ℕ) (s : Bytes) → length s ≤ n → take n s ≡ s
take-all zero [] h = refl
take-all zero (c ∷ s) h = absurd (omega arith)
take-all (suc n) [] h = refl
take-all (suc n) (c ∷ s) h = ap (λ t. c ∷ t) (take-all n s (omega arith))

pub snprintf-fits : (size : ℕ) (s : Bytes) → length s < size → snprintf size s ≡ s
unfolding snprintf
snprintf-fits size s h = take-all (size - 1) s (omega arith)

-- In a base from 10 up a number needs no more digits than in base 10.
module _ (base : ℕ) (h : 10 ≤ base) (less : (n : ℕ) → n / base ≤ n / 10) where
  length-print_digits : (k fuel n : ℕ) → n < 10 ^ suc k → length (print_digits base fuel n) ≤ suc k
  unfolding print_digits
  length-print_digits k zero n lt = omega arith
  length-print_digits zero (suc fuel) n lt = ground arith
  length-print_digits (suc k) (suc fuel) n lt = elim (Bool-cases (ltb n base)) [
    | inl e ↦ rw e (omega arith)
    | inr e ↦ rw e (
        omega (
          arith,
          length-append (print_digits base fuel (n / base)) (lower_digit (n % base) ∷ []),
          length-print_digits k fuel (n / base) (omega (arith, less n, pow-suc 10 (suc k))),
        ))
  ]

pub length-print : (k n : ℕ) → n < 10 ^ suc k → length (print 10 n) ≤ suc k
unfolding print
length-print k n h = length-print_digits 10 (omega arith) (λ m. omega arith) k n n h

pub length-print_hex : (k n : ℕ) → n < 10 ^ suc k → length (print 16 n) ≤ suc k
unfolding print
length-print_hex k n h = length-print_digits 16 (omega arith) (λ m. omega arith) k n n h

pub length-print_int :
    (k : ℕ) (z : ℤ) → Below (10 ^ suc k - 1) z → length (print_int z) ≤ suc (suc k)
unfolding print_int
length-print_int k (pos n) h = omega (arith, length-print k n (omega arith))
length-print_int k (negsuc n) h = omega (arith, length-print k (suc n) (omega arith))

short_byte : ℕ → Bool
short_byte n = leb (length (print_byte n)) 2

short_bytes : all_below 256 short_byte ≡ true
unfolding all_below short_byte print_byte print print_digits
short_bytes = refl

pub length-print_byte : (n : ℕ) → n < 256 → length (print_byte n) ≤ 2
unfolding short_byte
length-print_byte n h = ground (arith, all_below_sound 256 short_byte n short_bytes h)

-- A token of at most `m` bytes, and a line of such tokens.
abbrev pub AtMost : ℕ → Token → Type 0
AtMost m (d, t, v) = length t ≤ m

abbrev count : List Token → ℕ
count [] = 0
count (t ∷ ts) = suc (count ts)

pub length-spaced :
    (m : ℕ) (ending : Bytes) (ts : List Token)
    → All (AtMost m) ts
    → length (spaced ending (texts_of ts)) ≤ count ts * suc m + length ending
unfolding spaced
length-spaced m ending [] h = omega arith
length-spaced m ending ((d, t, v) ∷ ts) h =
    omega (arith, length-append t (spaced ending (texts_of ts)), length-spaced m ending ts h.1, h.0)

-- A text without a newline.
abbrev pub IsLine : Bytes → Type 0
IsLine = All (λ (c : ℕ). c ≢ 10)

abbrev pub InLine : Token → Type 0
InLine (d, t, v) = IsLine t

digit_not_newline : (base c : ℕ) → base ≤ 16 → IsDigit base c → c ≢ 10
unfolding digit_value
digit_not_newline base c h i = ground arith

digits-IsLine : (base : ℕ) (s : Bytes) → base ≤ 16 → All (IsDigit base) s → IsLine s
digits-IsLine base [] h i = tt
digits-IsLine base (c ∷ s) h i = (digit_not_newline base c h i.0, digits-IsLine base s h i.1)

pub print-IsLine : (n : ℕ) → IsLine (print 10 n)
print-IsLine n = digits-IsLine 10 (print 10 n) (omega arith) (decimal-Numeral n).all_digits

pub print_byte-IsLine : (n : ℕ) → IsLine (print_byte n)
print_byte-IsLine n =
    digits-IsLine 16 (print_byte n) (omega arith) (print_byte-Numeral n).all_digits

pub print_int-IsLine : (z : ℤ) → IsLine (print_int z)
unfolding print_int
print_int-IsLine (pos n) = print-IsLine n
print_int-IsLine (negsuc n) = (omega arith, print-IsLine (suc n))

pub word-IsLine : (s : Bytes) → All IsWordChar s → IsLine s
word-IsLine [] h = tt
word-IsLine (c ∷ s) h = (ground (arith, h.0), word-IsLine s h.1)

-- A line of a name and tokens, and what it looks like with its newline.
abbrev pub line_of : Bytes → List Token → Bytes
line_of name ts = name ++ spaced [] (texts_of ts)

pub line_of-IsLine :
    (name : Bytes) (ts : List Token) → IsLine name → All InLine ts → IsLine (line_of name ts)
unfolding spaced
line_of-IsLine name ts h i =
    All-append (λ (c : ℕ). c ≢ 10) name (spaced [] (texts_of ts)) h (tokens_in_line ts i)
  where
    tokens_in_line : (ts : List Token) → All InLine ts → IsLine (spaced [] (texts_of ts))
    tokens_in_line [] i = tt
    tokens_in_line ((d, t, v) ∷ ts) i = (
      omega arith,
      All-append (λ (c : ℕ). c ≢ 10) t (spaced [] (texts_of ts)) i.0 (tokens_in_line ts i.1),
    )

spaced_newline :
    (ts : List Token) → spaced (10 ∷ []) (texts_of ts) ≡ spaced [] (texts_of ts) ++ 10 ∷ []
unfolding spaced
spaced_newline [] = refl
spaced_newline ((d, t, v) ∷ ts) =
    ap (λ u. 32 ∷ (t ++ u)) (spaced_newline ts)
    ∙ ap (λ u. 32 ∷ u) (sym (append_assoc t (spaced [] (texts_of ts)) (10 ∷ [])))

pub newline_behind :
    (name : Bytes) (ts : List Token)
    → name ++ spaced (10 ∷ []) (texts_of ts) ≡ line_of name ts ++ 10 ∷ []
newline_behind name ts =
    ap (λ u. name ++ u) (spaced_newline ts)
    ∙ sym (append_assoc name (spaced [] (texts_of ts)) (10 ∷ []))
