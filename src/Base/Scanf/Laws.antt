-- ===== src/Base/Scanf/Laws.antt =====
-- What `sscanf` reads from a line that `snprintf` printed.
use ds4_translator.Base.{
  ℕ, ◌+◌, ◌*◌, ◌/◌, ◌%◌, ◌^◌, ◌≤◌, ◌<◌, Bool, true, false, ◌≡◌, refl, ap, ◌∙◌, none, some, List, [],
  ◌∷◌, ◌++◌, Bytes, All, arith, ltb, Bool-cases, inl, inr,
}
use ds4_translator.Base.Text.{trim_front, empty}
use ds4_translator.Base.Strtoul.{is_space, digit_value, digits, skip_prefix, print, IsDigit}
use ds4_translator.Base.Strtoul.Laws.{
  first_digit, digits-print_digits, IsDigit-print_digits, print_digits-some,
}
use ds4_translator.Base.Scanf.{
  Directive, blank, integer, Field, bits, pattern64, read_digits, read_behind, read_integer, sscanf,
  spaced, print_byte,
}

-- A number ends before white space and at the end of the text.
unfoldable pub stops : Bytes → Bool
stops [] = true
stops (c ∷ s) = is_space c

pub spaced-stops :
    (ending : Bytes) (ts : List Bytes) → stops ending ≡ true → stops (spaced ending ts) ≡ true
unfolding spaced stops
spaced-stops ending [] h = h
spaced-stops ending (t ∷ ts) h = refl

no_value : (base r : ℕ) → base ≤ 16 → is_space r ≡ true → digit_value base r ≡ none
unfolding digit_value
no_value base r h sp = ground arith

digits_stop :
    (base n : ℕ) (rest : Bytes) → base ≤ 16 → stops rest ≡ true → digits base n rest ≡ (n, rest)
unfolding digits stops
digits_stop base n [] h sp = refl
digits_stop base n (r ∷ rest) h sp = rw (no_value base r h sp, digits) refl

no_prefix :
    (base c : ℕ) (s rest : Bytes)
    → base ≤ 16
    → All (IsDigit base) s
    → stops rest ≡ true
    → skip_prefix base (c ∷ s ++ rest) ≡ c ∷ s ++ rest
unfolding digit_value skip_prefix stops
no_prefix base c [] [] h i sp = refl
no_prefix base c [] (x ∷ []) h i sp = refl
no_prefix base c [] (x ∷ y ∷ rest) h i sp = ground arith
no_prefix base c (x ∷ []) [] h i sp = refl
no_prefix base c (x ∷ []) (y ∷ rest) h i sp = ground arith
no_prefix base c (x ∷ y ∷ s) rest h i sp = ground arith

-- Digits before a space or the end are converted to the number they stand for.
module _ (base : ℕ) (h : base ≤ 16) (signed : Bool) (n c : ℕ) (s rest : Bytes)
    (i : All (IsDigit base) (c ∷ s)) (sp : stops rest ≡ true)
    (e : digits base 0 (c ∷ s ++ rest) ≡ digits base n rest) where
  reads :
      (minus : Bool)
      → read_behind base signed (minus, c ∷ s ++ rest) ≡ some (pattern64 signed minus n, rest)
  unfolding read_behind read_digits
  reads minus =
      ap (read_digits base signed minus) (no_prefix base c s rest h i.1 sp)
      ∙ rw (i.0, e, digits_stop base n rest h sp) refl

  reads_unsigned : read_integer base signed (c ∷ s ++ rest) ≡ some (pattern64 signed false n, rest)
  unfolding read_integer
  reads_unsigned = ap (read_behind base signed) (first_digit base c (s ++ rest) h i.0) ∙ reads false

  reads_minus : read_integer base signed (45 ∷ c ∷ s ++ rest) ≡ some (pattern64 signed true n, rest)
  unfolding read_integer trim_front
  reads_minus = reads true

-- A text of digits that stands for the number.
pub record Numeral (base n : ℕ) (s : Bytes) : Type 0 where
  pub all_digits : All (IsDigit base) s
  pub some_digit : empty s ≡ false
  pub value : (rest : Bytes) → digits base 0 (s ++ rest) ≡ digits base n rest

module _ (base : ℕ) (h : base ≤ 16) (shrinks : (n : ℕ) → 0 < n → n / base < n)
    (remains : (n : ℕ) → n % base < base) (joins : (n : ℕ) → n / base * base + n % base ≡ n) where
  print-Numeral : (n : ℕ) → Numeral base n (print base n)
  unfolding print
  print-Numeral n = record {
    all_digits = IsDigit-print_digits base h shrinks remains joins n n (omega arith);
    some_digit = print_digits-some base n n;
    value = λ rest. digits-print_digits base h shrinks remains joins n n rest (omega arith);
  }

pub decimal-Numeral : (n : ℕ) → Numeral 10 n (print 10 n)
decimal-Numeral =
    print-Numeral 10 (omega arith) (λ k p. omega arith) (λ k. omega arith) (λ k. omega arith)

pub hexadecimal-Numeral : (n : ℕ) → Numeral 16 n (print 16 n)
hexadecimal-Numeral =
    print-Numeral 16 (omega arith) (λ k p. omega arith) (λ k. omega arith) (λ k. omega arith)

pub print_byte-Numeral : (n : ℕ) → Numeral 16 n (print_byte n)
unfolding print_byte digits digit_value
print_byte-Numeral n =
    let m = hexadecimal-Numeral n in
    elim (Bool-cases (ltb n 16)) [
      | inl e ↦ rw e (record {
        all_digits = (refl, m.all_digits);
        some_digit = refl;
        value = λ rest. m.value rest;
      })
      | inr e ↦ rw e m
    ]

-- A directive reads a token of a line as a field, and leaves the rest of the line.
abbrev pub Reads : Directive → Bytes → Field → Type 0
Reads d t v =
    (rest : Bytes) (f : List Directive)
    → stops rest ≡ true
    → sscanf (32 ∷ (t ++ rest)) (blank ∷ d ∷ f) ≡ v ∷ sscanf rest f

read_unsigned :
    (base n : ℕ) (t : Bytes) (signed : Bool) (rest : Bytes)
    → base ≤ 16
    → Numeral base n t
    → stops rest ≡ true
    → read_integer base signed (t ++ rest) ≡ some (pattern64 signed false n, rest)
read_unsigned base n [] signed rest h m sp = absurd (ground (arith, m.some_digit))
read_unsigned base n (c ∷ s) signed rest h m sp =
    reads_unsigned base h signed n c s rest m.all_digits sp (m.value rest)

read_minus :
    (base n : ℕ) (t : Bytes) (signed : Bool) (rest : Bytes)
    → base ≤ 16
    → Numeral base n t
    → stops rest ≡ true
    → read_integer base signed (45 ∷ t ++ rest) ≡ some (pattern64 signed true n, rest)
read_minus base n [] signed rest h m sp = absurd (ground (arith, m.some_digit))
read_minus base n (c ∷ s) signed rest h m sp =
    reads_minus base h signed n c s rest m.all_digits sp (m.value rest)

pub not_space : (base c : ℕ) → base ≤ 16 → IsDigit base c → is_space c ≡ false
unfolding digit_value
not_space base c h i = ground arith

-- Behind a blank the white space in front is gone already.
pub not_trimmed : (c : ℕ) (s : Bytes) → is_space c ≡ false → trim_front is_space (c ∷ s) ≡ c ∷ s
unfolding trim_front
not_trimmed c s h = rw h refl

blank_lem :
    (s : Bytes) (f : List Directive) → sscanf s (blank ∷ f) ≡ sscanf (trim_front is_space s) f
unfolding sscanf
blank_lem s f = refl

converted :
    (base width n : ℕ) (signed : Bool) (s rest : Bytes) (f : List Directive)
    → read_integer base signed s ≡ some (n, rest)
    → sscanf s (integer base signed width ∷ f) ≡ bits (n % 2 ^ width) ∷ sscanf rest f
unfolding sscanf
converted base width n signed s rest f e = rw (e, sscanf) refl

module _ (base width : ℕ) (signed : Bool) (h : base ≤ 16) where
  pub Reads-integer :
      (n : ℕ) (t : Bytes)
      → Numeral base n t
      → Reads (integer base signed width) t (bits (pattern64 signed false n % 2 ^ width))
  unfolding sscanf trim_front
  Reads-integer n [] m rest f sp = absurd (ground (arith, m.some_digit))
  Reads-integer n (c ∷ s) m rest f sp =
      ap (λ u. sscanf u (integer base signed width ∷ f))
        (not_trimmed c (s ++ rest) (not_space base c h m.all_digits.0))
      ∙ converted base width (pattern64 signed false n) signed (c ∷ s ++ rest) rest f
          (read_unsigned base n (c ∷ s) signed rest h m sp)

  pub Reads-minus :
      (n : ℕ) (t : Bytes)
      → Numeral base n t
      → Reads (integer base signed width) (45 ∷ t) (bits (pattern64 signed true n % 2 ^ width))
  unfolding sscanf trim_front
  Reads-minus n t m rest f sp =
      converted base width (pattern64 signed true n) signed (45 ∷ t ++ rest) rest f
        (read_minus base n t signed rest h m sp)
