-- ===== src/Base/Strtoul/Laws.antt =====
-- What `strtoul` reads from printed digits.
use ds4_translator.Base.{
  ℕ, zero, suc, ◌+◌, ◌*◌, ◌/◌, ◌%◌, ◌^◌, ◌<◌, ◌≤◌, false, ◌≡◌, refl, ap, ◌∙◌, some, [], ◌∷◌, ◌++◌,
  Bytes, All, All-append, ltb, if◌then◌else◌, is_some, arith, Bool-cases, inl, inr, append_assoc,
}
use ds4_translator.Base.Strtoul.{
  is_space, digit_value, digits, sign, skip_prefix, unsigned_long, strtoul, read_signed,
  read_number, lower_digit, print_digits, IsDigit, digit_value-lower,
}
use ds4_translator.Base.Text.{trim_front, empty}

digits-step :
    (base n m c d : ℕ) (s : Bytes)
    → digit_value base c ≡ some d
    → n * base + d ≡ m
    → digits base n (c ∷ s) ≡ digits base m s
unfolding digits
digits-step base n m c d s e j = rw (e, digits) (ap (λ k. digits base k s) j)

-- A base, with the laws of division by it.
module _ (base : ℕ) (h : base ≤ 16) (shrinks : (n : ℕ) → 0 < n → n / base < n)
    (remains : (n : ℕ) → n % base < base) (joins : (n : ℕ) → n / base * base + n % base ≡ n) where
  -- Printed digits in front are read as the number they print.
  pub digits-print_digits :
      (fuel n : ℕ) (rest : Bytes)
      → n ≤ fuel
      → digits base 0 (print_digits base fuel n ++ rest) ≡ digits base n rest
  unfolding print_digits
  digits-print_digits zero n rest le =
      digits-step base 0 n (lower_digit n) n rest
        (digit_value-lower base n h (omega (arith, remains 0))) (omega arith)
  digits-print_digits (suc fuel) n rest le = elim (Bool-cases (ltb n base)) [
    | inl e ↦ rw e (
        digits-step base 0 n (lower_digit n) n rest (digit_value-lower base n h (ground arith))
          (omega arith))
    | inr e ↦ rw e (
        ap (digits base 0)
          (append_assoc (print_digits base fuel (n / base)) (lower_digit (n % base) ∷ []) rest)
        ∙ digits-print_digits fuel (n / base) (lower_digit (n % base) ∷ rest)
            (ground (arith, shrinks n, remains 0))
        ∙ digits-step base (n / base) n (lower_digit (n % base)) (n % base) rest
            (digit_value-lower base (n % base) h (remains n)) (joins n))
  ]

  lower-IsDigit : (d : ℕ) → d < base → IsDigit base (lower_digit d)
  lower-IsDigit d lt = ap is_some (digit_value-lower base d h lt)

  pub IsDigit-print_digits : (fuel n : ℕ) → n ≤ fuel → All (IsDigit base) (print_digits base fuel n)
  unfolding print_digits
  IsDigit-print_digits zero n le = (lower-IsDigit n (omega (arith, remains 0)), tt)
  IsDigit-print_digits (suc fuel) n le = elim (Bool-cases (ltb n base)) [
    | inl e ↦ rw e (lower-IsDigit n (ground arith), tt)
    | inr e ↦ rw e (
        All-append (IsDigit base) (print_digits base fuel (n / base)) (lower_digit (n % base) ∷ [])
          (IsDigit-print_digits fuel (n / base) (ground (arith, shrinks n, remains 0)))
          (lower-IsDigit (n % base) (remains n), tt))
  ]

behind_front : (front : Bytes) (c : ℕ) → empty (front ++ (c ∷ [])) ≡ false
behind_front [] c = refl
behind_front (x ∷ front) c = refl

pub print_digits-some : (base fuel n : ℕ) → empty (print_digits base fuel n) ≡ false
unfolding print_digits
print_digits-some base zero n = refl
print_digits-some base (suc fuel) n = elim (Bool-cases (ltb n base)) [
  | inl e ↦ rw e refl
  | inr e ↦ rw e (behind_front (print_digits base fuel (n / base)) (lower_digit (n % base)))
]

pub first_digit :
    (base c : ℕ) (s : Bytes)
    → base ≤ 16
    → IsDigit base c
    → sign (trim_front is_space (c ∷ s)) ≡ (false, c ∷ s)
unfolding digit_value trim_front
first_digit base c s h i = ground arith

no_prefix :
    (base c : ℕ) (s : Bytes)
    → base ≤ 16
    → All (IsDigit base) (c ∷ s)
    → skip_prefix base (c ∷ s) ≡ c ∷ s
unfolding digit_value skip_prefix
no_prefix base c [] h i = refl
no_prefix base c (x ∷ []) h i = refl
no_prefix base c (x ∷ y ∷ s) h i = ground arith

-- Digits alone are read to the end, as the number they stand for.
pub strtoul-digits :
    (base n c : ℕ) (s : Bytes)
    → base ≤ 16
    → All (IsDigit base) (c ∷ s)
    → digits base 0 (c ∷ s) ≡ (n, [])
    → n < 2 ^ 64
    → strtoul base (c ∷ s) ≡ record { value = n; rest = []; range_error = false }
unfolding strtoul read_signed read_number
strtoul-digits base n c s h i e lt =
    ap (read_signed base (c ∷ s)) (first_digit base c s h i.0)
    ∙ ap (read_number base (c ∷ s) false) (no_prefix base c s h i)
    ∙ in_range
  where
    in_range :
        (if is_some (digit_value base c)
          then unsigned_long 64 false (digits base 0 (c ∷ s))
          else record { value = 0; rest = c ∷ s; range_error = false })
        ≡ record { value = n; rest = []; range_error = false }
    in_range = rw (i.0, e) (ground arith)
