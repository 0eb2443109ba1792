-- ===== src/Daemon/Tokens.antt =====
-- The numbers in the commands `input` and `led`: what a client prints is what the daemon reads.
use ds4_translator.Base.{
  ℕ, ◌+◌, ◌*◌, ◌/◌, ◌%◌, ◌^◌, ◌<◌, ◌≤◌, false, ◌≡◌, refl, sym, ap, ◌∙◌, some, [], ◌∷◌, Bytes, All,
  arith, append-nil,
}
use ds4_translator.Base.Text.{empty}
use ds4_translator.Base.Strtoul.{IsDigit, digits, print, print_digits}
use ds4_translator.Base.Strtoul.Laws.{
  strtoul-digits, digits-print_digits, IsDigit-print_digits, print_digits-some,
}
use ds4_translator.Daemon.Commands.{parse_unsigned_token}

parsed :
    (base n : ℕ) (s : Bytes)
    → base ≤ 16
    → All (IsDigit base) s
    → digits base 0 s ≡ (n, [])
    → empty s ≡ false
    → n < 2 ^ 32
    → parse_unsigned_token s base ≡ some n
unfolding parse_unsigned_token
parsed base n [] h i e ne lt = absurd (ground arith)
parsed base n (c ∷ s) h i e ne lt =
    rw (strtoul-digits base n c s h i e (omega arith)) (ground arith)

module _ (base : ℕ) (h : base ≤ 16) (shrinks : (n : ℕ) → 0 < n → n / base < n)
    (remains : (n : ℕ) → n % base < base) (joins : (n : ℕ) → n / base * base + n % base ≡ n) where
  printed : (n : ℕ) → n < 2 ^ 32 → parse_unsigned_token (print base n) base ≡ some n
  unfolding print digits
  printed n lt =
      parsed base n (print_digits base n n) h
        (IsDigit-print_digits base h shrinks remains joins n n (omega arith))
        (ap (digits base 0) (sym (append-nil (print_digits base n n)))
          ∙ digits-print_digits base h shrinks remains joins n n [] (omega arith)
          ∙ refl)
        (print_digits-some base n n) lt

-- Every 32-bit number, printed in decimal or in hexadecimal, is read back by `parse_unsigned_token`
-- in that base.
pub parse_unsigned_token_round_trip :
    (n : ℕ)
    → n < 2 ^ 32
    → (parse_unsigned_token (print 10 n) 10 ≡ some n)
      × (parse_unsigned_token (print 16 n) 16 ≡ some n)
parse_unsigned_token_round_trip n lt = (
  printed 10 (omega arith) (λ k p. omega arith) (λ k. omega arith) (λ k. omega arith) n lt,
  printed 16 (omega arith) (λ k p. omega arith) (λ k. omega arith) (λ k. omega arith) n lt,
)
