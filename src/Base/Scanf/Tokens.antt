-- ===== src/Base/Scanf/Tokens.antt =====
-- What `sscanf` reads from the tokens of a line that `snprintf` printed.
use ds4_translator.Base.{
  ℕ, zero, suc, ◌-◌, ◌^◌, ◌≤◌, ◌<◌, true, false, ◌≡◌, refl, ap, ◌∙◌, List, [], ◌∷◌, ◌++◌, Bytes,
  All, arith, length, ==_refl, ◌==◌, ◌||◌,
}
use mathlib.Core.Path.{subst}
use ds4_translator.Base.Text.{trim_front}
use ds4_translator.Base.Strtoul.{is_space, print}
use ds4_translator.Base.Scanf.{
  Directive, word, Field, bits, chars, read_word, sscanf, spaced, spaced_format, literals,
  print_byte, print_int, ℤ, pos, negsuc, unsigned, unsigned_long_long, hexadecimal, decimal, int16,
  int32,
}
use ds4_translator.Base.Scanf.Laws.{
  Reads, Reads-integer, Reads-minus, decimal-Numeral, print_byte-Numeral, not_trimmed, stops,
  spaced-stops,
}

-- The bits of an `int`.
abbrev pub pattern : ℤ → ℕ
pattern (pos n) = n
pattern (negsuc n) = 4294967295 - n

abbrev pub Below : ℕ → ℤ → Type 0
Below bound (pos n) = n < bound
Below bound (negsuc n) = n < bound

pub int32-pattern : (z : ℤ) → Below 2147483648 z → int32 (pattern z) ≡ z
int32-pattern (pos n) h = ground arith
int32-pattern (negsuc n) h = ground arith

pub int16-pattern : (z : ℤ) → Below 32768 z → int16 (pattern z) ≡ z
int16-pattern (pos n) h = ground arith
int16-pattern (negsuc n) h = ground arith

-- `%u` reads a number that `%u` or `%d` printed.
pub Reads-unsigned : (n : ℕ) → n < 2 ^ 32 → Reads unsigned (print 10 n) (bits n)
Reads-unsigned n lt =
    subst (λ k. Reads unsigned (print 10 n) (bits k)) (ground arith)
      (Reads-integer 10 32 false (omega arith) n (print 10 n) (decimal-Numeral n))

pub Reads-unsigned_int :
    (z : ℤ) → Below 2147483648 z → Reads unsigned (print_int z) (bits (pattern z))
unfolding print_int
Reads-unsigned_int (pos n) lt = Reads-unsigned n (omega arith)
Reads-unsigned_int (negsuc n) lt =
    subst (λ k. Reads unsigned (45 ∷ print 10 (suc n)) (bits k)) (ground arith)
      (Reads-minus 10 32 false (omega arith) (suc n) (print 10 (suc n)) (decimal-Numeral (suc n)))

pub Reads-int : (z : ℤ) → Below 2147483648 z → Reads decimal (print_int z) (bits (pattern z))
unfolding print_int
Reads-int (pos n) lt =
    subst (λ k. Reads decimal (print 10 n) (bits k)) (ground arith)
      (Reads-integer 10 32 true (omega arith) n (print 10 n) (decimal-Numeral n))
Reads-int (negsuc n) lt =
    subst (λ k. Reads decimal (45 ∷ print 10 (suc n)) (bits k)) (ground arith)
      (Reads-minus 10 32 true (omega arith) (suc n) (print 10 (suc n)) (decimal-Numeral (suc n)))

pub Reads-unsigned_long_long : (n : ℕ) → n < 2 ^ 64 → Reads unsigned_long_long (print 10 n) (bits n)
Reads-unsigned_long_long n lt =
    subst (λ k. Reads unsigned_long_long (print 10 n) (bits k)) (ground arith)
      (Reads-integer 10 64 false (omega arith) n (print 10 n) (decimal-Numeral n))

pub Reads-byte : (n : ℕ) → n < 256 → Reads hexadecimal (print_byte n) (bits n)
Reads-byte n lt =
    subst (λ k. Reads hexadecimal (print_byte n) (bits k)) (ground arith)
      (Reads-integer 16 32 false (omega arith) n (print_byte n) (print_byte-Numeral n))

-- What `%s` takes for a part of a word.
abbrev pub IsWordChar : ℕ → Type 0
IsWordChar c = (is_space c || c == 0) ≡ false

read_word-stops :
    (max : ℕ) (w rest : Bytes)
    → All IsWordChar w
    → length w ≤ max
    → stops rest ≡ true
    → read_word max (w ++ rest) ≡ (w, rest)
unfolding read_word stops
read_word-stops zero [] rest h le sp = refl
read_word-stops zero (c ∷ w) rest h le sp = absurd (omega arith)
read_word-stops (suc max) [] [] h le sp = refl
read_word-stops (suc max) [] (r ∷ rest) h le sp = rw sp refl
read_word-stops (suc max) (c ∷ w) rest h le sp =
    rw (h.0, read_word-stops max w rest h.1 (omega arith) sp) refl

worded :
    (max c : ℕ) (s w rest : Bytes) (f : List Directive)
    → read_word max (trim_front is_space s) ≡ (c ∷ w, rest)
    → sscanf s (word max ∷ f) ≡ chars (c ∷ w) ∷ sscanf rest f
unfolding sscanf
worded max c s w rest f e = λ i.
    let (front, behind) = e i in elim front [ [] ↦ [] | x ∷ xs ↦ chars (x ∷ xs) ∷ sscanf behind f ]

word_not_space : (c : ℕ) → IsWordChar c → is_space c ≡ false
word_not_space c h = ground arith

pub Reads-word :
    (max c : ℕ) (w : Bytes)
    → All IsWordChar (c ∷ w)
    → length (c ∷ w) ≤ max
    → Reads (word max) (c ∷ w) (chars (c ∷ w))
unfolding sscanf trim_front
Reads-word max c w h le rest f sp =
    let kept = not_trimmed c (w ++ rest) (word_not_space c h.0) in
    ap (λ u. sscanf u (word max ∷ f)) kept
    ∙ worded max c (c ∷ w ++ rest) w rest f
        (ap (read_word max) kept ∙ read_word-stops max (c ∷ w) rest h le sp)

-- A whole line.
abbrev pub Token : Type 0
Token = Directive × Bytes × Field

abbrev pub ReadsToken : Token → Type 0
ReadsToken (d, t, v) = Reads d t v

abbrev pub directives_of : List Token → List Directive
directives_of [] = []
directives_of ((d, t, v) ∷ ts) = d ∷ directives_of ts

abbrev pub texts_of : List Token → List Bytes
texts_of [] = []
texts_of ((d, t, v) ∷ ts) = t ∷ texts_of ts

abbrev pub fields_of : List Token → List Field
fields_of [] = []
fields_of ((d, t, v) ∷ ts) = v ∷ fields_of ts

-- The tokens of several values of one kind.
abbrev pub tokens {ℓ} : {A : Type ℓ} → (A → Token) → List A → List Token
tokens token [] = []
tokens token (a ∷ xs) = token a ∷ tokens token xs

module _ {ℓ κ} {A : Type ℓ} (token : A → Token) (P : A → Type κ) where
  pub tokens-All :
      (Q : Token → Type 0)
      → ((a : A) → P a → Q (token a))
      → (xs : List A) → All P xs
      → All Q (tokens token xs)
  tokens-All Q each [] h = tt
  tokens-All Q each (a ∷ xs) h = (each a h.0, tokens-All Q each xs h.1)

sscanf-spaced :
    (ending : Bytes) (ts : List Token)
    → stops ending ≡ true
    → All ReadsToken ts
    → sscanf (spaced ending (texts_of ts)) (spaced_format (directives_of ts)) ≡ fields_of ts
unfolding spaced sscanf
sscanf-spaced ending [] sp h = refl
sscanf-spaced ending ((d, t, v) ∷ ts) sp h =
    h.0 (spaced ending (texts_of ts)) (spaced_format (directives_of ts))
      (spaced-stops ending (texts_of ts) sp)
    ∙ ap (λ vs. v ∷ vs) (sscanf-spaced ending ts sp h.1)

sscanf-literals : (p s : Bytes) (f : List Directive) → sscanf (p ++ s) (literals p f) ≡ sscanf s f
unfolding sscanf
sscanf-literals [] s f = refl
sscanf-literals (c ∷ p) s f = rw (==_refl c, sscanf) (sscanf-literals p s f)

-- A line that ends with its last token.
pub sscanf-line :
    (name : Bytes) (ts : List Token)
    → All ReadsToken ts
    → sscanf (name ++ spaced [] (texts_of ts)) (literals name (spaced_format (directives_of ts)))
      ≡ fields_of ts
unfolding stops
sscanf-line name ts h =
    sscanf-literals name (spaced [] (texts_of ts)) (spaced_format (directives_of ts))
    ∙ sscanf-spaced [] ts refl h
