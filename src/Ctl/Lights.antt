-- ===== src/Ctl/Lights.antt =====
-- The command `led` from the builder of the client library to the numbers that the daemon writes to
-- the controller.
use ds4_translator.Base.{
  ℕ, ◌≤◌, ◌<◌, false, ◌≡◌, refl, ap, ◌∙◌, some, List, [], ◌∷◌, ◌++◌, Bytes, All, arith, ◌==◌,
  length, length-append, ltb,
}
use mathlib.Core.List.{reverse, reverse-append}
use ds4_translator.Base.Scanf.{pos, print_int}
use ds4_translator.Base.Scanf.Fits.{snprintf-fits, length-print}
use ds4_translator.Base.Scanf.Laws.{decimal-Numeral}
use ds4_translator.Base.Strtoul.{is_space, print, IsDigit, digit_value}
use ds4_translator.Base.Text.{text, empty, trim_back, starts_with, ◌===◌}
use ds4_translator.Client.{built}
use ds4_translator.Client.Led.{build_led}
use ds4_translator.Config.{is_blank}
use ds4_translator.Ctl.Sent.{digits_unspaced, words-Numeral, trim_back-append, decimal_parsed}
use ds4_translator.Daemon.Commands.{led, parse_command, parse_trimmed, words, pieces, flush_word}
use ds4_translator.Daemon.Execute.{parse_led}

-- A text whose last byte is not trimmed.
record Ended (s : Bytes) : Type 0 where
  last : ℕ
  before : Bytes
  turned : reverse s ≡ last ∷ before
  kept : is_blank last ≡ false

Ended-append : (xs ys : Bytes) → Ended ys → Ended (xs ++ ys)
Ended-append xs ys e = record {
  last = e.last;
  before = e.before ++ reverse xs;
  turned = reverse-append xs ys ∙ ap (λ u. u ++ reverse xs) e.turned;
  kept = e.kept;
}

not_blank : (c : ℕ) → is_space c ≡ false → is_blank c ≡ false
not_blank c h = ground arith

Ended-word : (c : ℕ) (s : Bytes) → All (λ d. is_space d ≡ false) (c ∷ s) → Ended (c ∷ s)
Ended-word c [] h = record { last = c; before = []; turned = refl; kept = not_blank c h.0 }
Ended-word c (d ∷ s) h = Ended-append (c ∷ []) (d ∷ s) (Ended-word d s h.1)

trim_back-Ended : (s : Bytes) → Ended s → trim_back is_blank s ≡ s
trim_back-Ended s e = trim_back-append is_blank [] s e.before e.last e.turned e.kept

unspaced_print : (n : ℕ) → All (λ c. is_space c ≡ false) (print 10 n)
unspaced_print n = digits_unspaced 10 (print 10 n) (omega arith) (decimal-Numeral n).all_digits

Ended-solid : (s : Bytes) → All (λ c. is_space c ≡ false) s → empty s ≡ false → Ended s
Ended-solid [] h e = absurd (ground arith)
Ended-solid (c ∷ s) h e = Ended-word c s h

Ended-print : (n : ℕ) → Ended (print 10 n)
Ended-print n = Ended-solid (print 10 n) (unspaced_print n) (decimal-Numeral n).some_digit

-- A single word.
pieces-solid : (t : Bytes) → All (λ c. is_space c ≡ false) t → pieces t ≡ (t, [])
unfolding pieces
pieces-solid [] h = refl
pieces-solid (c ∷ t) h = rw (h.0, pieces-solid t h.1) refl

words-solid : (t : Bytes) → All (λ c. is_space c ≡ false) t → empty t ≡ false → words t ≡ t ∷ []
unfolding words
words-solid [] h e = absurd (ground arith)
words-solid (c ∷ t) h e = ap flush_word (pieces-solid (c ∷ t) h)

words-print : (n : ℕ) (rest : Bytes) → words (print 10 n ++ 32 ∷ rest) ≡ print 10 n ∷ words rest
words-print n rest = words-Numeral 10 n (print 10 n) rest (omega arith) (decimal-Numeral n)

-- No number is taken for `--reset`.
not_reset :
    (t rest : Bytes) → All (IsDigit 10) t → empty t ≡ false → (t ++ rest === text "--reset") ≡ false
unfolding ◌===◌ digit_value
not_reset [] rest h e = absurd (ground arith)
not_reset (c ∷ t) rest h e = let other : (c == 45) ≡ false = ground (arith, h.0) in rw other refl

length-byte : (n : ℕ) → n < 256 → length (print 10 n) ≤ 3
length-byte n h = length-print 2 n (omega arith)

small : (n : ℕ) → n < 256 → ltb 255 n ≡ false
small n h = ground arith

module _ (red green blue left right : ℕ) where
  args : Bytes
  args =
      print 10 red
      ++ 32
        ∷ (print 10 green ++ 32 ∷ (print 10 blue ++ 32 ∷ (print 10 left ++ 32 ∷ print 10 right)))

  abbrev numbers : List Bytes
  numbers = print 10 red ∷ print 10 green ∷ print 10 blue ∷ print 10 left ∷ print 10 right ∷ []

  words-args : words args ≡ numbers
  unfolding args
  words-args =
      words-print red _
      ∙ ap (λ ws. print 10 red ∷ ws)
          (words-print green _
            ∙ ap (λ ws. print 10 green ∷ ws)
                (words-print blue _
                  ∙ ap (λ ws. print 10 blue ∷ ws)
                      (words-print left _
                        ∙ ap (λ ws. print 10 left ∷ ws)
                            (words-solid (print 10 right) (unspaced_print right)
                              (decimal-Numeral right).some_digit))))

  Ended-args : Ended args
  unfolding args
  Ended-args = Ended-append (print 10 red) _ (
      Ended-append (32 ∷ print 10 green) _ (
        Ended-append (32 ∷ print 10 blue) _
          (Ended-append (32 ∷ print 10 left) _ (Ended-append (32 ∷ []) _ (Ended-print right)))))

  parsed : parse_command (text "led " ++ args) ≡ led args
  unfolding parse_command parse_trimmed ◌===◌ starts_with args
  parsed =
      ap parse_trimmed (trim_back-Ended _ (Ended-append (text "led ") args Ended-args))
      ∙ rw
          (not_reset (print 10 red) _ (decimal-Numeral red).all_digits
            (decimal-Numeral red).some_digit)
          refl

  module _ (hr : red < 256) (hg : green < 256) (hb : blue < 256) (hl : left < 256)
      (hw : right < 256) where
    line_whole :
        build_led (pos red) (pos green) (pos blue) (pos left) (pos right)
        ≡ built (text "led " ++ args)
    unfolding build_led args print_int
    line_whole =
        rw (small red hr, small green hg, small blue hb, small left hl, small right hw)
          (ap built (
            snprintf-fits 64 (text "led " ++ args) (
              omega (
                arith,
                length-append (print 10 red) _,
                length-append (print 10 green) _,
                length-append (print 10 blue) _,
                length-append (print 10 left) (32 ∷ print 10 right),
                length-byte red hr,
                length-byte green hg,
                length-byte blue hb,
                length-byte left hl,
                length-byte right hw,
              ))))

    numbers_parsed :
        parse_led numbers
        ≡ some (record { motor_left = left; motor_right = right; r = red; g = green; b = blue })
    unfolding parse_led
    numbers_parsed =
        rw
          (
            decimal_parsed red (omega arith),
            decimal_parsed green (omega arith),
            decimal_parsed blue (omega arith),
            decimal_parsed left (omega arith),
            decimal_parsed right (omega arith),
          )
          (ground arith)

-- For any five numbers up to 255 the client library builds a line `led`, which the daemon reads as
-- the command `led`, and whose words give back exactly these numbers: the colour and the two motors
-- that it writes to the controller.
pub build_led_understood :
    (red green blue left right : ℕ)
    → red < 256
    → green < 256
    → blue < 256
    → left < 256
    → right < 256
    → (args : Bytes) × (build_led (pos red) (pos green) (pos blue) (pos left) (pos right)
        ≡ built (text "led " ++ args))
      × (parse_command (text "led " ++ args) ≡ led args)
      × (parse_led (words args)
          ≡ some (record { motor_left = left; motor_right = right; r = red; g = green; b = blue }))
build_led_understood red green blue left right hr hg hb hl hw = (
  args red green blue left right,
  line_whole red green blue left right hr hg hb hl hw,
  parsed red green blue left right,
  ap parse_led (words-args red green blue left right)
      ∙ numbers_parsed red green blue left right hr hg hb hl hw,
)
