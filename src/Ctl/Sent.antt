-- ===== src/Ctl/Sent.antt =====
-- What the button tester sends is what the daemon takes: the command `input` from `send_ui_state` to
-- the state of the standalone controller.
use ds4_translator.Base.{
  ℕ, ◌%◌, ◌≤◌, ◌<◌, ◌^◌, Bool, true, false, ◌≡◌, refl, sym, ap, ◌∙◌, some, List, [], ◌∷◌, ◌++◌,
  Bytes, All, append_assoc, arith, length, length-append, has, drop, if◌then◌else◌,
}
use mathlib.Core.List.{reverse, reverse-reverse, reverse-append}
use ds4_translator.Base.Scanf.Fits.{snprintf-fits, length-print, length-print_hex}
use ds4_translator.Base.Scanf.Laws.{Numeral, decimal-Numeral, hexadecimal-Numeral, not_space}
use ds4_translator.Base.Strtoul.{
  is_space, print, print_digits, IsDigit, strtoul, read_signed, read_number, digits, digit_value,
  skip_prefix,
}
use ds4_translator.Base.Text.{text, empty, trim_front, trim_back, starts_with, ◌===◌}
use ds4_translator.Buttons
use ds4_translator.Config.{is_blank}
use ds4_translator.Ctl.{UiState, input_command}
use ds4_translator.Daemon.Commands.{
  input, parse_command, parse_trimmed, words, pieces, flush_word, parse_unsigned_token,
}
use ds4_translator.Daemon.Execute.{parse_input}
use ds4_translator.Daemon.Tokens.{parse_unsigned_token_round_trip}
use ds4_translator.Synth.{SyntheticState}

-- A word is what stands before a space.
pieces-word :
    (t rest : Bytes) → All (λ c. is_space c ≡ false) t → pieces (t ++ 32 ∷ rest) ≡ (t, words rest)
unfolding pieces words
pieces-word [] rest h = refl
pieces-word (c ∷ t) rest h = rw (h.0, pieces-word t rest h.1) refl

pub words-word :
    (t rest : Bytes)
    → All (λ c. is_space c ≡ false) t
    → empty t ≡ false
    → words (t ++ 32 ∷ rest) ≡ t ∷ words rest
unfolding words
words-word [] rest h ne = absurd (ground arith)
words-word (c ∷ t) rest h ne = ap flush_word (pieces-word (c ∷ t) rest h)

pub digits_unspaced :
    (base : ℕ) (s : Bytes) → base ≤ 16 → All (IsDigit base) s → All (λ c. is_space c ≡ false) s
digits_unspaced base [] h i = tt
digits_unspaced base (c ∷ s) h i = (not_space base c h i.0, digits_unspaced base s h i.1)

pub words-Numeral :
    (base n : ℕ) (t rest : Bytes)
    → base ≤ 16
    → Numeral base n t
    → words (t ++ 32 ∷ rest) ≡ t ∷ words rest
words-Numeral base n t rest h m =
    words-word t rest (digits_unspaced base t h m.all_digits) m.some_digit

-- Trimming stops at a last byte that is none of those trimmed.
pub trim_back-append :
    (p : ℕ → Bool) (xs ys zs : Bytes) (c : ℕ)
    → reverse ys ≡ c ∷ zs
    → p c ≡ false
    → trim_back p (xs ++ ys) ≡ xs ++ ys
unfolding trim_back trim_front
trim_back-append p xs ys zs c e f =
    let turned : reverse (xs ++ ys) ≡ c ∷ (zs ++ reverse xs) =
      reverse-append xs ys ∙ ap (λ u. u ++ reverse xs) e in
    ap (λ u. reverse (trim_front p u)) turned
    ∙ rw f refl
    ∙ ap reverse (sym turned)
    ∙ reverse-reverse (xs ++ ys)

abbrev trigger : Bool → ℕ
trigger down = if down then 255 else 0

-- The state that the command asks for.
abbrev pub asked : UiState → SyntheticState
asked s = record {
  buttons = s.buttons;
  dpad = s.dpad;
  lx = 128;
  ly = 128;
  rx = 128;
  ry = 128;
  l2_analog = trigger (has s.buttons Buttons.l2);
  r2_analog = trigger (has s.buttons Buttons.r2);
}

-- The tail of the command, from the sticks on.
tail_of : Bool → Bool → Bytes
tail_of l2 r2 =
    text "128 128 128 128 "
    ++ ((if l2 then print 10 255 else print 10 0)
        ++ (32 ∷ (if r2 then print 10 255 else print 10 0)))

tail_words : Bool → Bool → List Bytes
tail_words l2 r2 =
    text "128"
    ∷ text "128"
    ∷ text "128"
    ∷ text "128"
    ∷ (if l2 then print 10 255 else print 10 0)
    ∷ (if r2 then print 10 255 else print 10 0)
    ∷ []

words-tail : (l2 r2 : Bool) → words (tail_of l2 r2) ≡ tail_words l2 r2
unfolding words pieces tail_of tail_words print print_digits
words-tail true true = refl
words-tail true false = refl
words-tail false true = refl
words-tail false false = refl

abbrev last_byte : Bool → ℕ
last_byte r2 = if r2 then 53 else 48

abbrev before_last : Bool → Bool → Bytes
before_last l2 r2 = drop 1 (reverse (tail_of l2 r2))

reverse-tail : (l2 r2 : Bool) → reverse (tail_of l2 r2) ≡ last_byte r2 ∷ before_last l2 r2
unfolding tail_of print print_digits
reverse-tail true true = refl
reverse-tail true false = refl
reverse-tail false true = refl
reverse-tail false false = refl

length-tail : (l2 r2 : Bool) → length (tail_of l2 r2) ≤ 23
unfolding tail_of print print_digits
length-tail true true = omega arith
length-tail true false = omega arith
length-tail false true = omega arith
length-tail false false = omega arith

last_not_blank : (r2 : Bool) → is_blank (last_byte r2) ≡ false
last_not_blank true = refl
last_not_blank false = refl

pub decimal_parsed : (n : ℕ) → n < 2 ^ 32 → parse_unsigned_token (print 10 n) 10 ≡ some n
decimal_parsed n lt = (parse_unsigned_token_round_trip n lt).0

centre_parsed : parse_unsigned_token (text "128") 10 ≡ some 128
unfolding parse_unsigned_token strtoul read_signed read_number digits digit_value skip_prefix
    trim_front
centre_parsed = refl

trigger_parsed :
    (down : Bool)
    → parse_unsigned_token (if down then print 10 255 else print 10 0) 10 ≡ some (trigger down)
trigger_parsed true = decimal_parsed 255 (omega arith)
trigger_parsed false = decimal_parsed 0 (omega arith)

trigger-lt : (down : Bool) → trigger down % 256 ≡ trigger down
trigger-lt true = refl
trigger-lt false = refl

regroup : (a b c : Bytes) → a ++ 32 ∷ (b ++ 32 ∷ c) ≡ (a ++ 32 ∷ (b ++ 32 ∷ [])) ++ c
regroup a b c =
    ap (λ u. a ++ 32 ∷ u) (sym (append_assoc b (32 ∷ []) c))
    ∙ sym (append_assoc a (32 ∷ (b ++ 32 ∷ [])) c)

-- The eight numbers of the command.
module _ (s : UiState) (hb : s.buttons < 65536) (hd : s.dpad < 256) where
  args_parsed :
      parse_input (
        print 16 s.buttons
        ∷ print 10 s.dpad
        ∷ tail_words (has s.buttons Buttons.l2) (has s.buttons Buttons.r2))
      ≡ some (asked s)
  unfolding parse_input tail_words
  args_parsed =
      let wide : s.buttons % 65536 ≡ s.buttons = omega arith in
      let narrow : s.dpad % 256 ≡ s.dpad = omega arith in
      rw
        (
          (parse_unsigned_token_round_trip s.buttons (omega arith)).1,
          decimal_parsed s.dpad (omega arith),
          centre_parsed,
          trigger_parsed (has s.buttons Buttons.l2),
          trigger_parsed (has s.buttons Buttons.r2),
          wide,
          narrow,
          trigger-lt (has s.buttons Buttons.l2),
          trigger-lt (has s.buttons Buttons.r2),
        )
        refl

  rest : Bytes
  rest = tail_of (has s.buttons Buttons.l2) (has s.buttons Buttons.r2)

  args : Bytes
  args = print 16 s.buttons ++ 32 ∷ (print 10 s.dpad ++ 32 ∷ rest)

  words-args :
      words args
      ≡ print 16 s.buttons
        ∷ print 10 s.dpad
        ∷ tail_words (has s.buttons Buttons.l2) (has s.buttons Buttons.r2)
  unfolding args rest
  words-args =
      words-Numeral 16 s.buttons (print 16 s.buttons) (print 10 s.dpad ++ 32 ∷ rest) (omega arith)
        (hexadecimal-Numeral s.buttons)
      ∙ ap (λ ws. print 16 s.buttons ∷ ws)
          (words-Numeral 10 s.dpad (print 10 s.dpad) rest (omega arith) (decimal-Numeral s.dpad)
            ∙ ap (λ ws. print 10 s.dpad ∷ ws)
                (words-tail (has s.buttons Buttons.l2) (has s.buttons Buttons.r2)))

  command_whole : input_command s ≡ text "input " ++ args
  unfolding input_command args rest tail_of
  command_whole = snprintf-fits 128 (text "input " ++ args) (
      omega (
        arith,
        length-append (print 16 s.buttons) (32 ∷ (print 10 s.dpad ++ 32 ∷ rest)),
        length-append (print 10 s.dpad) (32 ∷ rest),
        length-print_hex 4 s.buttons (omega arith),
        length-print 2 s.dpad (omega arith),
        length-tail (has s.buttons Buttons.l2) (has s.buttons Buttons.r2),
      ))

  front : Bytes
  front = text "input " ++ (print 16 s.buttons ++ 32 ∷ (print 10 s.dpad ++ 32 ∷ []))

  split : text "input " ++ args ≡ front ++ rest
  unfolding args front
  split = ap (λ u. text "input " ++ u) (regroup (print 16 s.buttons) (print 10 s.dpad) rest)

  trimmed : trim_back is_blank (text "input " ++ args) ≡ text "input " ++ args
  unfolding rest
  trimmed =
      ap (trim_back is_blank) split
      ∙ trim_back-append is_blank front rest
          (before_last (has s.buttons Buttons.l2) (has s.buttons Buttons.r2))
          (last_byte (has s.buttons Buttons.r2))
          (reverse-tail (has s.buttons Buttons.l2) (has s.buttons Buttons.r2))
          (last_not_blank (has s.buttons Buttons.r2))
      ∙ sym split

-- What the tester of `ds4-ctl` sends for any state of its buttons and hat, the daemon reads as the
-- command `input`, whose eight numbers give back exactly these buttons and this hat, centred sticks,
-- and triggers that are down where their buttons are.
pub input_command_understood :
    (s : UiState)
    → s.buttons < 65536
    → s.dpad < 256
    → (args : Bytes) × (parse_command (input_command s) ≡ input args)
      × (parse_input (words args) ≡ some (asked s))
unfolding parse_command parse_trimmed ◌===◌ starts_with
input_command_understood s hb hd = (
  args s hb hd,
  ap parse_command (command_whole s hb hd) ∙ ap parse_trimmed (trimmed s hb hd),
  ap parse_input (words-args s hb hd) ∙ args_parsed s hb hd,
)
