-- ===== src/Client/State/RoundTrip.antt =====
-- An input state that the daemon writes as a line is the state that a front end reads.
use ds4_translator.Base.{
  ℕ, ◌≤◌, ◌<◌, Bool, true, false, ◌≡◌, refl, ap, ◌∙◌, some, List, [], ◌∷◌, ◌++◌, Bytes, All,
  All-append, arith, length, length-append, u8, bit_and, ◌==◌, not,
}
use ds4_translator.Base.Bits.Masks.{bit_and_0x0f}
use ds4_translator.Base.Text.{text}
use ds4_translator.Base.Strtoul.{print}
use ds4_translator.Base.Scanf.{
  ℤ, bits, chars, int32, word, unsigned, hexadecimal, decimal, print_int, print_byte, spaced,
  sscanf,
}
use ds4_translator.Base.Scanf.Tokens.{
  Below, pattern, int32-pattern, int16-pattern, Token, ReadsToken, texts_of, fields_of,
  Reads-unsigned, Reads-byte, Reads-int, Reads-word, IsWordChar, sscanf-line, tokens, tokens-All,
}
use ds4_translator.Base.Scanf.Fits.{
  snprintf-fits, length-print, length-print_int, length-print_byte, length-spaced, AtMost, IsLine,
  InLine, line_of, line_of-IsLine, newline_behind, print-IsLine, print_int-IsLine,
  print_byte-IsLine, word-IsLine,
}
use ds4_translator.Buttons
use ds4_translator.Buttons.{decode_buttons, decode_dpad}
use ds4_translator.Buttons.Widths.{ors, ors-lt}
use ds4_translator.Synth.{
  synthetic_byte0, synthetic_byte1, synthetic_byte2, SyntheticState, neutral,
  build_synthetic_common,
}
use ds4_translator.Synth.RoundTrip.{build_synthetic_common_round_trip}
use ds4_translator.Client.State.{
  InputState, TouchPoint, Three, axes, button_bytes, state_ints, flag, state_byte0, state_byte1,
  state_byte2, format_state_line, state_format, state_of, parse_state,
}

state_byte0-lt : (s : InputState) → state_byte0 s < 256
unfolding state_byte0 ors
state_byte0-lt s =
    ors-lt 8
      ((s.buttons, Buttons.triangle, 0x80)
        ∷ (s.buttons, Buttons.circle, 0x40)
        ∷ (s.buttons, Buttons.cross, 0x20)
        ∷ (s.buttons, Buttons.square, 0x10)
        ∷ [])
      (bit_and s.dpad 0x0F) (ground arith) (rw bit_and_0x0f (omega arith))

state_byte1-lt : (s : InputState) → state_byte1 s < 256
unfolding state_byte1 ors
state_byte1-lt s =
    ors-lt 8
      ((s.buttons, Buttons.r3, 0x80)
        ∷ (s.buttons, Buttons.l3, 0x40)
        ∷ (s.buttons, Buttons.options, 0x20)
        ∷ (s.buttons, Buttons.share, 0x10)
        ∷ (s.buttons, Buttons.r2, 0x08)
        ∷ (s.buttons, Buttons.l2, 0x04)
        ∷ (s.buttons, Buttons.r1, 0x02)
        ∷ (s.buttons, Buttons.l1, 0x01)
        ∷ [])
      0 (ground arith) (omega arith)

state_byte2-lt : (s : InputState) → state_byte2 s < 256
unfolding state_byte2 ors
state_byte2-lt s =
    ors-lt 8 ((s.buttons, Buttons.touchpad, 0x02) ∷ (s.buttons, Buttons.ps, 0x01) ∷ []) 0
      (ground arith) (omega arith)

-- The synthetic controller packs its buttons the same way.
abbrev as_synthetic : InputState → SyntheticState
as_synthetic s = record neutral { buttons = s.buttons; dpad = s.dpad }

buttons_kept :
    (s : InputState)
    → s.buttons < 16384
    → decode_buttons (state_byte0 s) (state_byte1 s) (state_byte2 s) ≡ s.buttons
unfolding state_byte0 state_byte1 state_byte2 synthetic_byte0 synthetic_byte1 synthetic_byte2
    build_synthetic_common
buttons_kept s h = (build_synthetic_common_round_trip (as_synthetic s) 0 h).0

dpad_kept :
    (s : InputState) → s.dpad < 16 → s.buttons < 16384 → decode_dpad (state_byte0 s) ≡ s.dpad
unfolding state_byte0 synthetic_byte0 build_synthetic_common
dpad_kept s h k = (build_synthetic_common_round_trip (as_synthetic s) 0 k).1 ∙ omega arith

abbrev number_token : ℕ → Token
number_token n = (unsigned, print 10 n, bits n)

abbrev byte_token : ℕ → Token
byte_token n = (hexadecimal, print_byte n, bits n)

abbrev int_token : ℤ → Token
int_token z = (decimal, print_int z, bits (pattern z))

abbrev number_tokens : InputState → List Token
number_tokens s =
    tokens number_token (axes s)
    ++ tokens byte_token (button_bytes s)
    ++ tokens int_token (state_ints s)

abbrev state_tokens : Bytes → InputState → List Token
state_tokens source s = (word 15, source, chars source) ∷ number_tokens s

abbrev pub IsByte : ℕ → Type 0
IsByte n = n < 256

abbrev pub Short : ℤ → Type 0
Short z = Below 99999 z

abbrev pub Is16 : Three → Type 0
Is16 v = Below 32768 v.v0 × Below 32768 v.v1 × Below 32768 v.v2

abbrev pub FitsContact : TouchPoint → Type 0
FitsContact p = Short p.x × Short p.y

-- The widths of the members, with touch coordinates of at most five digits.
pub record FitsState (s : InputState) : Type 0 where
  pub sticks_fit : All IsByte (axes s)
  pub buttons_fit : s.buttons < 16384
  pub dpad_fits : s.dpad < 16
  pub gyro_fits : Is16 s.gyro
  pub accel_fits : Is16 s.accel
  pub touch0_fits : FitsContact s.touch0
  pub touch1_fits : FitsContact s.touch1

-- A source is one word of at most 15 bytes.
pub record IsSource (source : Bytes) : Type 0 where
  pub one_word : All IsWordChar source
  pub some_byte : 0 < length source
  pub at_most_15 : length source ≤ 15

flag-Short : (b : Bool) → Short (flag b)
flag-Short true = omega arith
flag-Short false = omega arith

ints-Short : (s : InputState) → FitsState s → All Short (state_ints s)
ints-Short s f = ground (
  arith,
  f.gyro_fits,
  f.accel_fits,
  f.touch0_fits,
  f.touch1_fits,
  flag-Short s.touch0.active,
  flag-Short s.touch1.active,
)

bytes_fit : (s : InputState) → All IsByte (button_bytes s)
bytes_fit s = (state_byte0-lt s, (state_byte1-lt s, (state_byte2-lt s, tt)))

number_tokens-All :
    (Q : Token → Type 0) (s : InputState)
    → FitsState s
    → ((n : ℕ) → IsByte n → Q (number_token n))
    → ((n : ℕ) → IsByte n → Q (byte_token n))
    → ((z : ℤ) → Short z → Q (int_token z))
    → All Q (number_tokens s)
number_tokens-All Q s f numbers bytes ints =
    All-append Q (tokens number_token (axes s))
      (tokens byte_token (button_bytes s) ++ tokens int_token (state_ints s))
      (tokens-All number_token IsByte Q numbers (axes s) f.sticks_fit)
      (All-append Q (tokens byte_token (button_bytes s)) (tokens int_token (state_ints s))
        (tokens-All byte_token IsByte Q bytes (button_bytes s) (bytes_fit s))
        (tokens-All int_token Short Q ints (state_ints s) (ints-Short s f)))

source_read : (source : Bytes) → IsSource source → ReadsToken (word 15, source, chars source)
source_read [] f = absurd (omega (arith, f.some_byte))
source_read (c ∷ w) f = Reads-word 15 c w f.one_word f.at_most_15

state_line : Bytes → InputState → Bytes
state_line source s = line_of (text "STATE") (state_tokens source s)

module _ (source : Bytes) (g : IsSource source) (s : InputState) (f : FitsState s) where
  state_written : format_state_line source s ≡ state_line source s ++ 10 ∷ []
  unfolding format_state_line state_line spaced
  state_written =
      let rest = spaced (10 ∷ []) (texts_of (number_tokens s)) in
      snprintf-fits 256 (text "STATE" ++ spaced (10 ∷ []) (texts_of (state_tokens source s))) (
        omega (
          arith,
          length-append source rest,
          g.at_most_15,
          length-spaced 6 (10 ∷ []) (number_tokens s) (
              number_tokens-All (AtMost 6) s f
                (λ n h. omega (arith, length-print 2 n (omega arith)))
                (λ n h. omega (arith, length-print_byte n h)) (λ z h. length-print_int 4 z h)),
        ))
      ∙ newline_behind (text "STATE") (state_tokens source s)

  state_read : sscanf (state_line source s) state_format ≡ fields_of (state_tokens source s)
  unfolding state_line
  state_read = sscanf-line (text "STATE") (state_tokens source s) (
    source_read source g,
    number_tokens-All ReadsToken s f (λ n h. Reads-unsigned n (omega arith)) (λ n h. Reads-byte n h)
        (λ z h. Reads-int z (ground arith)),
  )

  state_line-IsLine : IsLine (state_line source s)
  unfolding state_line
  state_line-IsLine = line_of-IsLine (text "STATE") (state_tokens source s) (ground arith) (
    word-IsLine source g.one_word,
    number_tokens-All InLine s f (λ n h. print-IsLine n) (λ n h. print_byte-IsLine n)
        (λ z h. print_int-IsLine z),
  )

flag_kept : (b : Bool) → not (pattern (flag b) == 0) ≡ b
flag_kept true = refl
flag_kept false = refl

int_kept : (z : ℤ) → Short z → int32 (pattern z) ≡ z
int_kept z h = int32-pattern z (ground arith)

byte_kept : (n : ℕ) → IsByte n → u8 n ≡ n
byte_kept n h = omega arith

-- What a line has room for: the source stands in front, and both flags say that all is there.
abbrev pub received : Bytes → InputState → InputState
received source s = record s { source = source; has_motion = true; has_touch = true }

state_of_fields :
    (source : Bytes) (s : InputState)
    → FitsState s
    → state_of (fields_of (state_tokens source s)) ≡ some (received source s)
unfolding state_of
state_of_fields source s f =
    let sticks = f.sticks_fit in
    rw
      (
        byte_kept s.lx sticks.0,
        byte_kept s.ly sticks.1.0,
        byte_kept s.rx sticks.1.1.0,
        byte_kept s.ry sticks.1.1.1.0,
        byte_kept s.l2 sticks.1.1.1.1.0,
        byte_kept s.r2 sticks.1.1.1.1.1.0,
        byte_kept (state_byte0 s) (state_byte0-lt s),
        byte_kept (state_byte1 s) (state_byte1-lt s),
        byte_kept (state_byte2 s) (state_byte2-lt s),
        buttons_kept s f.buttons_fit,
        dpad_kept s f.dpad_fits f.buttons_fit,
        int16-pattern s.gyro.v0 f.gyro_fits.0,
        int16-pattern s.gyro.v1 f.gyro_fits.1,
        int16-pattern s.gyro.v2 f.gyro_fits.2,
        int16-pattern s.accel.v0 f.accel_fits.0,
        int16-pattern s.accel.v1 f.accel_fits.1,
        int16-pattern s.accel.v2 f.accel_fits.2,
        flag_kept s.touch0.active,
        flag_kept s.touch1.active,
        int_kept s.touch0.x f.touch0_fits.0,
        int_kept s.touch0.y f.touch0_fits.1,
        int_kept s.touch1.x f.touch1_fits.0,
        int_kept s.touch1.y f.touch1_fits.1,
      )
      refl

-- The daemon writes a state with members of their widths, for a source of one word, as one line with
-- a newline behind it, and `parse_state` reads back from that line all its buttons, sticks, motion and
-- contacts.
pub parse_state_round_trip :
    (source : Bytes) (s : InputState)
    → IsSource source
    → FitsState s
    → (line : Bytes) × (format_state_line source s ≡ line ++ 10 ∷ [])
      × IsLine line
      × (parse_state line ≡ some (received source s))
unfolding parse_state state_line spaced
parse_state_round_trip source s g f = (
  state_line source s,
  state_written source g s f,
  state_line-IsLine source g s f,
  ap state_of (state_read source g s f) ∙ state_of_fields source s f,
)
