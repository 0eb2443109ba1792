-- ===== src/Client/Lines.antt =====
-- src/ipc-client.cpp, the lines of the live stream: each is written by the daemon and read by the
-- front ends through this one file.
pub mod Numbers
use ds4_translator.Base.{
  ℕ, ◌+◌, Bool, true, false, not, ◌&&◌, ◌||◌, ◌≡◌, Option, none, some, List, [], ◌∷◌, ◌++◌, Bytes,
  length, get_or, take, drop, u8, bit_and, ◌==◌, leb, if◌then◌else◌,
}
use ds4_translator.Base.Text.{text, find, starts_with, ◌===◌}
use ds4_translator.Base.Strtoul.{print}
use ds4_translator.Base.Scanf.{
  ℤ, pos, negsuc, int16, int32, print_int, print_byte, snprintf, Directive, blank, literal, word,
  unsigned, unsigned_long_long, hexadecimal, decimal, Field, bits, chars, sscanf, literals,
  spaced_format, spaced,
}
use ds4_translator.Buttons
use ds4_translator.Buttons.{decode_buttons, decode_dpad, or_if}
use ds4_translator.Report.{TouchPoint as RawPoint}

-- The value of a converted field; a variable that was not reached keeps its zero.
abbrev pub value_of : Field → ℕ
value_of (bits n) = n
value_of (chars s) = 0

abbrev pub text_of : Field → Bytes
text_of (bits n) = []
text_of (chars s) = s

abbrev pub value_at : List Field → ℕ → ℕ
value_at fields i = value_of (get_or fields i (bits 0))

pub record OutputState : Type 0 where
  pub red : ℤ
  pub green : ℤ
  pub blue : ℤ
  pub rumble_left : ℤ
  pub rumble_right : ℤ

unfoldable pub format_output_line : OutputState → Bytes
unfolding snprintf spaced print_int
format_output_line s = snprintf 64 (
    text "OUTPUT"
    ++ spaced (10 ∷ []) (
        print_int s.red
        ∷ print_int s.green
        ∷ print_int s.blue
        ∷ print_int s.rumble_left
        ∷ print_int s.rumble_right
        ∷ []))

abbrev pub output_format : List Directive
output_format =
    literals (text "OUTPUT")
      (spaced_format (unsigned ∷ unsigned ∷ unsigned ∷ unsigned ∷ unsigned ∷ []))

unfoldable pub output_of : List Field → Option OutputState
output_of fields =
    if not (length fields == 5)
    then none
    else some (record {
      red = int32 (value_at fields 0);
      green = int32 (value_at fields 1);
      blue = int32 (value_at fields 2);
      rumble_left = int32 (value_at fields 3);
      rumble_right = int32 (value_at fields 4);
    })

unfoldable pub parse_output : Bytes → Option OutputState
unfolding sscanf output_of starts_with
parse_output line =
    if not (starts_with (text "OUTPUT ") line) then none else output_of (sscanf line output_format)

pub record TimingStats : Type 0 where
  pub reports : ℕ
  pub window_us : ℕ
  pub interval_mean_us : ℕ
  pub interval_min_us : ℕ
  pub interval_max_us : ℕ
  pub latency_mean_us : ℕ
  pub latency_max_us : ℕ

unfoldable pub format_timing_line : ℕ → ℕ → ℕ → ℕ → ℕ → ℕ → ℕ → Bytes
unfolding snprintf spaced print
format_timing_line reports window_us interval_mean interval_min interval_max latency_mean
      latency_max =
    snprintf 128 (
      text "TIMING"
      ++ spaced (10 ∷ []) (
          print 10 reports
          ∷ print 10 window_us
          ∷ print 10 interval_mean
          ∷ print 10 interval_min
          ∷ print 10 interval_max
          ∷ print 10 latency_mean
          ∷ print 10 latency_max
          ∷ []))

abbrev pub timing_format : List Directive
timing_format = literals (text "TIMING") (
    spaced_format
      (unsigned ∷ unsigned_long_long ∷ unsigned ∷ unsigned ∷ unsigned ∷ unsigned ∷ unsigned ∷ []))

unfoldable pub timing_of : List Field → Option TimingStats
timing_of fields =
    if not (length fields == 7)
    then none
    else some (record {
      reports = value_at fields 0;
      window_us = value_at fields 1;
      interval_mean_us = value_at fields 2;
      interval_min_us = value_at fields 3;
      interval_max_us = value_at fields 4;
      latency_mean_us = value_at fields 5;
      latency_max_us = value_at fields 6;
    })

unfoldable pub parse_timing : Bytes → Option TimingStats
unfolding sscanf timing_of starts_with
parse_timing line =
    if not (starts_with (text "TIMING ") line) then none else timing_of (sscanf line timing_format)

-- The source, empty if the note names none, and the text.
unfoldable pub parse_note : Bytes → Option (Bytes × Bytes)
unfolding starts_with find ◌===◌
parse_note line = if not (starts_with (text "NOTE ") line) then none else some (note (drop 5 line))
  where
    split : Bytes → Option ℕ → Bytes × Bytes
    split body none =
        if body === text "VIRTUAL" || body === text "PHYSICAL" then (body, body) else ([], body)
    split body (some i) =
        let first = take i body in
        if first === text "VIRTUAL" || first === text "PHYSICAL"
        then (first, drop (i + 1) body)
        else ([], body)

    note : Bytes → Bytes × Bytes
    note body = split body (find 32 body)
