-- ===== src/Client/Lines/Numbers.antt =====
-- What the daemon says of the light bar, the motors and the timing is what a front end reads.
use ds4_translator.Base.{
  ℕ, ◌^◌, ◌<◌, ◌≡◌, ap, ◌∙◌, some, List, [], ◌∷◌, ◌++◌, Bytes, All, arith, length-append,
}
use ds4_translator.Base.Text.{text}
use ds4_translator.Base.Strtoul.{print}
use ds4_translator.Base.Scanf.{
  ℤ, bits, int32, unsigned, unsigned_long_long, print_int, spaced, sscanf,
}
use ds4_translator.Base.Scanf.Tokens.{
  Below, pattern, int32-pattern, Token, ReadsToken, texts_of, fields_of, Reads-unsigned,
  Reads-unsigned_int, Reads-unsigned_long_long, sscanf-line, tokens, tokens-All,
}
use ds4_translator.Base.Scanf.Fits.{
  snprintf-fits, length-print, length-print_int, length-spaced, AtMost, IsLine, InLine, line_of,
  line_of-IsLine, newline_behind, print-IsLine, print_int-IsLine,
}
use ds4_translator.Client.Lines.{
  OutputState, format_output_line, output_format, output_of, parse_output, TimingStats,
  format_timing_line, timing_format, timing_of, parse_timing,
}

abbrev output_token : ℤ → Token
output_token z = (unsigned, print_int z, bits (pattern z))

abbrev pub output_values : OutputState → List ℤ
output_values s = s.red ∷ s.green ∷ s.blue ∷ s.rumble_left ∷ s.rumble_right ∷ []

abbrev output_tokens : OutputState → List Token
output_tokens s = tokens output_token (output_values s)

-- Nine digits: every value lies between -10^9 and 10^9, the end points excluded.
abbrev pub Short : ℤ → Type 0
Short z = Below 999999999 z

abbrev pub FitsOutput : OutputState → Type 0
FitsOutput s = All Short (output_values s)

wider : (z : ℤ) → Short z → Below 2147483648 z
wider z h = ground arith

output_line : OutputState → Bytes
output_line s = line_of (text "OUTPUT") (output_tokens s)

module _ (s : OutputState) (f : FitsOutput s) where
  output_tokens-All :
      (Q : Token → Type 0) → ((z : ℤ) → Short z → Q (output_token z)) → All Q (output_tokens s)
  output_tokens-All Q each = tokens-All output_token Short Q each (output_values s) f

  output_written : format_output_line s ≡ output_line s ++ 10 ∷ []
  unfolding format_output_line output_line
  output_written =
      snprintf-fits 64 (text "OUTPUT" ++ spaced (10 ∷ []) (texts_of (output_tokens s))) (
        omega (
          arith,
          length-spaced 10 (10 ∷ []) (output_tokens s)
              (output_tokens-All (AtMost 10) (λ z h. length-print_int 8 z h)),
        ))
      ∙ newline_behind (text "OUTPUT") (output_tokens s)

  output_read : sscanf (output_line s) output_format ≡ fields_of (output_tokens s)
  unfolding output_line
  output_read =
      sscanf-line (text "OUTPUT") (output_tokens s)
        (output_tokens-All ReadsToken (λ z h. Reads-unsigned_int z (wider z h)))

  int_kept : (z : ℤ) → Short z → int32 (pattern z) ≡ z
  int_kept z h = int32-pattern z (wider z h)

  output_kept : output_of (fields_of (output_tokens s)) ≡ some s
  unfolding output_of
  output_kept = ground (
    arith,
    int_kept s.red,
    int_kept s.green,
    int_kept s.blue,
    int_kept s.rumble_left,
    int_kept s.rumble_right,
  )

-- The daemon writes light bar and motors, with values of at most nine digits, negative ones
-- included, as one line with a newline behind it, and `parse_output` reads back the same values from
-- that line.
pub parse_output_round_trip :
    (s : OutputState)
    → FitsOutput s
    → (line : Bytes) × (format_output_line s ≡ line ++ 10 ∷ [])
      × IsLine line
      × (parse_output line ≡ some s)
unfolding parse_output output_line spaced
parse_output_round_trip s f = (
  output_line s,
  output_written s f,
  line_of-IsLine (text "OUTPUT") (output_tokens s) (ground arith)
      (output_tokens-All s f InLine (λ z h. print_int-IsLine z)),
  ap output_of (output_read s f) ∙ output_kept s f,
)

abbrev number_token : ℕ → Token
number_token n = (unsigned, print 10 n, bits n)

abbrev window_token : ℕ → Token
window_token n = (unsigned_long_long, print 10 n, bits n)

abbrev pub timing_numbers : TimingStats → List ℕ
timing_numbers t =
    t.interval_mean_us ∷ t.interval_min_us ∷ t.interval_max_us ∷ t.latency_mean_us
    ∷ t.latency_max_us ∷ []

abbrev timing_tokens : TimingStats → List Token
timing_tokens t =
    number_token t.reports ∷ window_token t.window_us ∷ tokens number_token (timing_numbers t)

abbrev pub Is32 : ℕ → Type 0
Is32 n = n < 2 ^ 32

-- The widths of the struct's members.
abbrev pub FitsTiming : TimingStats → Type 0
FitsTiming t = Is32 t.reports × (t.window_us < 2 ^ 64) × All Is32 (timing_numbers t)

abbrev pub format_timing : TimingStats → Bytes
format_timing t =
    format_timing_line t.reports t.window_us t.interval_mean_us t.interval_min_us t.interval_max_us
      t.latency_mean_us t.latency_max_us

timing_line : TimingStats → Bytes
timing_line t = line_of (text "TIMING") (timing_tokens t)

module _ (t : TimingStats) (f : FitsTiming t) where
  number_tokens-All :
      (Q : Token → Type 0)
      → ((n : ℕ) → Is32 n → Q (number_token n))
      → All Q (tokens number_token (timing_numbers t))
  number_tokens-All Q each = tokens-All number_token Is32 Q each (timing_numbers t) f.2

  timing_written : format_timing t ≡ timing_line t ++ 10 ∷ []
  unfolding format_timing_line timing_line spaced
  timing_written =
      let rest = spaced (10 ∷ []) (texts_of (tokens number_token (timing_numbers t))) in
      snprintf-fits 128 (text "TIMING" ++ spaced (10 ∷ []) (texts_of (timing_tokens t))) (
        omega (
          arith,
          length-append (print 10 t.reports) (32 ∷ (print 10 t.window_us ++ rest)),
          length-append (print 10 t.window_us) rest,
          length-print 9 t.reports (omega (arith, f.0)),
          length-print 19 t.window_us (omega (arith, f.1)),
          length-spaced 10 (10 ∷ []) (tokens number_token (timing_numbers t))
              (number_tokens-All (AtMost 10) (λ n h. length-print 9 n (omega arith))),
        ))
      ∙ newline_behind (text "TIMING") (timing_tokens t)

  timing_read : sscanf (timing_line t) timing_format ≡ fields_of (timing_tokens t)
  unfolding timing_line
  timing_read = sscanf-line (text "TIMING") (timing_tokens t) (
    Reads-unsigned t.reports f.0,
    (
      Reads-unsigned_long_long t.window_us f.1,
      number_tokens-All ReadsToken (λ n h. Reads-unsigned n h),
    ),
  )

-- The daemon writes timing numbers of their widths as one line with a newline behind it, and
-- `parse_timing` reads back the same numbers from that line.
pub parse_timing_round_trip :
    (t : TimingStats)
    → FitsTiming t
    → (line : Bytes) × (format_timing t ≡ line ++ 10 ∷ [])
      × IsLine line
      × (parse_timing line ≡ some t)
unfolding parse_timing timing_of timing_line spaced
parse_timing_round_trip t f = (
  timing_line t,
  timing_written t f,
  line_of-IsLine (text "TIMING") (timing_tokens t) (ground arith) (
    print-IsLine t.reports,
    (print-IsLine t.window_us, number_tokens-All t f InLine (λ n h. print-IsLine n)),
  ),
  ap timing_of (timing_read t f),
)
