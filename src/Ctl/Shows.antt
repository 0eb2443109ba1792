-- ===== src/Ctl/Shows.antt =====
-- From the daemon to the terminal: what one tick sends is what the live monitor then shows.
use ds4_translator.Base.{
  ℕ, true, false, ◌≡◌, refl, ap, ◌∙◌, some, [], ◌∷◌, ◌++◌, Bytes, append_assoc, arith, ◌==◌,
  Bool-cases, inl, inr,
}
use ds4_translator.Base.Text.{text, starts_with}
use ds4_translator.Base.Scanf.Fits.{IsLine}
use ds4_translator.Client.Lines.{
  OutputState, TimingStats, parse_output, parse_timing, parse_note, format_output_line,
}
use ds4_translator.Client.Lines.Numbers.{
  FitsOutput, FitsTiming, parse_output_round_trip, parse_timing_round_trip, format_timing,
}
use ds4_translator.Client.State.{InputState, parse_state}
use ds4_translator.Client.Stream.{drained, drained-line}
use ds4_translator.Ctl.Monitor.{TestState, on_line, show_state, show_timing}

output_prefix :
    (line : Bytes) (s : OutputState)
    → parse_output line ≡ some s
    → starts_with (text "OUTPUT ") line ≡ true
unfolding parse_output
output_prefix line s h = elim (Bool-cases (starts_with (text "OUTPUT ") line)) [
  | inl e ↦ e
  | inr e ↦ absurd (ground (arith, rw e at h))
]

state_prefix :
    (line : Bytes) (s : InputState)
    → parse_state line ≡ some s
    → starts_with (text "STATE ") line ≡ true
unfolding parse_state
state_prefix line s h = elim (Bool-cases (starts_with (text "STATE ") line)) [
  | inl e ↦ e
  | inr e ↦ absurd (ground (arith, rw e at h))
]

timing_prefix :
    (line : Bytes) (s : TimingStats)
    → parse_timing line ≡ some s
    → starts_with (text "TIMING ") line ≡ true
unfolding parse_timing
timing_prefix line s h = elim (Bool-cases (starts_with (text "TIMING ") line)) [
  | inl e ↦ e
  | inr e ↦ absurd (ground (arith, rw e at h))
]

-- A line of output changes nothing in this view.
output_unseen :
    (stamp line : Bytes) (st : TestState)
    → starts_with (text "OUTPUT ") line ≡ true
    → on_line stamp line st ≡ st
unfolding on_line starts_with parse_timing parse_note
output_unseen stamp [] st h = absurd (ground arith)
output_unseen stamp (a ∷ []) st h = absurd (ground arith)
output_unseen stamp (a ∷ b ∷ line) st h = ground arith

-- A line that begins with the first byte of one name does not begin with another's.
module _ (c p : ℕ) (ps qs : Bytes) (differs : (c == p) ≡ false) where
  other_front :
      (line : Bytes) → starts_with (c ∷ qs) line ≡ true → starts_with (p ∷ ps) line ≡ false
  unfolding starts_with
  other_front [] f = absurd (ground arith)
  other_front (x ∷ line) f = ground arith

state_seen :
    (stamp line : Bytes) (s : InputState) (st : TestState)
    → parse_state line ≡ some s
    → on_line stamp line st ≡ record st { have_state = true; input = s }
unfolding on_line
state_seen stamp line s st h =
    let front = state_prefix line s h in
    rw
      (
        other_front 83 79 (text "K:") (text "TATE ") refl line front,
        other_front 83 67 (text "AVEAT ") (text "TATE ") refl line front,
        front,
      )
      refl
    ∙ ap (λ parsed. show_state parsed st) h

timing_seen :
    (stamp line : Bytes) (s : TimingStats) (st : TestState)
    → parse_timing line ≡ some s
    → on_line stamp line st ≡ record st { timing = s; have_timing = true }
unfolding on_line
timing_seen stamp line s st h =
    let front = timing_prefix line s h in
    rw
      (
        other_front 84 79 (text "K:") (text "IMING ") refl line front,
        other_front 84 67 (text "AVEAT ") (text "IMING ") refl line front,
        other_front 84 83 (text "TATE ") (text "IMING ") refl line front,
      )
      refl
    ∙ ap (λ timing. show_timing stamp line timing st) h

-- What a whole stream of three kinds of lines shows.
module _ (stamp : Bytes) where
  unfoldable pub shown : Bytes → TestState → TestState × Bytes
  shown s st = drained (on_line stamp) s st

  pub state_shown :
      (l line rest : Bytes) (s : InputState) (st : TestState)
      → l ≡ line ++ 10 ∷ []
      → IsLine line
      → parse_state line ≡ some s
      → shown (l ++ rest) st ≡ shown rest (record st { have_state = true; input = s })
  unfolding shown
  state_shown l line rest s st e one p =
      ap (λ u. shown (u ++ rest) st) e
      ∙ ap (λ u. shown u st) (append_assoc line (10 ∷ []) rest)
      ∙ drained-line (on_line stamp) line rest st one
      ∙ ap (shown rest) (state_seen stamp line s st p)

  pub output_shown :
      (rest : Bytes) (s : OutputState) (st : TestState)
      → FitsOutput s
      → shown (format_output_line s ++ rest) st ≡ shown rest st
  unfolding shown
  output_shown rest s st f =
      let (line, e, one, p) = parse_output_round_trip s f in
      ap (λ u. shown (u ++ rest) st) e
      ∙ ap (λ u. shown u st) (append_assoc line (10 ∷ []) rest)
      ∙ drained-line (on_line stamp) line rest st one
      ∙ ap (shown rest) (output_unseen stamp line st (output_prefix line s p))

  pub timing_shown :
      (rest : Bytes) (s : TimingStats) (st : TestState)
      → FitsTiming s
      → shown (format_timing s ++ rest) st
        ≡ shown rest (record st { timing = s; have_timing = true })
  unfolding shown
  timing_shown rest s st f =
      let (line, e, one, p) = parse_timing_round_trip s f in
      ap (λ u. shown (u ++ rest) st) e
      ∙ ap (λ u. shown u st) (append_assoc line (10 ∷ []) rest)
      ∙ drained-line (on_line stamp) line rest st one
      ∙ ap (shown rest) (timing_seen stamp line s st p)
