-- ===== src/Ctl/Monitor.antt =====
-- src/ctl.cpp, `run_test_ui`: what the live monitor makes of the lines of the stream.
use ds4_translator.Base.{
  ℕ, Bool, true, false, Option, none, some, List, [], ◌∷◌, ◌++◌, Bytes, length, drop, ltb,
  if◌then◌else◌,
}
use ds4_translator.Base.Text.{text, starts_with}
use ds4_translator.Client.Lines.{TimingStats, parse_timing, parse_note}
use ds4_translator.Client.State.{InputState, parse_state}
use ds4_translator.Client.Stream.{receive}

-- `TestState` with the other locals that the loop shows.
pub record TestState : Type 0 where
  pub have_state : Bool
  pub input : InputState
  pub have_timing : Bool
  pub timing : TimingStats
  pub note : Bytes
  pub header : Bytes
  pub caveats : List Bytes
  pub events : List Bytes

abbrev pub max_events : ℕ
max_events = 12

-- `stamp` is the time of day as `strftime` writes it.
unfoldable pub push_stamped : Bytes → Bytes → List Bytes → List Bytes
push_stamped stamp line events =
    let pushed = events ++ ((text "[" ++ stamp ++ text "] " ++ line) ∷ []) in
    if ltb max_events (length pushed) then drop 1 pushed else pushed

abbrev pub show_state : Option InputState → TestState → TestState
show_state none st = st
show_state (some parsed) st = record st { have_state = true; input = parsed }

abbrev show_event : Bytes → Bytes → TestState → TestState
show_event stamp line st =
    if starts_with (text "EVENT ") line
    then record st { events = push_stamped stamp (drop 6 line) st.events }
    else st

abbrev show_note : Bytes → Bytes → Option (Bytes × Bytes) → TestState → TestState
show_note stamp line none st = show_event stamp line st
show_note stamp line (some (source, note)) st = record st { have_state = false; note = note }

abbrev pub show_timing : Bytes → Bytes → Option TimingStats → TestState → TestState
show_timing stamp line none st = show_note stamp line (parse_note line) st
show_timing stamp line (some timing) st = record st { timing = timing; have_timing = true }

unfoldable pub on_line : Bytes → Bytes → TestState → TestState
unfolding parse_state parse_timing parse_note starts_with push_stamped
on_line stamp line st =
    if starts_with (text "OK:") line
    then record st { header = line }
    else if starts_with (text "CAVEAT ") line
    then record st { caveats = st.caveats ++ (drop 7 line ∷ []) }
    else if starts_with (text "STATE ") line
    then show_state (parse_state line) st
    else show_timing stamp line (parse_timing line) st

-- One read of the socket.
unfoldable pub on_data : Bytes → Bytes → TestState × Bytes → TestState × Bytes
unfolding on_line receive
on_data stamp chunk st = receive (on_line stamp) chunk st
