-- ===== src/Output/Handler.antt =====
-- The `UHID_OUTPUT` case as a whole: what becomes of the remembered output, what is logged for
-- `ds4-ctl test`, and what is sent on to the physical controller.
use ds4_translator.Base.{
  ℕ, Bool, false, not, ◌&&◌, List, [], ◌∷◌, ◌++◌, Bytes, ltb, if◌then◌else◌, length, drop,
}
use ds4_translator.Emulation.{ControllerType}
use ds4_translator.Output.{OutputState, Decoded, decode_output, same_motors, same_led}

-- A line of the event log.
pub data Event : Type 0 where
  led : ℕ → ℕ → ℕ → Event
  rumble : ℕ → ℕ → Event

-- The globals that the case reads and writes, with what it hands on: the reports sent to the
-- physical controller, and the events, the newest last.
pub record OutputGlobals : Type 0 where
  pub cur : OutputState
  pub suppress_next_led_update : Bool
  pub events : List Event
  pub sent : List OutputState

abbrev pub test_event_log_max : ℕ
test_event_log_max = 20

-- `test_log_event`: the ring of the last 20 lines, without the sending to who watches.
unfoldable pub test_log_event : Event → List Event → List Event
test_log_event e log =
    let pushed = log ++ (e ∷ []) in
    if ltb test_event_log_max (length pushed) then drop 1 pushed else pushed

-- The events of a change, the light bar first.
unfoldable pub log_change : OutputState → OutputState → List Event → List Event
log_change old new log =
    let with_led = if same_led new old then log else test_log_event (led new.r new.g new.b) log in
    if same_motors new old
    then with_led
    else test_log_event (rumble new.motor_left new.motor_right) with_led

-- What follows the decoding: `if (update)`, and only where a value differs from the remembered one.
-- `connected` is `phy_fd >= 0`.
unfoldable pub apply_output : Bool → Decoded → OutputGlobals → OutputGlobals
apply_output connected d s =
    if d.update && not (same_motors d.output s.cur && same_led d.output s.cur)
    then record {
      cur = d.output;
      suppress_next_led_update = d.suppress;
      events = log_change s.cur d.output s.events;
      sent = if connected then s.sent ++ (d.output ∷ []) else s.sent;
    }
    else record s { suppress_next_led_update = d.suppress }

abbrev pub start : OutputGlobals → Decoded
start s = record { output = s.cur; update = false; suppress = s.suppress_next_led_update }

unfoldable pub uhid_output : ControllerType → Bool → ℕ → Bytes → OutputGlobals → OutputGlobals
unfolding apply_output
uhid_output type connected size report s =
    apply_output connected (decode_output type size report (start s)) s
