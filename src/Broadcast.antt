-- ===== src/Broadcast.antt =====
-- src/main.cpp, the live stream of `ds4-ctl test` and of the settings window: the subscribers, the
-- event log that new ones are given, and the lines that every tick sends (`test_broadcast_state`).
pub mod Timing
pub mod Windows
pub mod Shown
pub mod Sends
use ds4_translator.Base.{
  ℕ, ◌+◌, ◌*◌, ◌/◌, ◌^◌, ◌-◌, Bool, true, false, not, ◌&&◌, ◌||◌, Option, none, some, List, [], ◌∷◌,
  ◌++◌, Bytes, length, drop, ltb, leb, ◌==◌, bit_or, u8, u32, is_some, if◌then◌else◌,
}
use ds4_translator.Base.Text.{text}
use ds4_translator.Base.Strtoul.{print}
use ds4_translator.Base.Scanf.{ℤ, pos, negsuc, int16}
use ds4_translator.Broadcast.Timing.{Measurement, window_line}
use ds4_translator.Buttons.{decode_buttons, decode_dpad}
use ds4_translator.Client.Lines.{OutputState, format_output_line}
use ds4_translator.Client.State
use ds4_translator.Client.State.{InputState, Three, decode_touch_point, format_state_line}
use ds4_translator.Daemon.{Daemon}
use ds4_translator.Emulation.{
  ControllerType, ds4, dualsense, hidden, none as none_type, BackendType, uhid, functionfs,
  controller_type_emulates, controller_type_config_str, controller_type_name,
}
use ds4_translator.Output
use ds4_translator.Report.{Common, TouchPoint, TouchReport, Touches, Axes}
use ds4_translator.Report.Emit.{Emitter, newest_touch}

pub record TestSubscriber : Type 0 where
  pub fd : ℕ
  pub all : Bool

-- The locals of `main` that the stream keeps.
pub record Watch : Type 0 where
  pub test_subscribers : List TestSubscriber
  pub has_test_subscribers : Bool
  pub test_event_log : List Bytes
  pub broadcast_output : OutputState
  pub broadcast_output_valid : Bool
  pub timing : Measurement
  pub last_phy_common : Common
  pub last_phy_touch : TouchReport
  pub last_phy_valid : Bool

-- What one round of writes leaves: who stays, what was written to whom, and whose descriptor was
-- closed.
pub record Delivery : Type 0 where
  pub kept : List TestSubscriber
  pub sent : List (ℕ × Bytes)
  pub closed : List ℕ

-- `accepts` says whether a write to the descriptor succeeds.
unfoldable pub deliver : (ℕ → Bool) → (TestSubscriber → Bytes) → List TestSubscriber → Delivery
deliver accepts payload [] = record { kept = []; sent = []; closed = [] }
deliver accepts payload (t ∷ ts) =
    let rest = deliver accepts payload ts in
    if accepts t.fd
    then record rest { kept = t ∷ rest.kept; sent = (t.fd, payload t) ∷ rest.sent }
    else record rest { closed = t.fd ∷ rest.closed }

abbrev pub some_left : List TestSubscriber → Bool
some_left [] = false
some_left (t ∷ ts) = true

abbrev pub with_subscribers : List TestSubscriber → Watch → Watch
with_subscribers ts w = record w { test_subscribers = ts; has_test_subscribers = some_left ts }

abbrev pub test_event_log_max : ℕ
test_event_log_max = 20

-- The ring of the last lines.
unfoldable pub push_event : Bytes → List Bytes → List Bytes
push_event line log =
    let pushed = log ++ (line ∷ []) in
    if ltb test_event_log_max (length pushed) then drop 1 pushed else pushed

unfoldable pub event_line : Bytes → Bytes
event_line line = text "EVENT " ++ line ++ 10 ∷ []

-- `test_log_event`
unfoldable pub log_event : (ℕ → Bool) → Bytes → Watch → Watch × Delivery
unfolding deliver push_event event_line
log_event accepts line w =
    let d = deliver accepts (λ t. event_line line) w.test_subscribers in
    (with_subscribers d.kept (record w { test_event_log = push_event line w.test_event_log }), d)

-- `state.gyro[i] = c.gyro[i]`
abbrev pub signed_axes : Axes → Three
signed_axes a = record { v0 = int16 a.first; v1 = int16 a.second; v2 = int16 a.third }

abbrev touch_of : TouchPoint → State.TouchPoint
touch_of p = decode_touch_point p.contact p.x_lo (u8 (bit_or p.x_hi (p.y_lo * 2 ^ 4))) p.y_hi

-- The state that the lambda `state_line` fills.
unfoldable pub shown_state : Common → TouchReport → InputState
unfolding decode_buttons decode_dpad decode_touch_point
shown_state c t = record {
  source = [];
  lx = c.x;
  ly = c.y;
  rx = c.rx;
  ry = c.ry;
  l2 = c.z;
  r2 = c.rz;
  buttons = decode_buttons c.buttons0 c.buttons1 c.buttons2;
  dpad = decode_dpad c.buttons0;
  gyro = signed_axes c.gyro;
  accel = signed_axes c.accel;
  touch0 = touch_of t.point0;
  touch1 = touch_of t.point1;
  has_motion = false;
  has_touch = false;
}

unfoldable pub state_line : Bytes → Common → TouchReport → Bytes
unfolding shown_state format_state_line
state_line source c t = format_state_line source (shown_state c t)

abbrev pub vdev_exists : Daemon → Bool
vdev_exists d = elim (d.backend_type) [ functionfs ↦ d.functionfs_open | uhid ↦ is_some d.uhid_fd ]

unfoldable pub virtual_line : Daemon → Emitter → Bytes
unfolding state_line controller_type_emulates controller_type_config_str
virtual_line d e =
    if controller_type_emulates d.target_type
    then if vdev_exists d && e.last_virtual_valid
      then state_line (text "VIRTUAL") e.last_virtual_common e.last_virtual_touch
      else text
          "NOTE VIRTUAL No active virtual controller yet (connect the physical controller, or run 'ds4-ctl create-virtual')."
        ++ 10 ∷ []
    else text "NOTE VIRTUAL Emulation is off (type="
      ++ controller_type_config_str d.target_type
      ++ text "); the physical controller is passed through instead."
      ++ 10 ∷ []

unfoldable pub physical_line : Daemon → Watch → Bytes
unfolding state_line
physical_line d w =
    if w.last_phy_valid
    then state_line (text "PHYSICAL") w.last_phy_common w.last_phy_touch
    else if not (is_some d.phy_fd)
    then text "NOTE PHYSICAL No physical controller connected." ++ 10 ∷ []
    else text "NOTE PHYSICAL No reports from the physical controller yet." ++ 10 ∷ []

unfoldable pub active_line : Daemon → Emitter → Watch → Bytes
unfolding virtual_line physical_line controller_type_emulates
active_line d e w =
    if controller_type_emulates d.target_type then virtual_line d e else physical_line d w

-- The globals `cur_r` to `cur_motor_right` as the client's structure.
abbrev pub current_output : Output.OutputState → OutputState
current_output s = record {
  red = pos s.r;
  green = pos s.g;
  blue = pos s.b;
  rumble_left = pos s.motor_left;
  rumble_right = pos s.motor_right;
}

-- `==` on `int`
abbrev same_int : ℤ → ℤ → Bool
same_int (pos a) (pos b) = a == b
same_int (negsuc a) (negsuc b) = a == b
same_int _ _ = false

abbrev pub same_output : OutputState → OutputState → Bool
same_output a b =
    same_int a.red b.red
    && same_int a.green b.green
    && same_int a.blue b.blue
    && same_int a.rumble_left b.rumble_left
    && same_int a.rumble_right b.rumble_right

-- The line of light bar and motors, sent on change.
unfoldable pub output_line : Output.OutputState → Watch → Watch × Bytes
unfolding format_output_line
output_line cur w =
    let output = current_output cur in
    if not w.broadcast_output_valid || not (same_output output w.broadcast_output)
    then (
      record w { broadcast_output = output; broadcast_output_valid = true },
      format_output_line output,
    )
    else (w, [])

abbrev nobody : Delivery
nobody = record { kept = []; sent = []; closed = [] }

abbrev pub payload : Bytes → Bytes → TestSubscriber → Bytes
payload both single t = if t.all then both else single

-- What follows the lines of state in every payload.
unfoldable pub changes : ℕ → Daemon → Watch → Bytes
unfolding output_line window_line
changes now d w = (output_line d.cur w).1 ++ (window_line now w.timing).1

unfoldable pub both_lines : ℕ → Daemon → Emitter → Watch → Bytes
unfolding virtual_line physical_line changes
both_lines now d e w = (virtual_line d e ++ physical_line d w) ++ changes now d w

unfoldable pub single_payload : ℕ → Daemon → Emitter → Watch → Bytes
unfolding active_line changes
single_payload now d e w = active_line d e w ++ changes now d w

-- Nothing at all is done where nobody watches.
unfoldable pub broadcast_to :
    (ℕ → Bool) → ℕ → Daemon → Emitter → Watch → List TestSubscriber → Watch × Delivery
unfolding both_lines single_payload output_line deliver window_line
broadcast_to accepts now d e w [] = (w, nobody)
broadcast_to accepts now d e w (t ∷ ts) =
    let delivery =
      deliver accepts (payload (both_lines now d e w) (single_payload now d e w)) (t ∷ ts) in
    (
      with_subscribers delivery.kept
          (record (output_line d.cur w).0 { timing = (window_line now w.timing).0 }),
      delivery,
    )

-- `test_broadcast_state`
unfoldable pub test_broadcast_state : (ℕ → Bool) → ℕ → Daemon → Emitter → Watch → Watch × Delivery
unfolding broadcast_to
test_broadcast_state accepts now d e w = broadcast_to accepts now d e w w.test_subscribers

-- A physical report, where somebody watches: `common` and the newest of its touch reports.
unfoldable pub remember_physical : Common → ℕ → Touches → Watch → Watch
unfolding newest_touch
remember_physical common num_touch reps w =
    if w.has_test_subscribers
    then record w {
      last_phy_common = common;
      last_phy_touch = newest_touch num_touch reps;
      last_phy_valid = true;
    }
    else w

-- The answer to `test` and `test all`, before the events.
unfoldable pub test_header : Daemon → Bytes
unfolding controller_type_name controller_type_emulates format_output_line
test_header d =
    text "OK: Test monitor active. Type="
    ++ controller_type_name d.target_type
    ++ (elim (d.target_type) [
      | hidden ↦
          text " Source=Physical controller (hidden)"
          ++ 10
            ∷ text
                "CAVEAT Physical controller is hidden -- no other app can reach it to send LED/rumble commands."
          ++ 10 ∷ []
      | none_type ↦
          text " Source=Physical controller (full passthrough)"
          ++ 10
            ∷ text
                "CAVEAT type=none is full passthrough -- LED/rumble commands other apps send directly"
          ++ 10 ∷ text "CAVEAT to the physical controller can't be observed here."
          ++ 10 ∷ []
      | _ ↦ text " Source=Virtual controller" ++ 10 ∷ []
    ])
    ++ format_output_line (current_output d.cur)

-- The writes of the log to a new subscriber end at the first that fails; `works i` is the i-th.
unfoldable pub replay : (ℕ → Bool) → ℕ → List Bytes → List Bytes
unfolding event_line
replay works i [] = []
replay works i (ev ∷ evs) =
    let rest = replay works (i + 1) evs in if works i then event_line ev ∷ rest else []

-- What is written to the client, and whether its descriptor is kept.
unfoldable pub subscribe : (ℕ → Bool) → ℕ → Bool → Daemon → Watch → Watch × List Bytes × Bool
unfolding test_header replay
subscribe works fd all d w =
    if works 0
    then (
      record w {
        test_subscribers = w.test_subscribers ++ (record { fd = fd; all = all } ∷ []);
        has_test_subscribers = true;
      },
      test_header d ∷ replay works 1 w.test_event_log,
      true,
    )
    else (w, [], false)
