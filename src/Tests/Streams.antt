-- ===== src/Tests/Streams.antt =====
-- The theorems at concrete inputs: the lines of the live stream and who reads them.
use ds4_translator.Base.{
  ℕ, Bool, true, false, ◌≡◌, refl, some, List, [], ◌∷◌, ◌++◌, Bytes, arith, leb,
}
use ds4_translator.Base.Scanf.{pos, negsuc}
use ds4_translator.Base.Scanf.Fits.{IsLine}
use ds4_translator.Base.Text.{text}
use ds4_translator.Broadcast.{Watch, TestSubscriber, test_broadcast_state, single_payload}
use ds4_translator.Broadcast.Sends.{
  tick, event, join, act_all, WatchCoherent, act_all-Coherent, accepting, refusing, addressed,
  promised, test_broadcast_state_delivers,
}
use ds4_translator.Broadcast.Shown.{reading}
use ds4_translator.Broadcast.Windows.{Happening, report, written, unmeasured}
use ds4_translator.Client.Lines.{OutputState, TimingStats}
use ds4_translator.Client.State.{InputState, parse_state, format_state_line}
use ds4_translator.Client.State.RoundTrip.{received, parse_state_round_trip}
use ds4_translator.Client.Stream.{receive, receive-append}
use ds4_translator.Ctl.Monitor.{TestState, on_line, on_data}
use ds4_translator.Ctl.Tick.{FitsCur, tick_shown}
use ds4_translator.Config.{Settings}
use ds4_translator.Daemon.{Daemon}
use ds4_translator.Daemon.Steps.{initial}
use ds4_translator.Report.{FitsCommon, zero_common}
use ds4_translator.Report.Emit.{Emitter, released_touch}
use ds4_translator.Emulation.{ds4, legacy, uhid, controller_type_emulates}

abbrev lamp : OutputState
lamp = record {
  red = pos 255;
  green = pos 0;
  blue = pos 64;
  rumble_left = negsuc 2;
  rumble_right = pos 7;
}

abbrev numbers : TimingStats
numbers = record {
  reports = 250;
  window_us = 1000120;
  interval_mean_us = 4000;
  interval_min_us = 3990;
  interval_max_us = 4020;
  latency_mean_us = 35;
  latency_max_us = 90;
}

-- Two buttons, the hat to the left, motion of both signs and one finger down.
abbrev held : InputState
held = record {
  source = [];
  lx = 128;
  ly = 0;
  rx = 255;
  ry = 128;
  l2 = 0;
  r2 = 200;
  buttons = 0x1002;
  dpad = 6;
  gyro = record { v0 = negsuc 4; v1 = pos 12; v2 = pos 0 };
  accel = record { v0 = pos 8192; v1 = negsuc 99; v2 = pos 1 };
  touch0 = record { active = true; x = pos 1919; y = pos 17 };
  touch1 = record { active = false; x = pos 0; y = pos 0 };
  has_motion = false;
  has_touch = false;
}

parse_state_round_trip_example :
    (line : Bytes) × (format_state_line (text "PHYSICAL") held ≡ line ++ 10 ∷ [])
    × IsLine line
    × (parse_state line ≡ some (received (text "PHYSICAL") held))
parse_state_round_trip_example =
    parse_state_round_trip (text "PHYSICAL") held
      (record { one_word = ground arith; some_byte = omega arith; at_most_15 = omega arith })
      (record {
        sticks_fit = omega arith;
        buttons_fit = omega arith;
        dpad_fits = omega arith;
        gyro_fits = omega arith;
        accel_fits = omega arith;
        touch0_fits = omega arith;
        touch1_fits = omega arith;
      })

-- Two reports 4 ms apart, the second emitted after 50 us, then another 5 ms later.
abbrev three_reports : List Happening
three_reports =
    report true 1000000
    ∷ report true 5000000
    ∷ written true 5000000 5050000
    ∷ report true 10000000
    ∷ []

abbrev nothing_yet : TestState
nothing_yet = record {
  have_state = false;
  input = held;
  have_timing = false;
  timing = numbers;
  note = [];
  header = [];
  caveats = [];
  events = [];
}

receive-append_example :
    receive (on_line []) (text "NOTE VIRTUAL a" ++ 10 ∷ text "OK") (nothing_yet, [])
    ≡ receive
        (on_line [])
        (text " a" ++ 10 ∷ text "OK")
        (receive (on_line []) (text "NOTE VIRTUAL") (nothing_yet, []))
receive-append_example =
    receive-append (on_line []) (text "NOTE VIRTUAL") (text " a" ++ 10 ∷ text "OK")
      (nothing_yet, [])

abbrev watched_daemon : Daemon
watched_daemon = record (initial saved uhid false) {
  uhid_fd = some 9;
  uhid_handles = 1;
  device_open = true;
}
  where
    saved : Settings
    saved = record {
      target_type = ds4;
      backend_for_ds4 = uhid;
      backend_for_dualsense = uhid;
      hide_method = legacy;
      name_ds4 = [];
      name_dualsense = [];
    }

abbrev emitted : Emitter
emitted = record {
  has_test_subscribers = true;
  last_virtual_common = record zero_common { x = 128; buttons0 = 0x28; buttons2 = 0x01 };
  last_virtual_touch = released_touch;
  last_virtual_valid = true;
  sequence_number = 3;
}

abbrev terminal : TestSubscriber
terminal = record { fd = 12; all = false }

abbrev settings_window : TestSubscriber
settings_window = record { fd = 13; all = true }

abbrev watching : Watch
watching = record {
  test_subscribers = terminal ∷ settings_window ∷ [];
  has_test_subscribers = true;
  test_event_log = [];
  broadcast_output = lamp;
  broadcast_output_valid = false;
  timing = unmeasured 0;
  last_phy_common = zero_common;
  last_phy_touch = released_touch;
  last_phy_valid = false;
}

watching-Coherent : WatchCoherent watching
watching-Coherent = record { flag_agrees = refl; log_bounded = omega arith }

emitted-FitsCommon : FitsCommon emitted.last_virtual_common
emitted-FitsCommon = omega arith

emitted-FitsCur : FitsCur watched_daemon.cur
emitted-FitsCur = omega arith

-- The settings window is gone.
abbrev only_terminal : ℕ → Bool
only_terminal fd = leb fd 12

act_all-Coherent_example : WatchCoherent (
    act_all
      (event only_terminal (text "LED r=1 g=2 b=3")
        ∷ tick only_terminal 2000000000 watched_daemon emitted
        ∷ join only_terminal 14 true watched_daemon
        ∷ [])
      watching)
act_all-Coherent_example =
    act_all-Coherent
      (event only_terminal (text "LED r=1 g=2 b=3")
        ∷ tick only_terminal 2000000000 watched_daemon emitted
        ∷ join only_terminal 14 true watched_daemon
        ∷ [])
      watching watching-Coherent

test_broadcast_state_delivers_example :
    ((test_broadcast_state only_terminal 5 watched_daemon emitted watching).0.test_subscribers
      ≡ accepting only_terminal (terminal ∷ settings_window ∷ []))
    × ((test_broadcast_state only_terminal 5 watched_daemon emitted watching).1.sent
        ≡ addressed
            (promised 5 watched_daemon emitted watching)
            (accepting only_terminal (terminal ∷ settings_window ∷ [])))
    × ((test_broadcast_state only_terminal 5 watched_daemon emitted watching).1.closed
        ≡ refusing only_terminal (terminal ∷ settings_window ∷ []))
test_broadcast_state_delivers_example =
    test_broadcast_state_delivers only_terminal 5 watched_daemon emitted watching

tick_shown_example :
    ((on_data []
        (single_payload 2000000000 watched_daemon emitted watching)
        (nothing_yet, [])).0.have_state
      ≡ true)
    × ((on_data []
          (single_payload 2000000000 watched_daemon emitted watching)
          (nothing_yet, [])).0.input
        ≡ reading (text "VIRTUAL") emitted.last_virtual_common emitted.last_virtual_touch)
    × ((on_data [] (single_payload 2000000000 watched_daemon emitted watching) (nothing_yet, [])).1
        ≡ [])
unfolding controller_type_emulates
tick_shown_example =
    tick_shown [] 2000000000 watched_daemon emitted watching nothing_yet refl refl refl
      emitted-FitsCommon (omega arith) emitted-FitsCur (omega arith) (omega arith)
