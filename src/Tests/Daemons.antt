-- ===== src/Tests/Daemons.antt =====
-- The theorems at concrete inputs: the daemon's connections and commands, and the client's lines.
use ds4_translator.Base.{◌+◌, ◌*◌, ◌≡◌, refl, true, false, none, some, [], ◌∷◌}
use ds4_translator.Base.Text.{text}
use ds4_translator.Config.{Settings}
use ds4_translator.Daemon.{Daemon, bind, unbind, second}
use ds4_translator.Daemon.Coherent.{Coherent}
use ds4_translator.Daemon.Coherent.Preserved.{Reachable-Coherent}
use ds4_translator.Daemon.Applied.{Applied, apply_type_change_complete}
use ds4_translator.Daemon.Cable.{on_cable, LetsGo, bluetooth_comes_back}
use ds4_translator.Daemon.Changes.{apply_type_change}
use ds4_translator.Daemon.Commands
use ds4_translator.Daemon.Commands.{Command, parse_command, parse_unsigned_token}
use ds4_translator.Daemon.Execute.Run.{Answers, execute, on_command}
use ds4_translator.Daemon.Grace.{Outlives, Reused, grace_period}
use ds4_translator.Daemon.Parting.{parted}
use ds4_translator.Daemon.Physical.{on_physical_dropped, on_grace_check}
use ds4_translator.Daemon.Reconnect.{reconnect_reuses, reconnect_leaks}
use ds4_translator.Daemon.Requests.{is_done, execute_refused}
use ds4_translator.Daemon.Scan.{World, top_of_loop, usb_upgrade}
use ds4_translator.Daemon.Steps.{initial, started, stepped, commanded, scanned}
use ds4_translator.Daemon.Virtual.{Creation, vdev_configured}
use ds4_translator.Emulation.{ds4, none as none_type, legacy, uhid, controller_type_emulates}

abbrev saved : Settings
saved = record {
  target_type = ds4;
  backend_for_ds4 = uhid;
  backend_for_dualsense = uhid;
  hide_method = legacy;
  name_ds4 = [];
  name_dualsense = [];
}

abbrev asleep : Daemon
asleep = initial saved uhid false

-- A wired controller whose virtual device the host uses.
abbrev playing : Daemon
playing = record asleep {
  phy_fd = some 4;
  phy_name = text "hidraw3";
  uhid_fd = some 9;
  uhid_handles = 1;
  device_open = true;
}

-- The same before the host has opened the device.
abbrev unopened : Daemon
unopened = record playing { device_open = false }

abbrev wireless : Daemon
wireless = record playing { is_bluetooth = true }

abbrev granted : Creation
granted = record { functionfs_ok = true; uhid_open = some 11; uhid_write_ok = true }

abbrev world : World
world = record {
  bus_scan = [];
  scan_name = text "hidraw5";
  scan_bluetooth = false;
  fallback_name = [];
  fallback_bluetooth = false;
  raw_open = some 7;
  bpf_open = none;
  unbind_ok = true;
  usb_open = none;
  dup_ok = true;
  creation = granted;
  usb_hid_id = text "0003:054C:09CC.0007";
  bt_hid_id = text "0005:054C:09CC.0006";
}

abbrev answers : Answers
answers = record { creation = granted; monitor_ok = true; dup_ok = true }

Reachable-Coherent_example :
    Coherent (top_of_loop 5 world (on_command answers (text "release-physical\n") asleep).0)
Reachable-Coherent_example =
    Reachable-Coherent saved uhid false
      (top_of_loop 5 world (on_command answers (text "release-physical\n") asleep).0)
      (stepped (stepped started (commanded answers (text "release-physical\n") asleep))
        (scanned 5 world (on_command answers (text "release-physical\n") asleep).0))

playing-emulates : controller_type_emulates ds4 ≡ true
unfolding controller_type_emulates
playing-emulates = refl

playing-configured : vdev_configured playing ≡ true
unfolding vdev_configured
playing-configured = refl

grace_period_example :
    Outlives
      (200 * second)
      playing
      (on_grace_check (second + 200 * second) (on_physical_dropped second playing))
grace_period_example =
    grace_period second (200 * second) playing playing-emulates playing-configured

reconnect_reuses_example : Reused 7 playing (top_of_loop 20 world (on_physical_dropped 10 playing))
reconnect_reuses_example =
    reconnect_reuses 10 20 7 world playing playing-emulates playing-configured refl refl refl refl
      refl

reconnect_leaks_example :
    ((top_of_loop 20 world (on_physical_dropped 10 unopened)).uhid_fd ≡ some 11)
    × ((top_of_loop 20 world (on_physical_dropped 10 unopened)).uhid_handles ≡ 2)
reconnect_leaks_example =
    reconnect_leaks 10 20 7 11 9 world unopened playing-emulates refl refl refl refl refl refl refl
      refl refl refl refl

bluetooth_comes_back_example :
    ((usb_upgrade 10 world wireless).effects
      ≡ unbind (text "0005:054C:09CC.0006") ∷ bind (text "0003:054C:09CC.0007") ∷ [])
    × ((on_cable 10 20 30 world world wireless).suppressed_bt_hid_id ≡ text "0005:054C:09CC.0006")
    × ((on_physical_dropped 40 (on_cable 10 20 30 world world wireless)).suppressed_bt_hid_id ≡ [])
    × LetsGo
        (text "0005:054C:09CC.0006")
        (on_cable 10 20 30 world world wireless)
        (on_physical_dropped 40 (on_cable 10 20 30 world world wireless))
bluetooth_comes_back_example =
    bluetooth_comes_back 10 20 30 40 7 world world wireless refl refl refl refl refl refl refl refl
      refl refl

identify_refused : is_done (execute answers Commands.identify asleep).1 ≡ false
unfolding execute
identify_refused = refl

execute_refused_example : (execute answers Commands.identify asleep).0 ≡ asleep
execute_refused_example = execute_refused answers Commands.identify asleep refl identify_refused

-- The wireless controller with `set-type none` asked for.
abbrev retiring : Daemon
retiring = record wireless {
  type_change_requested = true;
  pending_type_change = none_type;
  suppressed_bt_hid_id = text "0005:054C:09CC.0006";
}

apply_type_change_complete_example :
    Applied none_type retiring.pending_backend_change granted
      (parted retiring)
      (apply_type_change granted retiring)
apply_type_change_complete_example = apply_type_change_complete granted retiring refl
