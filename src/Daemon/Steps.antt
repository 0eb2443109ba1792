-- ===== src/Daemon/Steps.antt =====
-- src/main.cpp, the daemon as a step relation: each block of the loop's body that changes the state of
-- the daemon, and what the threads of the gadget change, in any order and with any answer of the
-- system. A pass of the loop is a sequence of these steps; the reports of the physical controller pass
-- through it without a change to this state.
use ds4_translator.Base.{ℕ, ◌≡◌, Bool, true, false, none, some, [], ◌++◌, Bytes, is_some, map}
use ds4_translator.Emulation.{BackendType}
use ds4_translator.Config.{Settings}
use ds4_translator.Daemon.{Daemon, send_output}
use ds4_translator.Daemon.Changes.{apply_type_change, apply_name_change}
use ds4_translator.Daemon.Execute.Run.{Answers, on_command}
use ds4_translator.Daemon.Physical.{on_physical_dropped, on_grace_check}
use ds4_translator.Daemon.Scan.{World, top_of_loop}
use ds4_translator.Daemon.Virtual.{Creation}
use ds4_translator.Synth.{neutral}
use ds4_translator.FunctionFs.{FunctionFsDevice}
use ds4_translator.FunctionFs.Outputs.{OutRead, out_round}
use ds4_translator.Uhid.{UhidEvent, on_uhid, output_globals}

-- The host has configured the gadget, or has let go of it.
abbrev pub gadget_configured : Bool → Daemon → Daemon
gadget_configured now_configured d = record d { functionfs_configured = now_configured }

-- A rumble or light bar report on the gadget: what its thread writes to the globals, and sends on.
abbrev pub gadget_output : OutRead → FunctionFsDevice → Daemon → Daemon
gadget_output read dev d =
    let g = out_round (is_some d.phy_fd) read dev (output_globals d) in
    record d {
      cur = g.cur;
      suppress_next_led_update = g.suppress_next_led_update;
      effects = d.effects ++ map (send_output d.is_bluetooth) g.sent;
    }

-- The uevent monitor has seen a controller.
abbrev pub uevent : Bytes → Daemon → Daemon
uevent hid_id d = record d { pending_unbind_hid_id = hid_id }

pub data Step : Daemon → Daemon → Type 0 where
  scanned : (now : ℕ) (w : World) (d : Daemon) → Step d (top_of_loop now w d)
  plugged : (hid_id : Bytes) (d : Daemon) → Step d (uevent hid_id d)
  commanded : (w : Answers) (received : Bytes) (d : Daemon) → Step d (on_command w received d).0
  retyped : (k : Creation) (d : Daemon) → Step d (apply_type_change k d)
  renamed : (k : Creation) (d : Daemon) → Step d (apply_name_change k d)
  -- only a connected descriptor is polled
  dropped : (now fd : ℕ) (d : Daemon) → d.phy_fd ≡ some fd → Step d (on_physical_dropped now d)
  waited : (now : ℕ) (d : Daemon) → Step d (on_grace_check now d)
  -- what the descriptor of the uhid device reports, or gives to be read
  virtual : (fd : ℕ) (e : UhidEvent) (d : Daemon) → d.uhid_fd ≡ some fd → Step d (on_uhid e d).0
  configured : (now_configured : Bool) (d : Daemon) → Step d (gadget_configured now_configured d)
  written :
      (read : OutRead) (dev : FunctionFsDevice) (d : Daemon) → Step d (gadget_output read dev d)

-- The daemon before its first pass, with the settings that it has read.
abbrev pub initial : Settings → BackendType → Bool → Daemon
initial s backend monitor = record {
  target_type = s.target_type;
  backend_type = backend;
  backend_for_ds4 = s.backend_for_ds4;
  backend_for_dualsense = s.backend_for_dualsense;
  name_ds4 = s.name_ds4;
  name_dualsense = s.name_dualsense;
  hide_method = s.hide_method;
  phy_fd = none;
  phy_name = [];
  is_bluetooth = false;
  is_unbind_transport = false;
  is_bpf_transport = false;
  suppressed_bt_hid_id = [];
  pending_unbind_hid_id = [];
  hid_uevent_monitor = monitor;
  last_usb_upgrade_check = 0;
  uhid_fd = none;
  uhid_handles = 0;
  device_open = false;
  functionfs_open = false;
  functionfs_configured = false;
  suppress_next_led_update = true;
  cur = record { motor_left = 0; motor_right = 0; r = 0; g = 0; b = 255 };
  standalone_virtual = false;
  synth_state = neutral;
  ignore_physical = false;
  pending_destroy = false;
  disconnect_time = 0;
  type_change_requested = false;
  pending_type_change = s.target_type;
  backend_change_requested = false;
  pending_backend_change = backend;
  name_change_requested = false;
  effects = [];
}

pub data Reachable (s : Settings) (backend : BackendType) (monitor : Bool) : Daemon → Type 0 where
  started : Reachable s backend monitor (initial s backend monitor)
  stepped :
      {d d' : Daemon} → Reachable s backend monitor d → Step d d' → Reachable s backend monitor d'
