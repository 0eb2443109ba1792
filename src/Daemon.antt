-- ===== src/Daemon.antt =====
-- src/main.cpp, the state of the daemon: its globals and the locals of `main` that outlive a pass of
-- the loop, and what it does to the world outside.
pub mod Virtual
pub mod Physical
pub mod Scan
pub mod Changes
pub mod Commands
pub mod Execute
pub mod Steps
pub mod Coherent
pub mod Grace
pub mod Parting
pub mod Reconnect
pub mod Cable
pub mod Requests
pub mod Applied
pub mod Tokens
use ds4_translator.Base.{
  ℕ, ◌+◌, ◌*◌, ◌^◌, Bool, true, false, ◌||◌, Option, none, some, List, [], ◌∷◌, ◌++◌, Bytes,
}
use ds4_translator.Config.{Settings}
use ds4_translator.Emulation.{ControllerType, HideMethod, BackendType}
use ds4_translator.Output.{OutputState}
use ds4_translator.Synth.{SyntheticState}

-- How a physical connection was opened: a hidraw node, libusb behind an unbound driver, or HID-BPF.
pub data Transport : Type 0 where
  raw unbound bpf : Transport

-- What the daemon does to the world, in order.
pub data Effect : Type 0 where
  -- `emit_neutral_report` for the type
  neutral : ControllerType → Effect
  -- the report of the standalone controller's state
  synthetic : ControllerType → SyntheticState → Effect
  -- `send_physical_output_report` to the connected controller
  send_output : Bool → OutputState → Effect
  -- the thread that blinks the light bar and ends with the given state
  blink : Bool → OutputState → Effect
  -- a virtual device made by a backend, for a type
  create : BackendType → ControllerType → Effect
  destroy : BackendType → Effect
  -- `open_and_hide_physical`, with whether the node is hidden
  open_raw : Bytes → Bool → Effect
  -- `discard_pending_bt_output`, and the transport's own teardown
  discard_output : Effect
  release : Transport → Effect
  start_transport : Effect
  -- the last colours pushed to the controller that has come back
  restore_led : Bool → OutputState → Effect
  -- `write_hid_driver_sysfs`
  bind : Bytes → Effect
  unbind : Bytes → Effect
  save : Settings → Effect
  -- /run/ds4-translator.none made or removed
  sentinel : Bool → Effect
  udev_trigger : Effect
  -- `rebind_physical_hid_driver`
  rebind : Bytes → Effect

pub record Daemon : Type 0 where
  pub target_type : ControllerType
  pub backend_type : BackendType
  pub backend_for_ds4 : BackendType
  pub backend_for_dualsense : BackendType
  pub name_ds4 : Bytes
  pub name_dualsense : Bytes
  pub hide_method : HideMethod
  -- the physical connection; `none` is -1
  pub phy_fd : Option ℕ
  pub phy_name : Bytes
  pub is_bluetooth : Bool
  pub is_unbind_transport : Bool
  pub is_bpf_transport : Bool
  pub suppressed_bt_hid_id : Bytes
  pub pending_unbind_hid_id : Bytes
  -- `g_hid_uevent_fd >= 0`
  pub hid_uevent_monitor : Bool
  pub last_usb_upgrade_check : ℕ
  -- the virtual device; `uhid_handles` counts the descriptors of /dev/uhid that are open
  pub uhid_fd : Option ℕ
  pub uhid_handles : ℕ
  pub device_open : Bool
  pub functionfs_open : Bool
  pub functionfs_configured : Bool
  pub suppress_next_led_update : Bool
  pub cur : OutputState
  pub standalone_virtual : Bool
  pub synth_state : SyntheticState
  pub ignore_physical : Bool
  pub pending_destroy : Bool
  pub disconnect_time : ℕ
  pub type_change_requested : Bool
  pub pending_type_change : ControllerType
  pub backend_change_requested : Bool
  pub pending_backend_change : BackendType
  pub name_change_requested : Bool
  pub effects : List Effect

abbrev pub emit : Effect → Daemon → Daemon
emit e d = record d { effects = d.effects ++ (e ∷ []) }

-- What `write_config` is given.
abbrev pub settings : ControllerType → Daemon → Settings
settings type d = record {
  target_type = type;
  backend_for_ds4 = d.backend_for_ds4;
  backend_for_dualsense = d.backend_for_dualsense;
  hide_method = d.hide_method;
  name_ds4 = d.name_ds4;
  name_dualsense = d.name_dualsense;
}

-- The clock of the loop counts nanoseconds.
abbrev pub second : ℕ
second = 10 ^ 9

-- `PHYSICAL_DISCONNECT_GRACE`
abbrev pub disconnect_grace : ℕ
disconnect_grace = 300 * second

-- `USB_UPGRADE_CHECK_INTERVAL`
abbrev pub usb_upgrade_check_interval : ℕ
usb_upgrade_check_interval = 2 * second
