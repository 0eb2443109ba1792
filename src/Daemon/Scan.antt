-- ===== src/Daemon/Scan.antt =====
-- src/main.cpp, the top of the loop: the scan for a physical controller and its connection, and the
-- change from Bluetooth to a USB connection of the same controller.
use ds4_translator.Base.{
  ℕ, ◌-◌, Bool, true, false, not, ◌&&◌, ◌||◌, Option, none, some, [], Bytes, is_some, leb, ◌==◌,
  if◌then◌else◌,
}
use ds4_translator.Base.Text.{text, empty, starts_with}
use ds4_translator.Emulation.{
  is_none, is_hidden, is_unbind, controller_type_emulates, controller_type_hides_physical,
}
use ds4_translator.HidId.{parse_hid_id}
use ds4_translator.Daemon.{
  Daemon, emit, open_raw, start_transport, restore_led, bind, unbind, usb_upgrade_check_interval,
}
use ds4_translator.Daemon.Virtual.{Creation, create_virtual_device}
use ds4_translator.Daemon.Physical.{drop_physical, start_grace}

-- What the system answers during one scan. A name is empty where nothing was found.
pub record World : Type 0 where
  -- `hid_bus_scan_existing`
  pub bus_scan : Bytes
  -- `find_physical_ds4`, and its second call after a failed unbind
  pub scan_name : Bytes
  pub scan_bluetooth : Bool
  pub fallback_name : Bytes
  pub fallback_bluetooth : Bool
  -- `open` of the hidraw node
  pub raw_open : Option ℕ
  -- `hid_bpf_transport_open`, `hid_id_unbind`, `usb_hid_transport_open`
  pub bpf_open : Option ℕ
  pub unbind_ok : Bool
  pub usb_open : Option ℕ
  pub dup_ok : Bool
  pub creation : Creation
  -- `find_usb_ds4_hid_id`, and `hidraw_to_hid_id` of the connection's name
  pub usb_hid_id : Bytes
  pub bt_hid_id : Bytes

-- `open_and_hide_physical`; only TYPE_NONE leaves the node alone.
unfoldable pub open_and_hide_physical : World → Daemon → Daemon
open_and_hide_physical w d = elim w.raw_open [
  | none ↦ record d { phy_fd = none }
  | some fd ↦
      emit (open_raw d.phy_name (not (is_none d.target_type))) (record d { phy_fd = some fd })
]

-- A USB device is taken from its driver; a failed libusb transport binds it again by itself.
unfoldable pub open_usb : World → Daemon → Daemon
open_usb w d = if not w.unbind_ok then record d { phy_fd = none } else elim w.usb_open [
  | none ↦ record d { phy_fd = none }
  | some fd ↦ record d { phy_fd = some fd; is_unbind_transport = true }
]

unfoldable pub open_bpf : World → Daemon → Daemon
open_bpf w d = elim w.bpf_open [
  | none ↦ record d { phy_fd = none }
  | some fd ↦ record d { phy_fd = some fd; is_bpf_transport = true }
]

-- `open_and_hide_physical_unbind`, by the bus number in the id.
unfoldable pub open_and_hide_physical_unbind : World → Daemon → Daemon
unfolding parse_hid_id open_usb open_bpf
open_and_hide_physical_unbind w d = elim (parse_hid_id d.phy_name) [
  | none ↦ record d { phy_fd = none }
  | some parsed ↦
      if parsed.bus == 0x0005
      then open_bpf w d
      else if not (parsed.bus == 0x0003)
      then record d { phy_fd = none }
      else open_usb w (emit (unbind d.phy_name) d)
]

-- After a failed unbind method the legacy one is tried with what a new scan finds.
unfoldable pub fall_back : World → Daemon → Daemon
unfolding open_and_hide_physical
fall_back w d =
    if is_some d.phy_fd || empty w.fallback_name
    then d
    else open_and_hide_physical w
        (record d { phy_name = w.fallback_name; is_bluetooth = w.fallback_bluetooth })

-- The virtual device for the new connection: `created` and `reused_existing`.
unfoldable pub prepare_virtual : World → Daemon → Daemon × Bool × Bool
unfolding create_virtual_device
prepare_virtual w d =
    if is_none d.target_type || is_hidden d.target_type
    then (d, true, false)
    else if d.pending_destroy
    then (record d { pending_destroy = false }, true, true)
    else (let made = create_virtual_device d.target_type w.creation d in (made.0, made.1, false))

-- What follows a successful `created`.
unfoldable pub start_connection : World → Bool → Daemon → Daemon
unfolding controller_type_emulates
start_connection w reused d =
    let started = if d.is_unbind_transport then emit start_transport d else d in
    let led =
      if controller_type_emulates d.target_type && w.dup_ok
      then emit (restore_led d.is_bluetooth (record d.cur { motor_left = 0; motor_right = 0 }))
          started
      else started in
    if not reused then record led { device_open = false } else led

-- A descriptor was opened, or not.
unfoldable pub finish_connection : World → Daemon → Daemon
unfolding prepare_virtual start_connection drop_physical
finish_connection w d =
    if not (is_some d.phy_fd)
    then record d { phy_name = [] }
    else (let (d', created, reused) = prepare_virtual w d in
        if not created then drop_physical d' else start_connection w reused d')

-- `via_unbind`
unfoldable pub connect_unbind : World → Bytes → Daemon → Daemon
unfolding open_and_hide_physical_unbind fall_back finish_connection
connect_unbind w name d = finish_connection w (
    fall_back w (
      open_and_hide_physical_unbind w
        (record d { phy_name = name; is_bluetooth = starts_with (text "0005:") name })))

unfoldable pub connect_raw : World → Daemon → Daemon
unfolding open_and_hide_physical finish_connection
connect_raw w d =
    if empty w.scan_name
    then d
    else finish_connection w (
        open_and_hide_physical w
          (record d { phy_name = w.scan_name; is_bluetooth = w.scan_bluetooth }))

-- The scan: an id from the uevent monitor first, then one on the HID bus, then a hidraw node.
unfoldable pub auto_scan : World → Daemon → Daemon
unfolding connect_unbind connect_raw controller_type_hides_physical
auto_scan w d =
    if is_unbind d.hide_method && controller_type_hides_physical d.target_type
    then (if not (empty d.pending_unbind_hid_id)
        then connect_unbind w d.pending_unbind_hid_id (record d { pending_unbind_hid_id = [] })
        else if not (empty w.bus_scan)
        then connect_unbind w w.bus_scan d
        else connect_raw w d)
    else connect_raw w d

-- USB has shown up while Bluetooth holds the controller.
unfoldable pub usb_upgrade : ℕ → World → Daemon → Daemon
unfolding drop_physical start_grace
usb_upgrade now w d =
    let bt_hid_id = if d.is_bpf_transport then d.phy_name else w.bt_hid_id in
    if empty w.usb_hid_id || empty bt_hid_id
    then d
    else (let released = if d.is_bpf_transport then start_grace now (drop_physical d) else d in
        record (emit (bind w.usb_hid_id) (emit (unbind bt_hid_id) released)) {
          suppressed_bt_hid_id = bt_hid_id;
        })

-- The first statement of the loop.
unfoldable pub top_of_loop : ℕ → World → Daemon → Daemon
unfolding auto_scan usb_upgrade
top_of_loop now w d =
    if not (is_some d.phy_fd) && not d.standalone_virtual && not d.ignore_physical
    then auto_scan w d
    else if is_some d.phy_fd && d.is_bluetooth && not d.standalone_virtual && not d.ignore_physical
    then (if leb usb_upgrade_check_interval (now - d.last_usb_upgrade_check)
        then usb_upgrade now w (record d { last_usb_upgrade_check = now })
        else d)
    else d
