-- ===== src/HidId/Nodes.antt =====
-- The scans for a physical controller, without the daemon's own virtual one: `find_physical_ds4`,
-- `is_own_virtual_hidraw` and `find_usb_ds4_hid_id` of src/main.cpp, and `hid_bus_scan_existing` of
-- src/hid-unbind-detect.cpp. The entries of a directory come in the order the kernel gives them.
use ds4_translator.Base.{
  ℕ, Bool, true, false, not, ◌&&◌, ◌||◌, Option, none, some, List, [], ◌∷◌, Bytes, ◌==◌,
  if◌then◌else◌,
}
use ds4_translator.Base.Text.{text, starts_with, contains, empty}

abbrev pub dummy_hcd : Bytes
dummy_hcd = text "dummy_hcd"

abbrev pub virtual_uhid : Bytes
virtual_uhid = text "/devices/virtual/misc/uhid/"

-- `struct hidraw_devinfo`
pub record HidrawDevinfo : Type 0 where
  pub bustype : ℕ
  pub vendor : ℕ
  pub product : ℕ

-- An entry of /dev: whether it can be opened, what the ioctl says, and where `device` leads to.
pub record DevEntry : Type 0 where
  pub name : Bytes
  pub opens : Bool
  pub info : Option HidrawDevinfo
  pub device : Option Bytes

unfoldable pub is_own_virtual_hidraw : Option Bytes → ℕ → Bool
is_own_virtual_hidraw none bustype = false
is_own_virtual_hidraw (some devpath) bustype =
    if contains dummy_hcd devpath
    then true
    else if not (bustype == 0x05) && contains virtual_uhid devpath
    then true
    else false

-- The matches so far: USB, then Bluetooth.
unfoldable pub match_info : DevEntry → HidrawDevinfo → Bytes × Bytes → Bytes × Bytes
unfolding is_own_virtual_hidraw
match_info entry info (usb_match, bt_match) =
    if (info.vendor == 0x054c
      && (info.product == 0x05c4 || info.product == 0x09cc)
      && not (is_own_virtual_hidraw entry.device info.bustype))
    then if info.bustype == 0x05 then (usb_match, entry.name) else (entry.name, bt_match)
    else (usb_match, bt_match)

unfoldable pub match_entry : DevEntry → Bytes × Bytes → Bytes × Bytes
unfolding match_info
match_entry entry matches =
    if starts_with (text "hidraw") entry.name && entry.opens
    then elim entry.info [ none ↦ matches | some info ↦ match_info entry info matches ]
    else matches

unfoldable pub match_entries : List DevEntry → Bytes × Bytes → Bytes × Bytes
unfolding match_entry
match_entries [] matches = matches
match_entries (entry ∷ entries) matches = match_entries entries (match_entry entry matches)

-- The name of the node and whether it is Bluetooth, `none` for the empty name.
unfoldable pub prefer_usb : Bytes × Bytes → Option (Bytes × Bool)
prefer_usb (usb_match, bt_match) =
    if not (empty usb_match)
    then some (usb_match, false)
    else if not (empty bt_match)
    then some (bt_match, true)
    else none

unfoldable pub find_physical_ds4 : List DevEntry → Option (Bytes × Bool)
unfolding match_entries prefer_usb
find_physical_ds4 entries = prefer_usb (match_entries entries ([], []))

-- An entry of /sys/bus/hid/devices, with the path it leads to and whether a driver is bound.
pub record HidDevice : Type 0 where
  pub id : Bytes
  pub devpath : Option Bytes
  pub has_driver : Bool

unfoldable pub is_usb_ds4 : HidDevice → Bool
is_usb_ds4 device = elim device.devpath [
  | none ↦ false
  | some devpath ↦
      (starts_with (text "0003:054C:05C4.") device.id
        || starts_with (text "0003:054C:09CC.") device.id)
      && not (contains dummy_hcd devpath)
      && not (contains virtual_uhid devpath)
]

unfoldable pub find_usb_ds4_hid_id : List HidDevice → Bytes
unfolding is_usb_ds4
find_usb_ds4_hid_id [] = []
find_usb_ds4_hid_id (device ∷ devices) =
    let rest = find_usb_ds4_hid_id devices in if is_usb_ds4 device then device.id else rest

unfoldable pub is_bound_ds4 : HidDevice → Bool
is_bound_ds4 device = elim device.devpath [
  | none ↦ false
  | some devpath ↦
      (starts_with (text "0003:054C:05C4.") device.id
        || starts_with (text "0003:054C:09CC.") device.id
        || starts_with (text "0005:054C:05C4.") device.id
        || starts_with (text "0005:054C:09CC.") device.id)
      && not (contains dummy_hcd devpath)
      && not (starts_with (text "0003:") device.id && contains virtual_uhid devpath)
      && device.has_driver
]

unfoldable pub hid_bus_scan_existing : List HidDevice → Bytes
unfolding is_bound_ds4
hid_bus_scan_existing [] = []
hid_bus_scan_existing (device ∷ devices) =
    let rest = hid_bus_scan_existing devices in if is_bound_ds4 device then device.id else rest
