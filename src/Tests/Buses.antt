-- ===== src/Tests/Buses.antt =====
-- The theorems at concrete inputs: devices on the HID bus.
use ds4_translator.Base.{
  true, ◌≡◌, refl, some, List, [], ◌∷◌, ◌++◌, Bytes, All, all, not, ◌==◌, ◌&&◌, none, arith,
  if◌then◌else◌,
}
use ds4_translator.Base.Text.{starts_with, contains, text, starts_with, contains, ◌===◌}
use ds4_translator.HidId.Nodes.{
  HidDevice, is_bound_ds4, DevEntry, find_physical_ds4, hid_bus_scan_existing,
}
use ds4_translator.HidId.Physical.{Explains, find_physical_ds4-Explains}
use ds4_translator.HidId.Uevent.{accept, hid_uevent_monitor_read}
use ds4_translator.HidId.Events.{
  IsKey, IsValue, IsField, datagram, event_of, no_event, is_hid_field, event_round_trip,
}
use ds4_translator.HidId.Agree.{bus_id, found, uevent_agrees}

-- The daemon's own device, a mouse's node and a controller over Bluetooth.
abbrev entries : List DevEntry
entries =
    record {
      name = text "hidraw0";
      opens = true;
      info = some (record { bustype = 3; vendor = 0x054c; product = 0x05c4 });
      device = some (text "/sys/devices/virtual/misc/uhid/0003");
    }
    ∷ record {
      name = text "hidraw1";
      opens = true;
      info = some (record { bustype = 3; vendor = 0x046d; product = 0xc077 });
      device = some (text "/sys/devices/pci");
    }
    ∷ record {
      name = text "hidraw2";
      opens = true;
      info = some (record { bustype = 5; vendor = 0x054c; product = 0x09cc });
      device = some (text "/sys/devices/virtual/misc/uhid/0005");
    }
    ∷ []

find_physical_ds4-Explains_example : Explains entries (find_physical_ds4 entries)
find_physical_ds4-Explains_example = find_physical_ds4-Explains entries

find_physical_ds4_bluetooth : find_physical_ds4 entries ≡ some (text "hidraw2", true)
unfolding find_physical_ds4 starts_with contains
find_physical_ds4_bluetooth = refl

to-IsValue : (s : Bytes) → all (λ c. not (c == 0)) s ≡ true → IsValue s
to-IsValue [] h = tt
to-IsValue (c ∷ s) h = ((λ e. absurd (ground arith)), to-IsValue s (ground arith))

to-IsKey : (s : Bytes) → all (λ c. not (c == 0) && not (c == 61)) s ≡ true → IsKey s
to-IsKey [] h = tt
to-IsKey (c ∷ s) h =
    (((λ e. absurd (ground arith)), (λ e. absurd (ground arith))), to-IsKey s (ground arith))

abbrev dir : Bytes
dir = text "/devices/pci0000:00/usb1"

abbrev fields : List (Bytes × Bytes)
fields =
    (text "ACTION", text "add")
    ∷ (text "DEVPATH", dir ++ 47 ∷ bus_id true true (text "0042"))
    ∷ (text "SUBSYSTEM", text "hid")
    ∷ (text "DRIVER", text "playstation")
    ∷ (text "HID_ID", text "0003:0000054C:000005C4")
    ∷ []

fields-IsField : All IsField fields
fields-IsField = (
  (to-IsKey (text "ACTION") refl, to-IsValue (text "add") refl),
  (
    (to-IsKey (text "DEVPATH") refl, to-IsValue (dir ++ 47 ∷ bus_id true true (text "0042")) refl),
    (
      (to-IsKey (text "SUBSYSTEM") refl, to-IsValue (text "hid") refl),
      (
        (to-IsKey (text "DRIVER") refl, to-IsValue (text "playstation") refl),
        ((to-IsKey (text "HID_ID") refl, to-IsValue (text "0003:0000054C:000005C4") refl), tt),
      ),
    ),
  ),
)

event_round_trip_example :
    hid_uevent_monitor_read (datagram (text "add@/devices") fields)
    ≡ (if all is_hid_field fields then accept (event_of fields no_event) else none)
event_round_trip_example =
    event_round_trip (text "add@/devices") fields (to-IsValue (text "add@/devices") refl)
      fields-IsField

-- A mouse.
abbrev other_device : HidDevice
other_device = record {
  id = text "0003:046D:C077.0001";
  devpath = some (text "/sys/devices/usb1/0003:046D:C077.0001");
  has_driver = true;
}

uevent_agrees_example :
    hid_uevent_monitor_read (datagram (text "add@/devices") fields)
    ≡ found (
        hid_bus_scan_existing (
          other_device
          ∷ record {
            id = bus_id true true (text "0042");
            devpath = some (text "/sys" ++ (dir ++ 47 ∷ bus_id true true (text "0042")));
            has_driver = true;
          }
          ∷ []))
unfolding ◌===◌ is_bound_ds4 starts_with contains
uevent_agrees_example =
    uevent_agrees true true (text "add@/devices") dir (text "0042") fields (other_device ∷ []) []
      (to-IsValue (text "add@/devices") refl) fields-IsField
      (
        (λ e. absurd (omega arith)),
        (
          (λ e. absurd (omega arith)),
          ((λ e. absurd (omega arith)), ((λ e. absurd (omega arith)), tt)),
        ),
      )
      refl refl refl refl (refl, tt) tt
