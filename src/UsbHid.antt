-- ===== src/UsbHid.antt =====
-- src/usb-hid-transport.cpp, the transport that reads a wired controller through libusb: which device
-- and which interface it takes. What libusb and the file system say is an argument.
pub mod Transport
pub mod Releases
use ds4_translator.Base.{
  ℕ, Bool, true, false, not, ◌&&◌, Option, none, some, List, [], ◌∷◌, ◌++◌, Bytes, bit_and, has,
  ◌==◌, if◌then◌else◌,
}
use ds4_translator.Base.Text.{text, contains}
use ds4_translator.Base.Strtoul.{print}
use ds4_translator.HidId.Nodes.{dummy_hcd}

-- The members of libusb's descriptors that are read.
pub record Endpoint : Type 0 where
  pub address : ℕ
  pub attributes : ℕ

pub record AltSetting : Type 0 where
  pub interface_class : ℕ
  pub interface_number : ℕ
  pub endpoints : List Endpoint

-- A device of libusb's list: its ids, where it is plugged in, the interfaces of its active
-- configuration with their settings (`none` where it cannot be read), and whether it can be opened.
pub record UsbDevice : Type 0 where
  pub vendor : ℕ
  pub product : ℕ
  pub has_descriptor : Bool
  pub bus_number : ℕ
  pub device_address : ℕ
  pub ports : List ℕ
  pub config : Option (List (List AltSetting))
  pub opens : Bool

abbrev pub dotted : List ℕ → Bytes
dotted [] = []
dotted (port ∷ ports) = 46 ∷ (print 10 port ++ dotted ports)

-- The name of the device in /sys/bus/usb/devices.
unfoldable pub usb_devpath : ℕ → ℕ → List ℕ → Bytes
usb_devpath bus port ports = (print 10 bus ++ 45 ∷ print 10 port) ++ dotted ports

-- `canonical` gives the path behind a link, `none` on an error.
unfoldable pub is_own_virtual_usb_device : (Bytes → Option Bytes) → UsbDevice → Bool
unfolding usb_devpath
is_own_virtual_usb_device canonical dev = elim dev.ports [
  | [] ↦ false
  | port ∷ ports ↦
      elim (canonical (text "/sys/bus/usb/devices/" ++ usb_devpath dev.bus_number port ports)) [
        | none ↦ false
        | some resolved ↦ contains dummy_hcd resolved
      ]
]

-- What is found: the interface and its two endpoints, 0 for an endpoint that is not there.
pub record HidInterface : Type 0 where
  pub interface_number : ℕ
  pub ep_in : ℕ
  pub ep_out : ℕ

-- The last interrupt endpoint of each direction.
unfoldable pub scan_endpoints : List Endpoint → ℕ × ℕ → ℕ × ℕ
scan_endpoints [] eps = eps
scan_endpoints (ep ∷ rest) (ep_in, ep_out) = scan_endpoints rest (
    if not (bit_and ep.attributes 0x03 == 3)
    then (ep_in, ep_out)
    else if has ep.address 0x80
    then (ep.address, ep_out)
    else (ep_in, ep.address))

unfoldable pub scan_setting : AltSetting → Option HidInterface
unfolding scan_endpoints
scan_setting alt =
    let eps = scan_endpoints alt.endpoints (0, 0) in
    if not (alt.interface_class == 3)
    then none
    else if eps.0 == 0
    then none
    else some (record { interface_number = alt.interface_number; ep_in = eps.0; ep_out = eps.1 })

abbrev pub or_else : Option HidInterface → Option HidInterface → Option HidInterface
or_else none rest = rest
or_else (some found) rest = some found

-- The settings of an interface, and then the interfaces, up to the first that fits.
unfoldable pub scan_settings : List AltSetting → Option HidInterface
unfolding scan_setting
scan_settings [] = none
scan_settings (alt ∷ alts) = or_else (scan_setting alt) (scan_settings alts)

unfoldable pub scan_interfaces : List (List AltSetting) → Option HidInterface
unfolding scan_settings
scan_interfaces [] = none
scan_interfaces (alts ∷ interfaces) = or_else (scan_settings alts) (scan_interfaces interfaces)

unfoldable pub find_hid_interface : UsbDevice → Option HidInterface
unfolding scan_interfaces
find_hid_interface dev = elim dev.config [
  | none ↦ none
  | some interfaces ↦ scan_interfaces interfaces
]

-- The first device with the ids that is not the daemon's own gadget.
unfoldable pub find_target : (Bytes → Option Bytes) → ℕ → ℕ → List UsbDevice → Option UsbDevice
unfolding is_own_virtual_usb_device
find_target canonical vid pid [] = none
find_target canonical vid pid (dev ∷ devs) =
    let rest = find_target canonical vid pid devs in
    if (dev.has_descriptor
      && (dev.vendor == vid && dev.product == pid)
      && not (is_own_virtual_usb_device canonical dev))
    then some dev
    else rest

-- Whether the device of an open transport is still in the list.
unfoldable pub device_still_present : ℕ → ℕ → List UsbDevice → Bool
device_still_present bus address [] = false
device_still_present bus address (dev ∷ devs) =
    let rest = device_still_present bus address devs in
    if dev.bus_number == bus && dev.device_address == address then true else rest
