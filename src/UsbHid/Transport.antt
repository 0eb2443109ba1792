-- ===== src/UsbHid/Transport.antt =====
-- src/usb-hid-transport.cpp, how the transport is opened, started, watched and closed.
use ds4_translator.Base.{
  ℕ, zero, suc, ◌+◌, ◌*◌, Bool, true, false, not, ◌&&◌, ◌||◌, Option, none, some, List, [], ◌∷◌,
  ◌++◌, Bytes, ◌==◌, if◌then◌else◌,
}
use ds4_translator.Base.Text.{text, empty}
use ds4_translator.Base.Resources.{Act, acquire, release, Resource, descriptor, named}
use ds4_translator.UsbHid.{
  UsbDevice, HidInterface, find_hid_interface, find_target, device_still_present,
}

-- One attempt to claim the interface: whether the claim works, and whether no driver of the kernel is
-- active 0.3 s later.
pub record Attempt : Type 0 where
  pub claims : Bool
  pub stays : Bool

-- What the system answers, the attempts by their number.
pub record System : Type 0 where
  pub libusb_init : Bool
  pub devices : List UsbDevice
  pub canonical : Bytes → Option Bytes
  pub attempt : ℕ → Attempt
  pub socketpair : Option (ℕ × ℕ)

abbrev pub context : Resource
context = named (text "context")

abbrev pub device_list : Resource
device_list = named (text "device list")

abbrev pub handle : Resource
handle = named (text "handle")

abbrev pub interface_claim : Resource
interface_claim = named (text "interface")

abbrev pub threads : Resource
threads = named (text "threads")

abbrev pub max_claim_attempts : ℕ
max_claim_attempts = 4

-- The loop of attempts: whether the interface is claimed, the acts, and the microseconds slept.
pub record Claim : Type 0 where
  pub claimed : Bool
  pub acts : List Act
  pub slept : ℕ

unfoldable pub claim_interface : ℕ → ℕ → (ℕ → Attempt) → List Act → ℕ → Claim
claim_interface zero number attempts acts slept = record {
  claimed = false;
  acts = acts;
  slept = slept;
}
claim_interface (suc left) number attempts acts slept =
    let a = attempts number in
    let held = acquire interface_claim ∷ acts in
    let refused = claim_interface left (number + 1) attempts acts (slept + 200000 * number) in
    let lost =
      claim_interface left (number + 1) attempts (release interface_claim ∷ held)
        (slept + 300000 + 200000 * number) in
    if not a.claims
    then refused
    else if a.stays
    then record { claimed = true; acts = held; slept = slept + 300000 }
    else lost

-- `struct TransportState`, with whether its threads run.
pub record TransportState : Type 0 where
  pub hid_id : Bytes
  pub found : HidInterface
  pub sv0 : ℕ
  pub sv1 : ℕ
  pub bus_number : ℕ
  pub device_address : ℕ
  pub started : Bool
  pub force_closed : Bool

-- What was acquired and released, the newest first, how often the id was written to the driver's
-- `bind`, and the transport.
pub record Opened : Type 0 where
  pub acts : List Act
  pub binds : List Bytes
  pub transport : Option TransportState

abbrev pub failed : Bytes → List Act → Opened
failed hid_id acts = record { acts = acts; binds = hid_id ∷ []; transport = none }

unfoldable pub open_pair : Bytes → UsbDevice → HidInterface → List Act → Option (ℕ × ℕ) → Opened
open_pair hid_id dev found acts none =
    failed hid_id (release context ∷ release handle ∷ release interface_claim ∷ acts)
open_pair hid_id dev found acts (some (sv0, sv1)) = record {
  acts = acquire (descriptor sv1) ∷ acquire (descriptor sv0) ∷ acts;
  binds = [];
  transport = some (record {
    hid_id = hid_id;
    found = found;
    sv0 = sv0;
    sv1 = sv1;
    bus_number = dev.bus_number;
    device_address = dev.device_address;
    started = false;
    force_closed = false;
  });
}

-- The interface is claimed, in four attempts at most.
unfoldable pub open_claim : System → Bytes → UsbDevice → HidInterface → List Act → Opened
unfolding claim_interface open_pair
open_claim sys hid_id dev found acts =
    let claim = claim_interface max_claim_attempts 1 sys.attempt acts 0 in
    if not claim.claimed
    then failed hid_id (release context ∷ release handle ∷ claim.acts)
    else open_pair hid_id dev found claim.acts sys.socketpair

-- Once a device with its endpoints was found, or was not.
unfoldable pub open_handle :
    System → Bytes → List Act → Option UsbDevice → Option HidInterface → Opened
unfolding open_claim
open_handle sys hid_id acts (some dev) (some found) =
    if dev.opens
    then open_claim sys hid_id dev found (release device_list ∷ acquire handle ∷ acts)
    else failed hid_id (release context ∷ release device_list ∷ acts)
open_handle sys hid_id acts (some dev) none =
    failed hid_id (release context ∷ release device_list ∷ acts)
open_handle sys hid_id acts none found =
    failed hid_id (release context ∷ release device_list ∷ acts)

abbrev pub interface_of : Option UsbDevice → Option HidInterface
interface_of none = none
interface_of (some dev) = find_hid_interface dev

unfoldable pub usb_hid_transport_open : System → Bytes → ℕ → ℕ → Opened
unfolding open_handle
usb_hid_transport_open sys hid_id vid pid =
    let target = find_target sys.canonical vid pid sys.devices in
    if not sys.libusb_init
    then failed hid_id []
    else open_handle sys hid_id (acquire device_list ∷ acquire context ∷ []) target
        (interface_of target)

-- The threads start once.
unfoldable pub usb_hid_transport_start : TransportState → List Act → TransportState × List Act
usb_hid_transport_start t acts =
    if t.started then (t, acts) else (record t { started = true }, acquire threads ∷ acts)

-- One look of the watchdog: it ends where the device is gone or the kernel has taken the interface
-- back, and closes the handle, with which the claim ends.
unfoldable pub watchdog_round :
    List UsbDevice → Bool → TransportState → List Act → TransportState × List Act
unfolding device_still_present
watchdog_round devices kernel_active t acts =
    if not t.started || t.force_closed
    then (t, acts)
    else if not (device_still_present t.bus_number t.device_address devices) || kernel_active
    then (record t { force_closed = true }, release handle ∷ release interface_claim ∷ acts)
    else (t, acts)

unfoldable pub lookup : ℕ → List TransportState → Option TransportState
lookup fd [] = none
lookup fd (t ∷ ts) = let rest = lookup fd ts in if fd == t.sv1 then some t else rest

unfoldable pub erase : ℕ → List TransportState → List TransportState
erase fd [] = []
erase fd (t ∷ ts) = let rest = erase fd ts in if fd == t.sv1 then ts else t ∷ rest

-- What the closing leaves.
pub record Closing : Type 0 where
  pub registry : List TransportState
  pub acts : List Act
  pub binds : List Bytes

abbrev pub join_threads : Bool → List Act → List Act
join_threads started acts = if started then release threads ∷ acts else acts

-- A handle that the watchdog has closed is left alone; otherwise the interface goes back to the
-- kernel, over sysfs where libusb cannot hand it back.
unfoldable pub close_transport : Bool → TransportState → List Act → List Act × List Bytes
close_transport attaches t acts =
    let joined = join_threads t.started acts in
    if t.force_closed
    then (release (descriptor t.sv1) ∷ release (descriptor t.sv0) ∷ release context ∷ joined, [])
    else (
      release (descriptor t.sv1)
          ∷ release (descriptor t.sv0)
          ∷ release context
          ∷ release handle
          ∷ release interface_claim
          ∷ joined,
      (if attaches then [] else t.hid_id ∷ []),
    )

unfoldable pub usb_hid_transport_close : Bool → ℕ → List TransportState → List Act → Closing
unfolding lookup erase close_transport
usb_hid_transport_close attaches fd registry acts = elim (lookup fd registry) [
  | none ↦ record { registry = registry; acts = release (descriptor fd) ∷ acts; binds = [] }
  | some t ↦ record {
    registry = erase fd registry;
    acts = (close_transport attaches t acts).0;
    binds = (close_transport attaches t acts).1;
  }
]

-- What libusb says to a transfer, and what a round of the thread meets: a report of the daemon that
-- waits, the transfer from the controller, and whether the daemon takes it.
pub data Transfer : Type 0 where
  transferred : Bytes → Transfer
  lost other : Transfer

pub record PumpRound : Type 0 where
  pub waiting : Option Bytes
  pub inbound : Transfer
  pub taken : Bool

pub record Pumped : Type 0 where
  pub running : Bool
  pub sent : List Bytes
  pub delivered : List Bytes

abbrev pub send_waiting : ℕ → Option Bytes → List Bytes → List Bytes
send_waiting ep_out none sent = sent
send_waiting ep_out (some report) sent =
    if not (empty report) && not (ep_out == 0) then sent ++ (report ∷ []) else sent

unfoldable pub pump_round : ℕ → PumpRound → Pumped → Pumped
pump_round ep_out round p =
    let outbound = record p { sent = send_waiting ep_out round.waiting p.sent } in
    if not p.running then p else elim round.inbound [
      | transferred report ↦
          if empty report
          then outbound
          else if round.taken
          then record outbound { delivered = p.delivered ++ (report ∷ []) }
          else record outbound { running = false }
      | lost ↦ record outbound { running = false }
      | other ↦ outbound
    ]
