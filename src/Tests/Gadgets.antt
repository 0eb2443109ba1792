-- ===== src/Tests/Gadgets.antt =====
-- The theorems at concrete inputs: the gadget backend and the two transports.
use ds4_translator.Base.{
  true, false, ◌≡◌, refl, none, some, List, [], ◌∷◌, Bytes, take, arith, length,
}
use ds4_translator.Base.Text.{text}
use ds4_translator.Base.Resources.{Clean}
use ds4_translator.Emulation.{ds4}
use ds4_translator.Uhid.{get_report}
use ds4_translator.Output.Handler.{OutputGlobals, uhid_output}
use ds4_translator.FunctionFs.{FunctionFsDevice, handle_setup, answered}
use ds4_translator.FunctionFs.Blobs.{
  FfsConstants, IsBlob, asks_descriptor, u16_at, build_ffs_descriptors,
  build_ffs_descriptors-IsBlob,
}
use ds4_translator.Uhid.Descriptors.{ds4_usb_rdesc}
use ds4_translator.FunctionFs.Replies.{get_feature, received, handle_setup_agrees}
use ds4_translator.FunctionFs.Outputs.{got, out_round, Same, out_round_agrees}
use ds4_translator.FunctionFs.Mailbox.{
  InThread, Step, send, take_step, write_step, accepted, run, Does, run-Does,
}
use ds4_translator.FunctionFs.Gadget.{
  Call, write_to, open_at, Outcome, success, failure, opened, Journal, fresh, gadget_calls,
}
use ds4_translator.FunctionFs.Startup.{functionfs_init}
use ds4_translator.HidBpf as HidBpf
use ds4_translator.HidBpf.Releases.{closed, open-Clean}
use ds4_translator.HidBpf.Pump.{Round, Thread, reports, pump, pump_ends}
use ds4_translator.UsbHid.{UsbDevice}
use ds4_translator.UsbHid.Transport as Usb
use ds4_translator.UsbHid.Releases.{Ends, usb_hid_transport_open-Ends}

handle_setup_agrees_example :
    handle_setup 1 (get_feature 0xa3 0 64)
    ≡ answered (take 64 (received (get_report ds4 7 0xa3 true) 0xa3))
handle_setup_agrees_example = handle_setup_agrees ds4 7 0xa3 0 64 (omega arith)

abbrev constants : FfsConstants
constants = record { descriptors_magic_v2 = 3; strings_magic = 2; has_fs_desc = 1; has_hs_desc = 2 }

build_ffs_descriptors-IsBlob_example :
    (let blob = build_ffs_descriptors constants 1 in
      IsBlob blob (length ds4_usb_rdesc)
      × (handle_setup 1 (asks_descriptor (u16_at 36 blob)) ≡ answered ds4_usb_rdesc))
build_ffs_descriptors-IsBlob_example = build_ffs_descriptors-IsBlob constants 1

abbrev gadget_device : FunctionFsDevice
gadget_device = record (fresh 1) {
  ep0_fd = some 3;
  ep_in_fd = some 4;
  ep_out_fd = some 5;
  device_open = true;
  configured = true;
}

abbrev dark : OutputGlobals
dark = record {
  cur = record { motor_left = 0; motor_right = 0; r = 0; g = 0; b = 0 };
  suppress_next_led_update = false;
  events = [];
  sent = [];
}

-- Rumble and a red light bar.
abbrev output : Bytes
output = 0x05 ∷ 0x03 ∷ 0 ∷ 0 ∷ 9 ∷ 80 ∷ 255 ∷ 0 ∷ 0 ∷ []

out_round_agrees_example :
    Same (out_round true (got 9 output) gadget_device dark) (uhid_output ds4 true 9 output dark)
out_round_agrees_example =
    out_round_agrees ds4 gadget_device 9 output dark refl refl (λ e. absurd (omega arith))
      (λ e. absurd (ground arith))

abbrev idle : InThread
idle = record { dev = gadget_device; local_buf = none; written = [] }

abbrev busy : List Step
busy =
    send (1 ∷ [])
    ∷ take_step
    ∷ send (2 ∷ [])
    ∷ send (3 ∷ [])
    ∷ write_step true
    ∷ take_step
    ∷ write_step true
    ∷ []

run-Does_example : Does idle (accepted busy idle) (run busy idle)
run-Does_example = run-Does busy idle

-- A system that opens endpoint 0 and refuses what is written to it.
abbrev answer : Call → Outcome
answer (write_to fd contents) = failure
answer (open_at path) = opened 3
answer other = success

abbrev refusing : Journal → Call → Outcome
refusing log c = answer c

abbrev bpf_system : HidBpf.System
bpf_system = record {
  exists = λ path. true;
  entries = λ path. text "hidraw4" ∷ [];
  loader = λ args. true;
  bpf_obj_get = λ path. some 9;
  open_file = λ path. some 10;
  socketpair = some (11, 12);
  ring_buffer_new = true;
}

open-Clean_example :
    Clean (closed (HidBpf.hid_bpf_transport_open bpf_system (text "/o") (text "0005:054C:05C4.1")))
open-Clean_example = open-Clean bpf_system (text "/o") (text "0005:054C:05C4.1")

abbrev gone : Round
gone = record { reads = []; write_works = true; now = 1; polled = reports []; exists = false }

abbrev pumping : Thread
pumping = record {
  running = true;
  liveness_check_counter = 123;
  sent = [];
  delivered = [];
  log = record { last_logged = 0; suppressed = 0 };
  lines = [];
}

pump_ends_example : (pump (gone ∷ gone ∷ []) pumping).running ≡ false
pump_ends_example =
    pump_ends (gone ∷ gone ∷ []) pumping (refl, (refl, tt)) (omega arith) (omega arith)

abbrev controller : UsbDevice
controller = record {
  vendor = 0x054c;
  product = 0x05c4;
  has_descriptor = true;
  bus_number = 1;
  device_address = 7;
  ports = 2 ∷ [];
  config = some (
      (record {
        interface_class = 3;
        interface_number = 0;
        endpoints =
            record { address = 0x84; attributes = 3 }
            ∷ record { address = 0x03; attributes = 3 }
            ∷ [];
      }
        ∷ [])
      ∷ []);
  opens = true;
}

abbrev usb_system : Usb.System
usb_system = record {
  libusb_init = true;
  devices = controller ∷ [];
  canonical = λ path. some (text "/sys/devices/pci");
  attempt = λ n. record { claims = true; stays = true };
  socketpair = some (11, 12);
}

-- The watchdog finds the controller once, and then nothing any more.
usb_hid_transport_open-Ends_example :
    Ends
      (text "0003:054C:05C4.1")
      ((controller ∷ [], false) ∷ ([], false) ∷ [])
      true
      (Usb.usb_hid_transport_open usb_system (text "0003:054C:05C4.1") 0x054c 0x05c4)
usb_hid_transport_open-Ends_example =
    usb_hid_transport_open-Ends usb_system (text "0003:054C:05C4.1") 0x054c 0x05c4
      ((controller ∷ [], false) ∷ ([], false) ∷ []) true

-- The report that was replaced in the mailbox is not written.
busy_written : (run busy idle).written ≡ (1 ∷ []) ∷ (3 ∷ []) ∷ []
unfolding run
busy_written = refl

-- Where the descriptors are refused, endpoint 0 stays open.
refused_open :
    (functionfs_init refusing (some (text "dummy_udc.0" ∷ [])) constants 1 [] []).dev.ep0_fd
    ≡ some 3
unfolding functionfs_init gadget_calls
refused_open = refl
