-- ===== src/FunctionFs.antt =====
-- src/functionfs-backend.c, the virtual controller as a USB gadget: the device, the replies to control
-- requests, and the events of endpoint 0. `target_type` is 1 for a DualShock 4, else a DualSense.
pub mod Tables
pub mod Blobs
pub mod Replies
pub mod Outputs
pub mod Mailbox
pub mod Gadget
pub mod Startup
pub mod Ends
use ds4_translator.Base.{
  ℕ, ◌-◌, ◌/◌, ◌%◌, Bool, true, false, not, ◌&&◌, ◌||◌, bit_and, Option, none, some, List, [], ◌∷◌,
  ◌++◌, Bytes, length, take, replicate, has, ltb, ◌==◌, if◌then◌else◌,
}
use ds4_translator.FunctionFs.Tables.{
  ds4_cal, mac_info, ds4_version, cal_data, fw_data, pairing_data,
}
use ds4_translator.Uhid.Descriptors.{ds4_usb_rdesc, dualsense_usb_rdesc}

-- The members of `struct FunctionFSDevice`; a descriptor is `none` for -1, and `pending_report` holds
-- its first `pending_report_len` bytes.
pub record FunctionFsDevice : Type 0 where
  pub ep0_fd : Option ℕ
  pub ep_in_fd : Option ℕ
  pub ep_out_fd : Option ℕ
  pub device_open : Bool
  pub configured : Bool
  pub target_type : ℕ
  pub ep0_thread_spawned : Bool
  pub out_thread_spawned : Bool
  pub in_thread_spawned : Bool
  pub pending_report : Bytes
  pub report_pending : Bool

-- The buffer of 64 bytes that was cleared before `contents` was put in.
abbrev pub filled : Bytes → Bytes
filled contents = contents ++ replicate (64 - length contents) 0

-- The buffer and the length that is returned.
unfoldable pub build_feature_report : ℕ → ℕ → Bytes × ℕ
build_feature_report target_type rnum =
    if target_type == 1
    then (if rnum == 0x02 || rnum == 0x25
        then (filled (rnum ∷ ds4_cal), 37)
        else if rnum == 0x10 || rnum == 0x12
        then (filled (rnum ∷ mac_info), 16)
        else if rnum == 0x31 || rnum == 0xa3
        then (filled (rnum ∷ ds4_version), 49)
        else (filled [], 0))
    else (if rnum == 0x05
        then (filled cal_data, 41)
        else if rnum == 0x20
        then (filled fw_data, 64)
        else if rnum == 0x09
        then (filled pairing_data, 20)
        else (filled [], 0))

-- `struct usb_ctrlrequest`
pub record UsbCtrlrequest : Type 0 where
  pub request_type : ℕ
  pub request : ℕ
  pub value : ℕ
  pub index : ℕ
  pub size : ℕ

-- What is done on endpoint 0: bytes are written, bytes are read and dropped, or nothing.
pub data Ep0Action : Type 0 where
  answered : Bytes → Ep0Action
  drained : ℕ → Ep0Action
  unanswered : Ep0Action

abbrev pub at_most : ℕ → ℕ → ℕ
at_most limit n = if ltb limit n then limit else n

unfoldable pub report_descriptor : ℕ → Bytes
report_descriptor target_type = if target_type == 1 then ds4_usb_rdesc else dualsense_usb_rdesc

-- The answer to GET_REPORT before it is cut to `wLength`: where nothing is known, the number alone.
unfoldable pub report_answer : ℕ → ℕ → ℕ → Bytes
unfolding build_feature_report
report_answer target_type rtype rnum =
    let built = build_feature_report target_type rnum in
    if rtype == 3 && not (built.1 == 0) then take built.1 built.0 else rnum ∷ []

unfoldable pub handle_class : ℕ → UsbCtrlrequest → Ep0Action
unfolding report_answer
handle_class target_type setup =
    let dir_in = has setup.request_type 0x80 in
    if setup.request == 0x01 && dir_in
    then answered
        (take setup.size (report_answer target_type (setup.value / 256) (setup.value % 256)))
    else if setup.request == 0x09
    then (if ltb 0 setup.size
        then drained (if ltb setup.size 64 then setup.size else 64)
        else unanswered)
    else if setup.request == 0x0a
    then answered (if dir_in then 0 ∷ [] else [])
    else unanswered

unfoldable pub handle_setup : ℕ → UsbCtrlrequest → Ep0Action
unfolding handle_class report_descriptor
handle_setup target_type setup =
    let req_type = bit_and setup.request_type 0x60 in
    let recip = bit_and setup.request_type 0x1F in
    if req_type == 0 && recip == 1 && setup.request == 6 && setup.value / 256 == 0x22
    then answered (take setup.size (report_descriptor target_type))
    else if req_type == 0x20 && recip == 1
    then handle_class target_type setup
    else unanswered

-- What a read of endpoint 0 gives: an error, with whether a signal broke it off, an event that is cut
-- short, or a whole one.
pub data Ep0Event : Type 0 where
  broken : Bool → Ep0Event
  partial enable disable other : Ep0Event
  setup_request : UsbCtrlrequest → Ep0Event

-- One round of `ep0_loop`: the device after it, and what was done. The loop ends where the device is
-- no longer open.
unfoldable pub ep0_round : Ep0Event → FunctionFsDevice → FunctionFsDevice × Ep0Action
unfolding handle_setup
ep0_round (broken interrupted) dev = (dev, unanswered)
ep0_round partial dev = (dev, unanswered)
ep0_round enable dev = (record dev { configured = true }, unanswered)
ep0_round disable dev = (record dev { configured = false }, unanswered)
ep0_round other dev = (dev, unanswered)
ep0_round (setup_request setup) dev = (dev, handle_setup dev.target_type setup)
