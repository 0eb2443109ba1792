-- ===== src/Uhid.antt =====
-- src/main.cpp, the events of the virtual device: what the loop does with what /dev/uhid gives it, and
-- the replies to requests for feature reports.
pub mod Descriptors
pub mod Replies
use ds4_translator.Base.{
  ℕ, ◌-◌, Bool, true, false, ◌&&◌, ◌||◌, Option, none, some, List, [], ◌∷◌, ◌++◌, Bytes, map,
  replicate, is_some, ◌==◌, if◌then◌else◌,
}
use ds4_translator.Base.Text.{text}
use ds4_translator.Daemon.{Daemon, Effect, send_output}
use ds4_translator.Emulation.{ControllerType, is_ds4}
use ds4_translator.Output.Handler.{OutputGlobals, uhid_output}

-- The members of the reply that are written; the rest of its buffer is zero.
pub record Reply : Type 0 where
  pub id : ℕ
  pub err : ℕ
  pub size : ℕ
  pub contents : Bytes

abbrev empty_reply : ℕ → Reply
empty_reply id = record { id = id; err = 0; size = 0; contents = [] }

abbrev pub ds4_cal : Bytes
ds4_cal =
    0x00 ∷ 0x00 ∷ 0x00 ∷ 0x00 ∷ 0x00 ∷ 0x00 ∷ 0x00 ∷ 0x04 ∷ 0x00 ∷ 0xfc ∷ 0x00 ∷ 0x04 ∷ 0x00 ∷ 0xfc
    ∷ 0x00 ∷ 0x04 ∷ 0x00 ∷ 0xfc ∷ 0x00 ∷ 0x04 ∷ 0x00 ∷ 0x04 ∷ 0x00 ∷ 0x20 ∷ 0x00 ∷ 0xe0 ∷ 0x00
    ∷ 0x20 ∷ 0x00 ∷ 0xe0 ∷ 0x00 ∷ 0x20 ∷ 0x00 ∷ 0xe0 ∷ 0x00 ∷ 0x00 ∷ []

abbrev pub mac_info : Bytes
mac_info =
    0xe8 ∷ 0x47 ∷ 0x3a ∷ 0xd6 ∷ 0xe7 ∷ 0x74 ∷ 0x08 ∷ 0x25 ∷ 0x00 ∷ 0x1e ∷ 0x00 ∷ 0xee ∷ 0x74 ∷ 0xd0
    ∷ 0xbc ∷ []

-- Bytes 1 to 42 of the version report.
abbrev pub ds4_version : Bytes
ds4_version =
    text "Mar 25 2016"
    ++ replicate 5 0
    ++ text "12:00:00"
    ++ replicate 8 0
    ++ 0x00 ∷ 0x01 ∷ 0x38 ∷ 0x54 ∷ 0x01 ∷ 0x00 ∷ 0x00 ∷ 0x00 ∷ 0x33 ∷ 0x20 ∷ []

abbrev pub cal_data : Bytes
cal_data =
    0x05 ∷ 0xff ∷ 0xfc ∷ 0xff ∷ 0xfe ∷ 0xff ∷ 0x83 ∷ 0x22 ∷ 0x78 ∷ 0xdd ∷ 0x92 ∷ 0x22 ∷ 0x5f ∷ 0xdd
    ∷ 0x95 ∷ 0x22 ∷ 0x6d ∷ 0xdd ∷ 0x1c ∷ 0x02 ∷ 0x1c ∷ 0x02 ∷ 0xf2 ∷ 0x1f ∷ 0xed ∷ 0xdf ∷ 0xe3
    ∷ 0x20 ∷ 0xda ∷ 0xe0 ∷ 0xee ∷ 0x1f ∷ 0xdf ∷ 0xdf ∷ 0x0b ∷ 0x00 ∷ 0x00 ∷ 0x00 ∷ 0x00 ∷ 0x00
    ∷ 0x00 ∷ []

abbrev pub fw_data : Bytes
fw_data =
    0x20 ∷ 0x4a ∷ 0x75 ∷ 0x6e ∷ 0x20 ∷ 0x31 ∷ 0x39 ∷ 0x20 ∷ 0x32 ∷ 0x30 ∷ 0x32 ∷ 0x33 ∷ 0x31 ∷ 0x34
    ∷ 0x3a ∷ 0x34 ∷ 0x37 ∷ 0x3a ∷ 0x33 ∷ 0x34 ∷ 0x03 ∷ 0x00 ∷ 0x44 ∷ 0x00 ∷ 0x08 ∷ 0x02 ∷ 0x00
    ∷ 0x01 ∷ 0x36 ∷ 0x00 ∷ 0x00 ∷ 0x01 ∷ 0xc1 ∷ 0xc8 ∷ 0x00 ∷ 0x00 ∷ 0x00 ∷ 0x00 ∷ 0x00 ∷ 0x00
    ∷ 0x00 ∷ 0x00 ∷ 0x00 ∷ 0x00 ∷ 0x00 ∷ 0x00 ∷ 0x54 ∷ 0x01 ∷ 0x00 ∷ 0x00 ∷ 0x14 ∷ 0x00 ∷ 0x00
    ∷ 0x00 ∷ 0x0b ∷ 0x00 ∷ 0x01 ∷ 0x00 ∷ 0x06 ∷ 0x00 ∷ 0x00 ∷ 0x00 ∷ 0x00 ∷ 0x00 ∷ []

abbrev pub pairing_data : Bytes
pairing_data =
    0x09 ∷ 0xe8 ∷ 0x47 ∷ 0x3a ∷ 0xd6 ∷ 0xe7 ∷ 0x74 ∷ 0x08 ∷ 0x25 ∷ 0x00 ∷ 0x1e ∷ 0x00 ∷ 0xee ∷ 0x74
    ∷ 0xd0 ∷ 0xbc ∷ 0x00 ∷ 0x00 ∷ 0x00 ∷ 0x00 ∷ []

abbrev reply_of : ℕ → ℕ → Bytes → Reply
reply_of id size contents = record { id = id; err = 0; size = size; contents = contents }

unfoldable pub ds4_feature : ℕ → ℕ → Reply
ds4_feature id rnum =
    if rnum == 0x02 || rnum == 0x25
    then reply_of id 37 (rnum ∷ ds4_cal)
    else if rnum == 0x10 || rnum == 0x12
    then reply_of id 16 (rnum ∷ mac_info)
    else if rnum == 0x31 || rnum == 0xa3
    then reply_of id 49 (rnum ∷ ds4_version)
    else empty_reply id

unfoldable pub dualsense_feature : ℕ → ℕ → Reply
dualsense_feature id rnum =
    if rnum == 0x05
    then reply_of id 41 cal_data
    else if rnum == 0x20
    then reply_of id 64 fw_data
    else if rnum == 0x09
    then reply_of id 20 pairing_data
    else empty_reply id

-- `rtype == UHID_FEATURE_REPORT` is `feature`.
unfoldable pub get_report : ControllerType → ℕ → ℕ → Bool → Reply
unfolding ds4_feature dualsense_feature
get_report type id rnum feature =
    if feature
    then if is_ds4 type then ds4_feature id rnum else dualsense_feature id rnum
    else empty_reply id

-- What the descriptor of the virtual device gives: that it was dropped, that it cannot be read (with
-- whether the read would only block), or an event.
pub data UhidEvent : Type 0 where
  dropped : UhidEvent
  unreadable : Bool → UhidEvent
  start stop opened closed : UhidEvent
  get_report_request : ℕ → ℕ → Bool → UhidEvent
  set_report_request : ℕ → UhidEvent
  output_report : ℕ → Bytes → UhidEvent
  other : UhidEvent

abbrev close_uhid : Daemon → Daemon
close_uhid d = record d { uhid_fd = none; uhid_handles = d.uhid_handles - 1 }

abbrev pub output_globals : Daemon → OutputGlobals
output_globals d = record {
  cur = d.cur;
  suppress_next_led_update = d.suppress_next_led_update;
  events = [];
  sent = [];
}

-- The case `UHID_OUTPUT` on the daemon, with the reports that it sends on.
unfoldable pub take_output : ℕ → Bytes → Daemon → Daemon
unfolding uhid_output
take_output size report d =
    let g = uhid_output d.target_type (is_some d.phy_fd) size report (output_globals d) in
    record d {
      cur = g.cur;
      suppress_next_led_update = g.suppress_next_led_update;
      effects = d.effects ++ map (send_output d.is_bluetooth) g.sent;
    }

-- The daemon after the event, and the reply that is written.
unfoldable pub on_uhid : UhidEvent → Daemon → Daemon × Option Reply
unfolding get_report take_output
on_uhid dropped d = (record (close_uhid d) { standalone_virtual = false }, none)
on_uhid (unreadable would_block) d = (if would_block then d else close_uhid d, none)
on_uhid start d = (d, none)
on_uhid stop d = (d, none)
on_uhid opened d = (record d { device_open = true }, none)
on_uhid closed d = (record d { device_open = false }, none)
on_uhid (get_report_request id rnum feature) d =
    (d, some (get_report d.target_type id rnum feature))
on_uhid (set_report_request id) d = (d, some (empty_reply id))
on_uhid (output_report size report) d = (take_output size report d, none)
on_uhid other d = (d, none)
