-- ===== src/FunctionFs/Replies.antt =====
-- The gadget answers the host as the uhid device does.
use ds4_translator.Base.{
  ℕ, ◌+◌, ◌/◌, ◌%◌, ◌<◌, true, not, ◌≡◌, refl, [], ◌∷◌, Bytes, take, ◌==◌, if◌then◌else◌,
  Bool-cases, inl, inr, ◌||◌, arith,
}
use ds4_translator.Emulation.{ControllerType, is_ds4}
use ds4_translator.Uhid.{Reply, get_report, ds4_feature, dualsense_feature}
use ds4_translator.FunctionFs.{
  filled, build_feature_report, report_answer, handle_class, handle_setup, UsbCtrlrequest, answered,
}

-- `type == TYPE_DS4 ? 1 : 2`, as `create_virtual_device` passes it.
abbrev pub target_of : ControllerType → ℕ
target_of type = if is_ds4 type then 1 else 2

-- The buffer that a reply of uhid fills, and its length.
abbrev pub reply_buffer : Reply → Bytes × ℕ
reply_buffer r = (filled r.contents, r.size)

ds4_agrees : (id rnum : ℕ) → build_feature_report 1 rnum ≡ reply_buffer (ds4_feature id rnum)
unfolding build_feature_report ds4_feature
ds4_agrees id rnum = elim (Bool-cases (rnum == 0x02 || rnum == 0x25)) [
  | inl e ↦ rw e refl
  | inr a ↦ elim (Bool-cases (rnum == 0x10 || rnum == 0x12)) [
    | inl e ↦ rw (a, e) refl
    | inr b ↦ elim (Bool-cases (rnum == 0x31 || rnum == 0xa3)) [
      | inl e ↦ rw (a, b, e) refl
      | inr c ↦ rw (a, b, c) refl
    ]
  ]
]

dualsense_agrees :
    (id rnum : ℕ) → build_feature_report 2 rnum ≡ reply_buffer (dualsense_feature id rnum)
unfolding build_feature_report dualsense_feature
dualsense_agrees id rnum = elim (Bool-cases (rnum == 0x05)) [
  | inl e ↦ rw e refl
  | inr a ↦ elim (Bool-cases (rnum == 0x20)) [
    | inl e ↦ rw (a, e) refl
    | inr b ↦ elim (Bool-cases (rnum == 0x09)) [
      | inl e ↦ rw (a, b, e) refl
      | inr c ↦ rw (a, b, c) refl
    ]
  ]
]

build_feature_report_agrees :
    (type : ControllerType) (id rnum : ℕ)
    → build_feature_report (target_of type) rnum ≡ reply_buffer (get_report type id rnum true)
unfolding get_report
build_feature_report_agrees type id rnum = elim (Bool-cases (is_ds4 type)) [
  | inl e ↦ rw e (ds4_agrees id rnum)
  | inr e ↦ rw e (dualsense_agrees id rnum)
]

-- GET_REPORT on the interface, for a feature report.
abbrev pub get_feature : ℕ → ℕ → ℕ → UsbCtrlrequest
get_feature rnum index size = record {
  request_type = 0xA1;
  request = 1;
  value = 0x300 + rnum;
  index = index;
  size = size;
}

-- What the host receives of a reply of uhid: its first bytes, or the number of the report alone where
-- the reply is empty.
abbrev pub received : Reply → ℕ → Bytes
received r rnum = if not (r.size == 0) then take r.size (filled r.contents) else rnum ∷ []

-- A request for a feature report over the gadget is answered with the bytes that uhid gives for the
-- same type and number, cut to the length that the host asks for; only where uhid replies with
-- nothing, the gadget sends the number of the report.
pub handle_setup_agrees :
    (type : ControllerType) (id rnum index size : ℕ)
    → rnum < 256
    → handle_setup (target_of type) (get_feature rnum index size)
      ≡ answered (take size (received (get_report type id rnum true) rnum))
unfolding handle_setup handle_class report_answer
handle_setup_agrees type id rnum index size h =
    let high : (0x300 + rnum) / 256 ≡ 3 = omega arith in
    let low : (0x300 + rnum) % 256 ≡ rnum = omega arith in
    rw (high, low, build_feature_report_agrees type id rnum) refl
