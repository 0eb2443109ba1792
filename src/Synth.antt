-- ===== src/Synth.antt =====
-- src/main.cpp, `SyntheticState` and `build_synthetic_common`: the report of the virtual controller
-- that has no hardware behind it, driven by `ds4-ctl`.
pub mod RoundTrip
use ds4_translator.Base.{
  ℕ, ◌+◌, ◌*◌, ◌^◌, Bool, false, bit_and, bit_or, u8, has, if◌then◌else◌, Bytes,
}
use ds4_translator.Buttons
use ds4_translator.Buttons.{or_if}
use ds4_translator.Emulation.{ControllerType}
use ds4_translator.Report.{Common, zero_common, zero_touches}
use ds4_translator.Report.Emit.{Emitter, emit_input_report}

pub record SyntheticState : Type 0 where
  pub buttons : ℕ
  pub dpad : ℕ
  pub lx : ℕ
  pub ly : ℕ
  pub rx : ℕ
  pub ry : ℕ
  pub l2_analog : ℕ
  pub r2_analog : ℕ

-- `SyntheticState()`
abbrev pub neutral : SyntheticState
neutral = record {
  buttons = 0;
  dpad = 8;
  lx = 128;
  ly = 128;
  rx = 128;
  ry = 128;
  l2_analog = 0;
  r2_analog = 0;
}

-- Hat and face buttons.
unfoldable pub synthetic_byte0 : ℕ → ℕ → ℕ
synthetic_byte0 b dpad = or_if b Buttons.triangle 0x80 (
    or_if b Buttons.circle 0x40
      (or_if b Buttons.cross 0x20 (or_if b Buttons.square 0x10 (bit_and dpad 0x0F))))

unfoldable pub synthetic_byte1 : ℕ → ℕ
synthetic_byte1 b = or_if b Buttons.r3 0x80 (
    or_if b Buttons.l3 0x40 (
      or_if b Buttons.options 0x20 (
        or_if b Buttons.share 0x10 (
          or_if b Buttons.r2 0x08
            (or_if b Buttons.l2 0x04 (or_if b Buttons.r1 0x02 (or_if b Buttons.l1 0x01 0)))))))

-- `counter` is the function's static variable before `counter++`.
unfoldable pub synthetic_byte2 : ℕ → ℕ → ℕ
synthetic_byte2 b counter =
    or_if b Buttons.touchpad 0x02 (or_if b Buttons.ps 0x01 (u8 (bit_and counter 0x3F * 2 ^ 2)))

-- The report, and the counter after it.
unfoldable pub build_synthetic_common : SyntheticState → ℕ → Common × ℕ
unfolding synthetic_byte0 synthetic_byte1 synthetic_byte2
build_synthetic_common s counter = (
  record zero_common {
    x = s.lx;
    y = s.ly;
    rx = s.rx;
    ry = s.ry;
    z = s.l2_analog;
    rz = s.r2_analog;
    buttons0 = synthetic_byte0 s.buttons s.dpad;
    buttons1 = synthetic_byte1 s.buttons;
    buttons2 = synthetic_byte2 s.buttons counter;
  },
  u8 (counter + 1),
)

-- The report sent, with the emitter and the counter after it.
unfoldable pub emit_synthetic : ControllerType → SyntheticState → ℕ → Emitter → Bytes × Emitter × ℕ
unfolding build_synthetic_common emit_input_report
emit_synthetic type s counter e =
    let (common, counter') = build_synthetic_common s counter in
    let (payload, e') = emit_input_report type common 0 zero_touches false e in
    (payload, e', counter')

-- `emit_neutral_report`
unfoldable pub emit_neutral_report : ControllerType → ℕ → Emitter → Bytes × Emitter × ℕ
unfolding emit_synthetic
emit_neutral_report type counter e = emit_synthetic type neutral counter e
