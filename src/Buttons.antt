-- ===== src/Buttons.antt =====
-- The button bits of src/main.cpp (`SYN_BTN_*`) and src/ipc-client.h (`kBtn*`), which agree, and
-- src/ipc-client.cpp, `decode_buttons`: the way from the three button bytes of a report to them.
pub mod Widths
use ds4_translator.Base.{ℕ, bit_and, bit_or, has, if◌then◌else◌}

abbrev pub square : ℕ
square = 0x0001

abbrev pub cross : ℕ
cross = 0x0002

abbrev pub circle : ℕ
circle = 0x0004

abbrev pub triangle : ℕ
triangle = 0x0008

abbrev pub l1 : ℕ
l1 = 0x0010

abbrev pub r1 : ℕ
r1 = 0x0020

abbrev pub l2 : ℕ
l2 = 0x0040

abbrev pub r2 : ℕ
r2 = 0x0080

abbrev pub share : ℕ
share = 0x0100

abbrev pub options : ℕ
options = 0x0200

abbrev pub l3 : ℕ
l3 = 0x0400

abbrev pub r3 : ℕ
r3 = 0x0800

abbrev pub ps : ℕ
ps = 0x1000

abbrev pub touchpad : ℕ
touchpad = 0x2000

-- `if (test) x |= mask;`
abbrev pub or_if : ℕ → ℕ → ℕ → ℕ → ℕ
or_if bits tested mask x = if has bits tested then bit_or x mask else x

-- `*out_buttons`
unfoldable pub decode_buttons : ℕ → ℕ → ℕ → ℕ
decode_buttons byte0 byte1 byte2 =
    let b0 =
      or_if byte0 0x80 triangle
        (or_if byte0 0x40 circle (or_if byte0 0x20 cross (or_if byte0 0x10 square 0))) in
    let b1 =
      or_if byte1 0x08 r2 (or_if byte1 0x04 l2 (or_if byte1 0x02 r1 (or_if byte1 0x01 l1 b0))) in
    let b2 =
      or_if byte1 0x80 r3
        (or_if byte1 0x40 l3 (or_if byte1 0x20 options (or_if byte1 0x10 share b1))) in
    or_if byte2 0x02 touchpad (or_if byte2 0x01 ps b2)

-- `*out_dpad`
unfoldable pub decode_dpad : ℕ → ℕ
decode_dpad byte0 = bit_and byte0 0x0F
