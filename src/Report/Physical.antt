-- ===== src/Report/Physical.antt =====
-- src/main.cpp, the main loop: what it takes from a report of the physical controller, over USB
-- and over Bluetooth.
use ds4_translator.Base.{
  ℕ, ◌+◌, ◌*◌, ◌^◌, ◌&&◌, Option, none, some, Bytes, length, take, ltb, leb, ◌==◌, if◌then◌else◌,
}
use ds4_translator.Report.{Touches, TouchReport, Input, zero_touch}
use ds4_translator.Report.Layout.{byte_at, read_common, read_touch}
use ds4_translator.Crc.{calculate_crc32}

-- The copying loops: slot `i` is filled where `i < limit && i < num_touch`, and is zero otherwise.
unfoldable pub slot : Bytes → ℕ → ℕ → ℕ → ℕ → TouchReport
unfolding read_touch
slot buf at limit num i =
    if ltb i limit && ltb i num then read_touch buf (at + 9 * i) else zero_touch

unfoldable pub read_touches : Bytes → ℕ → ℕ → ℕ → Touches
unfolding slot
read_touches buf at limit num = record {
  t0 = slot buf at limit num 0;
  t1 = slot buf at limit num 1;
  t2 = slot buf at limit num 2;
  t3 = slot buf at limit num 3;
}

-- `struct dualshock4_input_report_usb`
unfoldable pub read_usb : Bytes → Input
unfolding read_common
read_usb buf = record {
  common = read_common buf 1;
  num_touch = byte_at buf 33;
  touches = read_touches buf 34 3 (byte_at buf 33);
}

-- `struct dualshock4_input_report_bt`
unfoldable pub read_bt : Bytes → Input
unfolding read_common
read_bt buf = record {
  common = read_common buf 3;
  num_touch = byte_at buf 35;
  touches = read_touches buf 36 4 (byte_at buf 35);
}

-- `received_crc`, little-endian at offset 74
unfoldable pub received_crc : Bytes → ℕ
received_crc buf =
    byte_at buf 74 + byte_at buf 75 * 2 ^ 8 + byte_at buf 76 * 2 ^ 16 + byte_at buf 77 * 2 ^ 24

-- The list holds the bytes that `read` returned; `none` where `got_report` stays false.
unfoldable pub parse_physical : Bytes → Option Input
unfolding received_crc
parse_physical buf =
    if byte_at buf 0 == 0x01 && leb 64 (length buf)
    then some (read_usb buf)
    else if byte_at buf 0 == 0x11 && leb 78 (length buf)
    then (if received_crc buf == calculate_crc32 0xA1 (take 74 buf)
        then some (read_bt buf)
        else none)
    else none
