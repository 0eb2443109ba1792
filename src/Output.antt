-- ===== src/Output.antt =====
-- src/main.cpp, rumble and light bar: the reports written to the physical controller
-- (`write_physical_output_report`), and what the main loop takes from the output report that a
-- game sends to the virtual one (the `UHID_OUTPUT` case).
pub mod RoundTrip
pub mod Handler
pub mod Laws
pub mod Errors
use ds4_translator.Base.{
  ℕ, ◌+◌, ◌/◌, ◌%◌, ◌^◌, Bool, true, false, not, ◌&&◌, ◌||◌, bit_and, List, [], ◌∷◌, ◌++◌, Bytes,
  replicate, has, ltb, leb, ◌==◌, if◌then◌else◌,
}
use ds4_translator.Crc.{calculate_crc32}
use ds4_translator.Emulation.{ControllerType, is_ds4}
use ds4_translator.Report.Layout.{byte_at}

-- `BtOutputPacer::State`, and the globals `cur_motor_left` to `cur_b`.
pub record OutputState : Type 0 where
  pub motor_left : ℕ
  pub motor_right : ℕ
  pub r : ℕ
  pub g : ℕ
  pub b : ℕ

-- `crc & 0xFF` and its shifts, as `uint8_t`.
abbrev pub crc_bytes_le : ℕ → Bytes
crc_bytes_le crc =
    bit_and crc 0xFF
    ∷ bit_and (crc / 2 ^ 8) 0xFF
    ∷ bit_and (crc / 2 ^ 16) 0xFF
    ∷ bit_and (crc / 2 ^ 24) 0xFF
    ∷ []

-- The first 74 bytes of the Bluetooth report.
unfoldable pub bt_output_body : OutputState → Bytes
bt_output_body s =
    (0x11 ∷ 0xC0 ∷ 0x00 ∷ 0x07 ∷ 0x00 ∷ 0x00 ∷ s.motor_right ∷ s.motor_left ∷ s.r ∷ s.g ∷ s.b ∷ [])
    ++ replicate 63 0

-- The 78 or 32 bytes that `write_physical_output_report` writes.
unfoldable pub physical_output_report : Bool → OutputState → Bytes
unfolding bt_output_body
physical_output_report is_bluetooth s =
    if is_bluetooth
    then bt_output_body s ++ crc_bytes_le (calculate_crc32 0xA2 (bt_output_body s))
    else (0x05 ∷ 0x07 ∷ 0x00 ∷ 0x00 ∷ s.motor_right ∷ s.motor_left ∷ s.r ∷ s.g ∷ s.b ∷ [])
      ++ replicate 23 0

-- The locals of the `UHID_OUTPUT` case: the values so far, `update`, and the global
-- `g_suppress_next_led_update`.
pub record Decoded : Type 0 where
  pub output : OutputState
  pub update : Bool
  pub suppress : Bool

-- The motor part: bytes `at` (right) and `at + 1` (left), if the flag is set.
unfoldable pub take_motors : Bool → Bytes → ℕ → Decoded → Decoded
take_motors flag report at d =
    if flag
    then record d {
      output = record d.output {
        motor_right = byte_at report at;
        motor_left = byte_at report (at + 1);
      };
      update = true;
    }
    else d

-- The light bar part. The first one after a virtual device appears is the kernel's default colour,
-- which is swallowed.
unfoldable pub take_led : Bool → Bytes → ℕ → Decoded → Decoded
take_led flag report at d =
    if flag
    then (if d.suppress then record d { suppress = false } else record d {
      output = record d.output {
        r = byte_at report at;
        g = byte_at report (at + 1);
        b = byte_at report (at + 2);
      };
      update = true;
    })
    else d

-- With haptics selected and both motors asked for, the big one is left off.
unfoldable pub quiet_left : Bool → Decoded → Decoded
quiet_left haptics d =
    if haptics && ltb 0 d.output.motor_right && ltb 0 d.output.motor_left
    then record d { output = record d.output { motor_left = 0 } }
    else d

-- The formats that each emulated type understands; any other report changes nothing.
unfoldable pub decode_output : ControllerType → ℕ → Bytes → Decoded → Decoded
unfolding take_motors take_led quiet_left
decode_output type size report d =
    if is_ds4 type
    then (if byte_at report 0 == 0x05 && leb 9 size
        then (let flags = byte_at report 1 in
            take_led (has flags 0x02) report 6 (take_motors (has flags 0x01) report 4 d))
        else if byte_at report 0 == 0x11 && leb 11 size
        then (let flags = byte_at report 3 in
            take_led (has flags 0x02) report 8 (take_motors (has flags 0x01) report 6 d))
        else d)
    else (if byte_at report 0 == 0x02 && leb 48 size
        then (let vf0 = byte_at report 1 in
            let vf1 = byte_at report 2 in
            let motors = take_motors (has vf0 0x01) report 3 d in
            take_led (has vf1 0x04) report 45
              (if has vf0 0x01 then quiet_left (has vf0 0x02) motors else motors))
        else d)

unfoldable pub same_motors : OutputState → OutputState → Bool
same_motors a b = a.motor_left == b.motor_left && a.motor_right == b.motor_right

unfoldable pub same_led : OutputState → OutputState → Bool
same_led a b = a.r == b.r && a.g == b.g && a.b == b.b
