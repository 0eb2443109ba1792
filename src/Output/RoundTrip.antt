-- ===== src/Output/RoundTrip.antt =====
-- The reports written to the physical controller: what they carry, and their checksum.
use ds4_translator.Base.{
  ℕ, ◌+◌, ◌*◌, ◌/◌, ◌^◌, ◌<◌, Bool, true, false, ◌≡◌, refl, ◌∙◌, if◌then◌else◌, Bytes, AreBytes,
  length, take, arith,
}
use ds4_translator.Base.Bits.Masks.{bit_and_0xff}
use ds4_translator.Crc.{calculate_crc32}
use ds4_translator.Crc.Detect.{calculate_crc32-lt}
use ds4_translator.Emulation.{ds4}
use ds4_translator.Report.Layout.{byte_at}
use ds4_translator.Report.Physical.{received_crc}
use ds4_translator.Output.{
  OutputState, crc_bytes_le, bt_output_body, physical_output_report, decode_output,
}

pub record FitsOutput (s : OutputState) : Type 0 where
  pub motor_left_fits : s.motor_left < 256
  pub motor_right_fits : s.motor_right < 256
  pub r_fits : s.r < 256
  pub g_fits : s.g < 256
  pub b_fits : s.b < 256

abbrev field : Bytes → ℕ
field t = byte_at t 0 + byte_at t 1 * 2 ^ 8 + byte_at t 2 * 2 ^ 16 + byte_at t 3 * 2 ^ 24

crc_bytes_le_lem : (crc : ℕ) → crc < 2 ^ 32 → field (crc_bytes_le crc) ≡ crc
crc_bytes_le_lem crc h =
    rw
      (
        bit_and_0xff crc,
        bit_and_0xff (crc / 2 ^ 8),
        bit_and_0xff (crc / 2 ^ 16),
        bit_and_0xff (crc / 2 ^ 24),
      )
      (omega arith)

body-AreBytes : (s : OutputState) → FitsOutput s → AreBytes (bt_output_body s)
unfolding bt_output_body
body-AreBytes s f = omega arith

field-report :
    (s : OutputState)
    → received_crc (physical_output_report true s)
      ≡ field (crc_bytes_le (calculate_crc32 0xA2 (bt_output_body s)))
unfolding physical_output_report received_crc
field-report s = refl

body-report : (s : OutputState) → take 74 (physical_output_report true s) ≡ bt_output_body s
unfolding physical_output_report
body-report s = refl

-- A Bluetooth output report has 78 bytes, and the checksum field at its end is the checksum of its
-- first 74 bytes under the seed of output reports, for every state of the motors and the light bar.
pub physical_output_report-crc :
    (s : OutputState)
    → FitsOutput s
    → (length (physical_output_report true s) ≡ 78)
      × (received_crc (physical_output_report true s)
          ≡ calculate_crc32 0xA2 (take 74 (physical_output_report true s)))
unfolding physical_output_report
physical_output_report-crc s f =
    let fits = calculate_crc32-lt 0xA2 (bt_output_body s) (omega arith) (body-AreBytes s f) in
    (refl, rw (body-report s) (field-report s ∙ crc_bytes_le_lem _ fits))

-- What the daemon writes to a physical DualShock 4, over USB or Bluetooth, is read back by its own
-- reader of DualShock 4 output reports as exactly the motors that were to be sent, and as exactly the
-- colours too, whatever they were before, unless the next light bar update is to be suppressed: then
-- the colours stay as they were, and the one after it will be taken.
pub physical_output_report_round_trip :
    (is_bluetooth suppress : Bool) (s old : OutputState)
    → let report = physical_output_report is_bluetooth s in
      decode_output ds4
        (length report)
        report
        (record { output = old; update = false; suppress = suppress })
      ≡ record {
        output = if suppress then record s { r = old.r; g = old.g; b = old.b } else s;
        update = true;
        suppress = false;
      }
unfolding physical_output_report decode_output
physical_output_report_round_trip true true s old = refl
physical_output_report_round_trip true false s old = refl
physical_output_report_round_trip false true s old = refl
physical_output_report_round_trip false false s old = refl
