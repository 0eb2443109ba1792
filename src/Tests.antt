-- ===== src/Tests.antt =====
-- The theorems at concrete inputs: the checksum, the reports of the physical controller and the
-- reports shown to the host.
mod Outputs
mod Settings
mod Daemons
mod Buses
mod Statuses
mod Gadgets
mod CommandLines
mod Streams
mod Uhids
mod Windows
use ds4_translator.Base.{
  ℕ, ◌+◌, ◌*◌, ◌/◌, ◌%◌, ◌^◌, ◌<◌, ◌≤◌, Bool, true, false, not, ◌≡◌, ◌≢◌, refl, Option, none, some,
  List, [], ◌∷◌, ◌++◌, Bytes, AreBytes, arith, replicate, length, take, if◌then◌else◌,
}
use ds4_translator.Crc.{
  calculate_crc32, crc_bytes, crc_update, crc_table, fill_table, crc_shifts, crc_shift,
}
use ds4_translator.Crc.Reference.{calculate_crc32-serial, serial_crc32}
use ds4_translator.Crc.Detect.{calculate_crc32-lt, calculate_crc32_detects}
use ds4_translator.Report.{
  Common, TouchPoint, TouchReport, Touches, FitsTouches, zero_common, zero_touches, zero_touch,
}
use ds4_translator.Report.Physical.{parse_physical, read_bt, received_crc}
use ds4_translator.Report.Corrupt.{parse_physical_corrupt}
use ds4_translator.Report.Emit.{dualsense_payload, newest_touch}
use ds4_translator.Report.Translate.{
  last_touch, read_dualsense, as_dualsense, dualsense_payload_lem,
}
use ds4_translator.Report.Battery.{
  decode_ds4_battery, translate_battery, expected_bits, translate_battery_lem,
}

calculate_crc32-serial_example :
    calculate_crc32 0xA1 (0x31 ∷ 0x32 ∷ []) ≡ serial_crc32 0xA1 (0x31 ∷ 0x32 ∷ [])
calculate_crc32-serial_example =
    calculate_crc32-serial 0xA1 (0x31 ∷ 0x32 ∷ []) (omega arith) (omega arith)

calculate_crc32_detects_example :
    calculate_crc32 0xA1 ((0x31 ∷ []) ++ 5 ∷ (0x32 ∷ []))
    ≢ calculate_crc32 0xA1 ((0x31 ∷ []) ++ 4 ∷ (0x32 ∷ []))
calculate_crc32_detects_example =
    calculate_crc32_detects 0xA1 (0x31 ∷ []) (0x32 ∷ []) 5 4 (omega arith) (omega arith)
      (omega arith) (omega arith) (omega arith) (omega arith)

-- A Bluetooth report with its checksum.
abbrev zeros : Bytes
zeros = replicate 72 0

abbrev checksum : Bytes
checksum = 58 ∷ 40 ∷ 6 ∷ 238 ∷ []

abbrev bt_report : Bytes
bt_report = (0x11 ∷ zeros ++ 1 ∷ []) ++ checksum

bt_report_accepted : parse_physical bt_report ≡ some (read_bt bt_report)
unfolding parse_physical received_crc calculate_crc32 crc_bytes crc_update crc_table fill_table
    crc_shifts crc_shift
bt_report_accepted = refl

parse_physical_corrupt_example : parse_physical ((0x11 ∷ zeros ++ 3 ∷ []) ++ checksum) ≡ none
parse_physical_corrupt_example =
    parse_physical_corrupt zeros [] checksum 1 3 refl (omega arith) (omega arith) (omega arith)
      (omega arith) (omega arith) (omega arith) bt_report_accepted

zero_touches-FitsTouches : FitsTouches zero_touches
zero_touches-FitsTouches = omega arith

-- Two touch reports, on the stick at the upper left.
abbrev moved : Common
moved = record zero_common { x = 12; y = 34; buttons0 = 0x28; status0 = 0x1B }

dualsense_payload_lem_example :
    (length (dualsense_payload 7 moved 2 zero_touches true) ≡ 64)
    × (read_dualsense (dualsense_payload 7 moved 2 zero_touches true)
        ≡ as_dualsense 7 moved (last_touch 2 zero_touches) (translate_battery 0x1B))
dualsense_payload_lem_example =
    dualsense_payload_lem 7 moved 2 zero_touches true zero_touches-FitsTouches
