-- ===== src/Report/Battery.antt =====
-- src/main.cpp, `decode_ds4_battery` and `encode_dualsense_battery`.
use ds4_translator.Base.{
  ℕ, ◌+◌, ◌-◌, ◌*◌, ◌/◌, ◌%◌, ◌^◌, ◌≤◌, ◌<◌, Bool, true, ◌&&◌, bit_and, bit_or, ◌≡◌, refl, arith,
  u8, has, ltb, leb, ◌==◌, if◌then◌else◌, all_below, all_below_sound,
}

pub data BatteryState : Type 0 where
  discharging charging full : BatteryState

unfoldable pub decode_ds4_battery : ℕ → ℕ × BatteryState
decode_ds4_battery status0 =
    let level = bit_and status0 0x0F in
    let usb = has status0 0x10 in
    let read : ℕ × BatteryState =
      if usb
      then (if ltb 10 level then (100, full) else (level * 10, charging))
      else (if ltb 8 level then 100 else (level + 1) * 10, discharging) in
    (if ltb 100 read.0 then 100 else read.0, read.1)

-- The switch of `encode_dualsense_battery`.
abbrev pub status_bits : BatteryState → ℕ
status_bits full = 0x2
status_bits charging = 0x1
status_bits discharging = 0x0

-- C's division rounds to zero, so `(percent - 5) / 10` is 0 below 5, as it is here, and the test
-- `level < 0` never holds.
unfoldable pub encode_dualsense_battery : ℕ → BatteryState → ℕ
encode_dualsense_battery percent state =
    let level = (percent - 5) / 10 in
    let capped : ℕ = if ltb 10 level then 10 else level in
    u8 (bit_or (status_bits state * 2 ^ 4) (bit_and capped 0x0F))

-- What `emit_input_report` writes for a real battery.
unfoldable pub translate_battery : ℕ → ℕ
unfolding decode_ds4_battery encode_dualsense_battery
translate_battery status0 =
    let read = decode_ds4_battery status0 in encode_dualsense_battery read.0 read.1

-- What the status byte of a DualShock 4 says, by its documented format: the cable bit, and the
-- level 0 to 10, with more than 10 on the cable for "fully charged".
abbrev pub expected_bits : ℕ → ℕ
expected_bits status0 = if ltb (status0 % 32) 16 then 0 else if ltb 26 (status0 % 32) then 2 else 1

battery_check : ℕ → Bool
battery_check s =
    let p = (decode_ds4_battery s).0 in
    let e = translate_battery s in
    leb p 100
    && leb (e % 16 * 10) p
    && leb p (e % 16 * 10 + 10)
    && leb (e % 16) 10
    && e / 16 == expected_bits s

battery_table : all_below 256 battery_check ≡ true
unfolding all_below battery_check translate_battery
battery_table = refl

-- For every status byte of a DualShock 4: the percentage read from it is at most 100; the level
-- nibble written for the DualSense is at most 10 and stands for a range of ten percent that holds
-- this percentage; and the charging nibble is 0 without a cable, 2 on a cable with a level above
-- 10, and 1 on a cable otherwise.
pub translate_battery_lem :
    (s : ℕ)
    → s < 256
    → ((decode_ds4_battery s).0 ≤ 100)
      × (translate_battery s % 16 * 10 ≤ (decode_ds4_battery s).0)
      × ((decode_ds4_battery s).0 ≤ translate_battery s % 16 * 10 + 10)
      × (translate_battery s % 16 ≤ 10)
      × (translate_battery s / 16 ≡ expected_bits s)
unfolding battery_check
translate_battery_lem s h =
    let checked = all_below_sound 256 battery_check s battery_table h in ground arith
