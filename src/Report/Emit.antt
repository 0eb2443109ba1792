-- ===== src/Report/Emit.antt =====
-- src/main.cpp, `emit_input_report`: the report that the virtual device shows for one `common` and
-- its touch data, as a DualShock 4 over USB and as a DualSense.
use ds4_translator.Base.{
  ℕ, zero, suc, ◌+◌, ◌-◌, Bool, true, false, bit_and, [], ◌∷◌, ◌++◌, Bytes, replicate, u8, ltb,
  if◌then◌else◌,
}
use ds4_translator.Emulation.{ControllerType, is_ds4}
use ds4_translator.Report.{Common, TouchPoint, TouchReport, Touches, zero_point, zero_touch}
use ds4_translator.Report.Layout.{axes_bytes, common_bytes, point_bytes, touch_bytes, word_bytes}
use ds4_translator.Report.Battery.{translate_battery}

-- The globals that `emit_input_report` reads and writes.
pub record Emitter : Type 0 where
  pub has_test_subscribers : Bool
  pub last_virtual_common : Common
  pub last_virtual_touch : TouchReport
  pub last_virtual_valid : Bool
  pub sequence_number : ℕ

-- `touch_reps[i]`
abbrev pub touch_at : Touches → ℕ → TouchReport
touch_at t zero = t.t0
touch_at t (suc zero) = t.t1
touch_at t (suc (suc zero)) = t.t2
touch_at t (suc (suc (suc _))) = t.t3

-- A slot with neither finger down: bit 7 of `contact` is set.
abbrev pub released_point : TouchPoint
released_point = record zero_point { contact = 0x80 }

abbrev pub released_touch : TouchReport
released_touch = record zero_touch { point0 = released_point; point1 = released_point }

-- `num_touch - 1`, at most 3; run only where `num_touch > 0`
abbrev pub newest : ℕ → ℕ
newest num_touch = let n = num_touch - 1 in if ltb 3 n then 3 else n

-- The newest report of the batch, or the two released slots.
unfoldable pub newest_touch : ℕ → Touches → TouchReport
newest_touch num_touch reps =
    if ltb 0 num_touch then touch_at reps (newest num_touch) else released_touch

-- `out_ds->num_touch_reports`
abbrev pub capped_touches : ℕ → ℕ
capped_touches num_touch = if ltb 3 num_touch then 3 else num_touch

-- The status bytes stand for a full battery on the cable where there is no hardware.
abbrev pub with_status : Bool → Common → Common
with_status true c = c
with_status false c = record c { status0 = 0x1B; status1 = 0x00 }

unfoldable pub ds4_slot : ℕ → Touches → ℕ → TouchReport
ds4_slot num_touch reps i =
    if ltb i (capped_touches num_touch) then touch_at reps i else released_touch

-- `struct dualshock4_input_report_usb`, 64 bytes
unfoldable pub ds4_payload : Common → ℕ → Touches → Bool → Bytes
unfolding common_bytes touch_bytes
ds4_payload common num_touch reps has_real_battery =
    (0x01 ∷ [])
    ++ common_bytes (with_status has_real_battery common)
    ++ (capped_touches num_touch ∷ [])
    ++ touch_bytes (ds4_slot num_touch reps 0)
    ++ touch_bytes (ds4_slot num_touch reps 1)
    ++ touch_bytes (ds4_slot num_touch reps 2)
    ++ replicate 3 0

-- `struct dualsense_input_report` behind the report id, 64 bytes. `sensor_timestamp` has 16 bits, so
-- the two high bytes of its 32-bit copy are 0.
unfoldable pub dualsense_payload : ℕ → Common → ℕ → Touches → Bool → Bytes
unfolding axes_bytes point_bytes
dualsense_payload seq c num_touch reps has_real_battery =
    let touch = newest_touch num_touch reps in
    (0x01 ∷ c.x ∷ c.y ∷ c.rx ∷ c.ry ∷ c.z ∷ c.rz ∷ seq ∷ [])
    ++ (c.buttons0 ∷ c.buttons1 ∷ bit_and c.buttons2 0x03 ∷ 0 ∷ [])
    ++ replicate 4 0
    ++ axes_bytes c.gyro
    ++ axes_bytes c.accel
    ++ word_bytes c.sensor_timestamp
    ++ replicate 3 0
    ++ point_bytes touch.point0
    ++ point_bytes touch.point1
    ++ replicate 12 0
    ++ ((if has_real_battery then translate_battery c.status0 else 0x2B) ∷ 0x00 ∷ 0x00 ∷ [])
    ++ replicate 8 0

-- What `ds4-ctl test` is shown is kept only while someone watches.
unfoldable pub remember : Common → ℕ → Touches → Emitter → Emitter
unfolding newest_touch
remember common num_touch reps e =
    if e.has_test_subscribers
    then record e {
      last_virtual_common = common;
      last_virtual_touch = newest_touch num_touch reps;
      last_virtual_valid = true;
    }
    else e

-- The report, and the globals after it. The DualSense branch takes the next sequence number.
unfoldable pub emit_input_report :
    ControllerType → Common → ℕ → Touches → Bool → Emitter → Bytes × Emitter
unfolding remember ds4_payload dualsense_payload
emit_input_report type common num_touch reps real e =
    let e' = remember common num_touch reps e in
    if is_ds4 type then (ds4_payload common num_touch reps real, e') else (
      dualsense_payload e'.sequence_number common num_touch reps real,
      record e' { sequence_number = u8 (e'.sequence_number + 1) },
    )
