-- ===== src/Report/Translate.antt =====
-- An emulated DualSense: what its report says under `struct dualsense_input_report`.
use ds4_translator.Base.{
  ℕ, zero, suc, ◌+◌, ◌*◌, ◌/◌, ◌%◌, Bool, ◌≡◌, refl, ap, ◌∙◌, Bytes, length, ltb, if◌then◌else◌,
  arith, Bool-cases, inl, inr,
}
use ds4_translator.Base.Bits.Masks.{bit_and_mask}
use ds4_translator.Report.{Axes, Common, TouchPoint, TouchReport, Touches, FitsTouches, FitsTouch}
use ds4_translator.Report.Layout.{byte_at, word_at, read_axes, read_point}
use ds4_translator.Report.RoundTrip.{joined, touch_at-FitsTouch, released-FitsTouch, word_join}
use ds4_translator.Report.Battery.{translate_battery}
use ds4_translator.Report.Emit.{newest, newest_touch, dualsense_payload}

-- `struct dualsense_input_report`, without the reserved parts.
pub record DualSense : Type 0 where
  pub x : ℕ
  pub y : ℕ
  pub rx : ℕ
  pub ry : ℕ
  pub z : ℕ
  pub rz : ℕ
  pub seq_number : ℕ
  pub buttons0 : ℕ
  pub buttons1 : ℕ
  pub buttons2 : ℕ
  pub buttons3 : ℕ
  pub gyro : Axes
  pub accel : Axes
  pub sensor_timestamp : ℕ
  pub point0 : TouchPoint
  pub point1 : TouchPoint
  pub status0 : ℕ
  pub status1 : ℕ
  pub status2 : ℕ

-- The structure at the offsets that its members have behind the report id.
unfoldable pub read_dualsense : Bytes → DualSense
unfolding read_axes read_point
read_dualsense buf = record {
  x = byte_at buf 1;
  y = byte_at buf 2;
  rx = byte_at buf 3;
  ry = byte_at buf 4;
  z = byte_at buf 5;
  rz = byte_at buf 6;
  seq_number = byte_at buf 7;
  buttons0 = byte_at buf 8;
  buttons1 = byte_at buf 9;
  buttons2 = byte_at buf 10;
  buttons3 = byte_at buf 11;
  gyro = read_axes buf 16;
  accel = read_axes buf 22;
  sensor_timestamp = word_at buf 28 + 65536 * word_at buf 30;
  point0 = read_point buf 33;
  point1 = read_point buf 37;
  status0 = byte_at buf 53;
  status1 = byte_at buf 54;
  status2 = byte_at buf 55;
}

-- What a DualSense with the same inputs would say. Of the third button byte only the PS and
-- touchpad-click bits are taken: above them the DualShock 4 keeps a counter.
abbrev pub as_dualsense : ℕ → Common → TouchReport → ℕ → DualSense
as_dualsense seq c touch status = record {
  x = c.x;
  y = c.y;
  rx = c.rx;
  ry = c.ry;
  z = c.z;
  rz = c.rz;
  seq_number = seq;
  buttons0 = c.buttons0;
  buttons1 = c.buttons1;
  buttons2 = c.buttons2 % 4;
  buttons3 = 0;
  gyro = c.gyro;
  accel = c.accel;
  sensor_timestamp = c.sensor_timestamp;
  point0 = touch.point0;
  point1 = touch.point1;
  status0 = status;
  status1 = 0;
  status2 = 0;
}

-- The last of the touch reports that came, of which there is room for four; with none, both contacts
-- have bit 7 set and no coordinates.
abbrev pub last_touch : ℕ → Touches → TouchReport
last_touch zero ts = record {
  timestamp = 0;
  point0 = record { contact = 128; x_lo = 0; x_hi = 0; y_lo = 0; y_hi = 0 };
  point1 = record { contact = 128; x_lo = 0; x_hi = 0; y_lo = 0; y_hi = 0 };
}
last_touch (suc zero) ts = ts.t0
last_touch (suc (suc zero)) ts = ts.t1
last_touch (suc (suc (suc zero))) ts = ts.t2
last_touch (suc (suc (suc (suc n)))) ts = ts.t3

newest_touch-last : (n : ℕ) (ts : Touches) → newest_touch n ts ≡ last_touch n ts
unfolding newest_touch
newest_touch-last zero ts = refl
newest_touch-last (suc zero) ts = refl
newest_touch-last (suc (suc zero)) ts = refl
newest_touch-last (suc (suc (suc zero))) ts = refl
newest_touch-last (suc (suc (suc (suc zero)))) ts = refl
newest_touch-last (suc (suc (suc (suc (suc n))))) ts = ground arith

newest_touch-FitsTouch : (n : ℕ) (ts : Touches) → FitsTouches ts → FitsTouch (newest_touch n ts)
unfolding newest_touch
newest_touch-FitsTouch n ts f = elim (Bool-cases (ltb 0 n)) [
  | inl e ↦ rw e (touch_at-FitsTouch ts (newest n) f)
  | inr e ↦ rw e released-FitsTouch
]

axes_join :
    (a : Axes)
    → (λ (b : Axes). record b {
      first = b.first % 256 + 256 * (b.first / 256);
      second = b.second % 256 + 256 * (b.second / 256);
      third = b.third % 256 + 256 * (b.third / 256);
    })
        a
      ≡ a
axes_join a = ground (arith, word_join a.first, word_join a.second, word_join a.third)

read_newest :
    (seq : ℕ) (c : Common) (n : ℕ) (ts : Touches) (real : Bool)
    → FitsTouches ts
    → (length (dualsense_payload seq c n ts real) ≡ 64)
      × (read_dualsense (dualsense_payload seq c n ts real)
          ≡ as_dualsense seq c
              (newest_touch n ts)
              (if real then translate_battery c.status0 else 0x2B))
unfolding dualsense_payload read_dualsense
read_newest seq c n ts real fits =
    let t = newest_touch n ts in
    let f = newest_touch-FitsTouch n ts fits in
    (
      refl,
      λ i. record {
        x = c.x;
        y = c.y;
        rx = c.rx;
        ry = c.ry;
        z = c.z;
        rz = c.rz;
        seq_number = seq;
        buttons0 = c.buttons0;
        buttons1 = c.buttons1;
        buttons2 = bit_and_mask 2 c.buttons2 i;
        buttons3 = 0;
        gyro = axes_join c.gyro i;
        accel = axes_join c.accel i;
        sensor_timestamp = timestamp_join c.sensor_timestamp i;
        point0 = joined t.point0 f.point0_fits i;
        point1 = joined t.point1 f.point1_fits i;
        status0 = if real then translate_battery c.status0 else 0x2B;
        status1 = 0;
        status2 = 0;
      },
    )
  where
    timestamp_join : (n : ℕ) → n % 256 + 256 * (n / 256) + 65536 * (0 + 256 * 0) ≡ n
    timestamp_join n = omega arith

-- The 64 bytes emitted for a DualSense, read at the offsets of `dualsense_input_report`, carry the
-- sticks, triggers, hat and buttons, PS and touchpad-click bits, motion and timestamp of `common`,
-- the two contacts of the last touch report that came (of the fourth, if there are more; both released
-- where there is none), and the translated battery or the fixed full one.
pub dualsense_payload_lem :
    (seq : ℕ) (c : Common) (n : ℕ) (ts : Touches) (real : Bool)
    → FitsTouches ts
    → (length (dualsense_payload seq c n ts real) ≡ 64)
      × (read_dualsense (dualsense_payload seq c n ts real)
          ≡ as_dualsense seq c
              (last_touch n ts)
              (if real then translate_battery c.status0 else 0x2B))
dualsense_payload_lem seq c n ts real fits =
    let (whole, fields) = read_newest seq c n ts real fits in
    (
      whole,
      fields
          ∙ ap (λ t. as_dualsense seq c t (if real then translate_battery c.status0 else 0x2B))
              (newest_touch-last n ts),
    )
