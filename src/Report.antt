-- ===== src/Report.antt =====
-- src/main.cpp, the packed report structures of the controllers. A multi-byte field is the number
-- that its little-endian bytes stand for; a signed one is its bit pattern.
pub mod Layout
pub mod Physical
pub mod Battery
pub mod Emit
pub mod RoundTrip
pub mod Corrupt
pub mod Translate
use ds4_translator.Base.{ℕ, ◌<◌}

-- `int16_t gyro[3]`, `int16_t accel[3]`
pub record Axes : Type 0 where
  pub first : ℕ
  pub second : ℕ
  pub third : ℕ

-- `uint8_t reserved2[5]`
pub record Reserved : Type 0 where
  pub r0 : ℕ
  pub r1 : ℕ
  pub r2 : ℕ
  pub r3 : ℕ
  pub r4 : ℕ

-- `struct dualshock4_input_report_common`
pub record Common : Type 0 where
  pub x : ℕ
  pub y : ℕ
  pub rx : ℕ
  pub ry : ℕ
  pub buttons0 : ℕ
  pub buttons1 : ℕ
  pub buttons2 : ℕ
  pub z : ℕ
  pub rz : ℕ
  pub sensor_timestamp : ℕ
  pub sensor_temperature : ℕ
  pub gyro : Axes
  pub accel : Axes
  pub reserved2 : Reserved
  pub status0 : ℕ
  pub status1 : ℕ
  pub reserved3 : ℕ

-- `struct dualshock4_touch_point`, and `struct dualsense_touch_point`, which has the same layout
pub record TouchPoint : Type 0 where
  pub contact : ℕ
  pub x_lo : ℕ
  pub x_hi : ℕ
  pub y_lo : ℕ
  pub y_hi : ℕ

-- `struct dualshock4_touch_report`
pub record TouchReport : Type 0 where
  pub timestamp : ℕ
  pub point0 : TouchPoint
  pub point1 : TouchPoint

-- `struct dualshock4_touch_report touch_reps[4]`
pub record Touches : Type 0 where
  pub t0 : TouchReport
  pub t1 : TouchReport
  pub t2 : TouchReport
  pub t3 : TouchReport

-- What a physical report carries to the rest of the loop: `common`, `num_touch`, `touch_reps`.
pub record Input : Type 0 where
  pub common : Common
  pub num_touch : ℕ
  pub touches : Touches

-- `memset(..., 0, ...)`
abbrev pub zero_axes : Axes
zero_axes = record { first = 0; second = 0; third = 0 }

abbrev pub zero_reserved : Reserved
zero_reserved = record { r0 = 0; r1 = 0; r2 = 0; r3 = 0; r4 = 0 }

abbrev pub zero_point : TouchPoint
zero_point = record { contact = 0; x_lo = 0; x_hi = 0; y_lo = 0; y_hi = 0 }

abbrev pub zero_touch : TouchReport
zero_touch = record { timestamp = 0; point0 = zero_point; point1 = zero_point }

abbrev pub zero_touches : Touches
zero_touches = record { t0 = zero_touch; t1 = zero_touch; t2 = zero_touch; t3 = zero_touch }

abbrev pub zero_common : Common
zero_common = record {
  x = 0;
  y = 0;
  rx = 0;
  ry = 0;
  buttons0 = 0;
  buttons1 = 0;
  buttons2 = 0;
  z = 0;
  rz = 0;
  sensor_timestamp = 0;
  sensor_temperature = 0;
  gyro = zero_axes;
  accel = zero_axes;
  reserved2 = zero_reserved;
  status0 = 0;
  status1 = 0;
  reserved3 = 0;
}

-- Every field fits its width.
pub record FitsAxes (a : Axes) : Type 0 where
  pub first_fits : a.first < 65536
  pub second_fits : a.second < 65536
  pub third_fits : a.third < 65536

pub record FitsReserved (r : Reserved) : Type 0 where
  pub r0_fits : r.r0 < 256
  pub r1_fits : r.r1 < 256
  pub r2_fits : r.r2 < 256
  pub r3_fits : r.r3 < 256
  pub r4_fits : r.r4 < 256

pub record FitsCommon (c : Common) : Type 0 where
  pub x_fits : c.x < 256
  pub y_fits : c.y < 256
  pub rx_fits : c.rx < 256
  pub ry_fits : c.ry < 256
  pub buttons0_fits : c.buttons0 < 256
  pub buttons1_fits : c.buttons1 < 256
  pub buttons2_fits : c.buttons2 < 256
  pub z_fits : c.z < 256
  pub rz_fits : c.rz < 256
  pub timestamp_fits : c.sensor_timestamp < 65536
  pub temperature_fits : c.sensor_temperature < 256
  pub gyro_fits : FitsAxes c.gyro
  pub accel_fits : FitsAxes c.accel
  pub reserved2_fits : FitsReserved c.reserved2
  pub status0_fits : c.status0 < 256
  pub status1_fits : c.status1 < 256
  pub reserved3_fits : c.reserved3 < 256

pub record FitsPoint (p : TouchPoint) : Type 0 where
  pub contact_fits : p.contact < 256
  pub x_lo_fits : p.x_lo < 256
  pub x_hi_fits : p.x_hi < 16
  pub y_lo_fits : p.y_lo < 16
  pub y_hi_fits : p.y_hi < 256

pub record FitsTouch (t : TouchReport) : Type 0 where
  pub timestamp_fits : t.timestamp < 256
  pub point0_fits : FitsPoint t.point0
  pub point1_fits : FitsPoint t.point1

pub record FitsTouches (t : Touches) : Type 0 where
  pub t0_fits : FitsTouch t.t0
  pub t1_fits : FitsTouch t.t1
  pub t2_fits : FitsTouch t.t2
  pub t3_fits : FitsTouch t.t3
