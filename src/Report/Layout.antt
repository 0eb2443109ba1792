-- ===== src/Report/Layout.antt =====
-- The layout of the packed structures: how a structure lies in a buffer, and how it is read back
-- through a pointer to `buf + at`.
use ds4_translator.Base.{ℕ, ◌+◌, ◌*◌, ◌/◌, ◌%◌, [], ◌∷◌, ◌++◌, Bytes, get_or}
use ds4_translator.Report.{Axes, Reserved, Common, TouchPoint, TouchReport}

abbrev pub byte_at : Bytes → ℕ → ℕ
byte_at buf i = get_or buf i 0

abbrev pub word_at : Bytes → ℕ → ℕ
word_at buf i = byte_at buf i + 256 * byte_at buf (i + 1)

abbrev pub word_bytes : ℕ → Bytes
word_bytes n = n % 256 ∷ n / 256 ∷ []

unfoldable pub read_axes : Bytes → ℕ → Axes
read_axes buf at = record {
  first = word_at buf at;
  second = word_at buf (at + 2);
  third = word_at buf (at + 4);
}

unfoldable pub axes_bytes : Axes → Bytes
axes_bytes a = word_bytes a.first ++ word_bytes a.second ++ word_bytes a.third

unfoldable pub read_common : Bytes → ℕ → Common
unfolding read_axes
read_common buf at = record {
  x = byte_at buf at;
  y = byte_at buf (at + 1);
  rx = byte_at buf (at + 2);
  ry = byte_at buf (at + 3);
  buttons0 = byte_at buf (at + 4);
  buttons1 = byte_at buf (at + 5);
  buttons2 = byte_at buf (at + 6);
  z = byte_at buf (at + 7);
  rz = byte_at buf (at + 8);
  sensor_timestamp = word_at buf (at + 9);
  sensor_temperature = byte_at buf (at + 11);
  gyro = read_axes buf (at + 12);
  accel = read_axes buf (at + 18);
  reserved2 = record {
    r0 = byte_at buf (at + 24);
    r1 = byte_at buf (at + 25);
    r2 = byte_at buf (at + 26);
    r3 = byte_at buf (at + 27);
    r4 = byte_at buf (at + 28);
  };
  status0 = byte_at buf (at + 29);
  status1 = byte_at buf (at + 30);
  reserved3 = byte_at buf (at + 31);
}

abbrev pub reserved_bytes : Reserved → Bytes
reserved_bytes r = r.r0 ∷ r.r1 ∷ r.r2 ∷ r.r3 ∷ r.r4 ∷ []

-- The 32 bytes of the structure, in order.
unfoldable pub common_bytes : Common → Bytes
unfolding axes_bytes
common_bytes c =
    (c.x ∷ c.y ∷ c.rx ∷ c.ry ∷ c.buttons0 ∷ c.buttons1 ∷ c.buttons2 ∷ c.z ∷ c.rz ∷ [])
    ++ word_bytes c.sensor_timestamp
    ++ (c.sensor_temperature ∷ [])
    ++ axes_bytes c.gyro
    ++ axes_bytes c.accel
    ++ reserved_bytes c.reserved2
    ++ (c.status0 ∷ c.status1 ∷ c.reserved3 ∷ [])

-- `x_hi:4, y_lo:4` share a byte, the first in its low half.
unfoldable pub read_point : Bytes → ℕ → TouchPoint
read_point buf at = record {
  contact = byte_at buf at;
  x_lo = byte_at buf (at + 1);
  x_hi = byte_at buf (at + 2) % 16;
  y_lo = byte_at buf (at + 2) / 16;
  y_hi = byte_at buf (at + 3);
}

unfoldable pub point_bytes : TouchPoint → Bytes
point_bytes p = p.contact ∷ p.x_lo ∷ (p.x_hi + 16 * p.y_lo) ∷ p.y_hi ∷ []

unfoldable pub read_touch : Bytes → ℕ → TouchReport
unfolding read_point
read_touch buf at = record {
  timestamp = byte_at buf at;
  point0 = read_point buf (at + 1);
  point1 = read_point buf (at + 5);
}

unfoldable pub touch_bytes : TouchReport → Bytes
unfolding point_bytes
touch_bytes t = t.timestamp ∷ (point_bytes t.point0 ++ point_bytes t.point1)
