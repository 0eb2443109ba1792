-- ===== src/Broadcast/Shown.antt =====
-- What a subscriber reads in a line of state is what the report says, packed contacts included.
use ds4_translator.Base.{
  ℕ, ◌+◌, ◌*◌, ◌/◌, ◌%◌, ◌^◌, ◌<◌, Bool, true, not, ◌≡◌, refl, ap, ◌∙◌, some, Bytes, [], ◌∷◌, ◌++◌,
  bit_and, bit_or, u8, ltb, ◌==◌, if◌then◌else◌, arith, all_below, all_below_sound, ==_iff,
}
use ds4_translator.Base.Bits.Masks.{bit_and_0x0f}
use ds4_translator.Base.Bits.Unions.{bit_or-disjoint}
use ds4_translator.Base.Scanf.{pos, int16}
use ds4_translator.Base.Scanf.Tokens.{Below}
use ds4_translator.Base.Scanf.Fits.{IsLine}
use ds4_translator.Broadcast.{shown_state, state_line, signed_axes}
use ds4_translator.Buttons.{decode_buttons, decode_dpad}
use ds4_translator.Buttons.Widths.{decode_buttons-lt}
use ds4_translator.Client.State.{
  InputState, TouchPoint, decode_touch_point, parse_state, format_state_line, state_byte0,
  state_byte1, state_byte2,
}
use ds4_translator.Client.State.RoundTrip.{
  IsSource, FitsState, Is16, FitsContact, received, parse_state_round_trip,
}
use ds4_translator.Report.{
  Common, TouchPoint as RawPoint, TouchReport, Axes, FitsCommon, FitsPoint, FitsTouch,
}

-- A contact of the report as the structure stores it: 12 bits each for both coordinates.
abbrev pub contact_of : RawPoint → TouchPoint
contact_of p = record {
  active = ltb p.contact 128;
  x = pos (p.x_lo + 256 * p.x_hi);
  y = pos (p.y_lo + 16 * p.y_hi);
}

same_bool : Bool → Bool → Bool
same_bool a b = if a then b else not b

same_bool_lem : (a b : Bool) → same_bool a b ≡ true → a ≡ b
unfolding same_bool
same_bool_lem a b h = ground arith

bit7_check : ℕ → Bool
bit7_check b = same_bool (bit_and b 0x80 == 0) (ltb b 128)

bit7_table : all_below 256 bit7_check ≡ true
unfolding all_below bit7_check same_bool
bit7_table = refl

high_check : ℕ → Bool
high_check b = bit_and b 0xF0 / 2 ^ 4 == b / 16

high_table : all_below 256 high_check ≡ true
unfolding all_below high_check
high_table = refl

bit7 : (b : ℕ) → b < 256 → (bit_and b 0x80 == 0) ≡ ltb b 128
unfolding bit7_check
bit7 b h = same_bool_lem _ (ltb b 128) (all_below_sound 256 bit7_check b bit7_table h)

high_nibble : (b : ℕ) → b < 256 → bit_and b 0xF0 / 2 ^ 4 ≡ b / 16
unfolding high_check
high_nibble b h = (==_iff _ (b / 16)).0 (all_below_sound 256 high_check b high_table h)

-- The daemon packs a contact into four bytes and the client unpacks them.
pub decode_touch_point_lem :
    (p : RawPoint)
    → FitsPoint p
    → decode_touch_point p.contact p.x_lo (u8 (bit_or p.x_hi (p.y_lo * 2 ^ 4))) p.y_hi
      ≡ contact_of p
unfolding decode_touch_point
decode_touch_point_lem p f =
    let shared : u8 (bit_or p.x_hi (p.y_lo * 2 ^ 4)) ≡ p.y_lo * 16 + p.x_hi =
      rw (bit_or-disjoint 4 p.y_lo p.x_hi f.x_hi_fits) (omega (arith, f.x_hi_fits, f.y_lo_fits)) in
    let b = p.y_lo * 16 + p.x_hi in
    let fits : b < 256 = omega (arith, f.x_hi_fits, f.y_lo_fits) in
    let low : bit_and b 0x0F ≡ p.x_hi = bit_and_0x0f b ∙ omega (arith, f.x_hi_fits) in
    let high : bit_and b 0xF0 / 2 ^ 4 ≡ p.y_lo = high_nibble b fits ∙ omega (arith, f.x_hi_fits) in
    rw
      (
        shared,
        low,
        high,
        bit7 p.contact f.contact_fits,
        bit_or-disjoint 8 p.x_hi p.x_lo f.x_lo_fits,
        bit_or-disjoint 4 p.y_hi p.y_lo f.y_lo_fits,
      )
      (ground arith)

-- The reading of a report, for a source.
abbrev pub reading : Bytes → Common → TouchReport → InputState
reading source c t = record {
  source = source;
  lx = c.x;
  ly = c.y;
  rx = c.rx;
  ry = c.ry;
  l2 = c.z;
  r2 = c.rz;
  buttons = decode_buttons c.buttons0 c.buttons1 c.buttons2;
  dpad = c.buttons0 % 16;
  gyro = signed_axes c.gyro;
  accel = signed_axes c.accel;
  touch0 = contact_of t.point0;
  touch1 = contact_of t.point1;
  has_motion = true;
  has_touch = true;
}

int16-Below : (n : ℕ) → Below 32768 (int16 n)
int16-Below n = ground arith

signed_axes-Is16 : (a : Axes) → Is16 (signed_axes a)
signed_axes-Is16 a = (int16-Below a.first, int16-Below a.second, int16-Below a.third)

contact_of-FitsContact : (p : RawPoint) → FitsPoint p → FitsContact (contact_of p)
contact_of-FitsContact p f = omega (arith, f.x_lo_fits, f.x_hi_fits, f.y_lo_fits, f.y_hi_fits)

shown :
    (source : Bytes) (c : Common) (t : TouchReport)
    → FitsTouch t
    → received source (shown_state c t) ≡ reading source c t
unfolding shown_state decode_dpad
shown source c t f =
    rw
      (
        decode_touch_point_lem t.point0 f.point0_fits,
        decode_touch_point_lem t.point1 f.point1_fits,
        bit_and_0x0f c.buttons0,
      )
      refl

reading-FitsState :
    (source : Bytes) (c : Common) (t : TouchReport)
    → FitsCommon c
    → FitsTouch t
    → FitsState (reading source c t)
reading-FitsState source c t f g = record {
  sticks_fit = ground (arith, f.x_fits, f.y_fits, f.rx_fits, f.ry_fits, f.z_fits, f.rz_fits);
  buttons_fit = decode_buttons-lt c.buttons0 c.buttons1 c.buttons2;
  dpad_fits = omega arith;
  gyro_fits = signed_axes-Is16 c.gyro;
  accel_fits = signed_axes-Is16 c.accel;
  touch0_fits = contact_of-FitsContact t.point0 g.point0_fits;
  touch1_fits = contact_of-FitsContact t.point1 g.point1_fits;
}

-- For every report of the members' widths and every source of one word, what a subscriber is sent is
-- one line with a newline behind it, and `parse_state` reads from that line the sticks, triggers,
-- buttons, hat, signed motion and unpacked contacts of that report.
pub state_line_read :
    (source : Bytes) (c : Common) (t : TouchReport)
    → IsSource source
    → FitsCommon c
    → FitsTouch t
    → (line : Bytes) × (state_line source c t ≡ line ++ 10 ∷ [])
      × IsLine line
      × (parse_state line ≡ some (reading source c t))
unfolding state_line format_state_line state_byte0 state_byte1 state_byte2
state_line_read source c t g f h =
    let (line, written, one_line, read) =
      parse_state_round_trip source (reading source c t) g (reading-FitsState source c t f h) in
    (line, ap (λ s. format_state_line source s) (shown source c t h) ∙ written, one_line, read)
