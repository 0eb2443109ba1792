-- ===== src/Report/RoundTrip.antt =====
-- An emulated DualShock 4 shows what the physical controller sent: the daemon's own reader of USB
-- reports takes back from the emitted bytes what went in.
use ds4_translator.Base.{ℕ, zero, suc, ◌+◌, ◌*◌, ◌/◌, ◌%◌, ◌<◌, ◌≡◌, ltb, if◌then◌else◌, arith}
use ds4_translator.Report.{
  TouchPoint, TouchReport, Touches, zero_touch, FitsPoint, FitsTouch, FitsTouches,
}
use ds4_translator.Report.Emit.{touch_at, capped_touches, released_touch}

pub word_join : (n : ℕ) → n % 256 + 256 * (n / 256) ≡ n
word_join n = omega arith

nibble_low : (a b : ℕ) → a < 16 → (a + 16 * b) % 16 ≡ a
nibble_low a b h = omega arith

nibble_high : (a b : ℕ) → a < 16 → (a + 16 * b) / 16 ≡ b
nibble_high a b h = omega arith

-- A contact, through the byte that its two high halves share.
abbrev pub packed : TouchPoint → TouchPoint
packed p = record p { x_hi = (p.x_hi + 16 * p.y_lo) % 16; y_lo = (p.x_hi + 16 * p.y_lo) / 16 }

pub joined : (p : TouchPoint) → FitsPoint p → packed p ≡ p
joined p f = ground (arith, nibble_low p.x_hi p.y_lo, nibble_high p.x_hi p.y_lo)

abbrev packed_touch : TouchReport → TouchReport
packed_touch t = record t { point0 = packed t.point0; point1 = packed t.point1 }

pub released-FitsTouch : FitsTouch released_touch
released-FitsTouch = omega arith

pub touch_at-FitsTouch : (ts : Touches) (i : ℕ) → FitsTouches ts → FitsTouch (touch_at ts i)
touch_at-FitsTouch ts zero f = f.t0_fits
touch_at-FitsTouch ts (suc zero) f = f.t1_fits
touch_at-FitsTouch ts (suc (suc zero)) f = f.t2_fits
touch_at-FitsTouch ts (suc (suc (suc i))) f = f.t3_fits

-- What of the touch data one USB report has room for: the slots up to the capped number.
abbrev pub sent_touch : ℕ → Touches → ℕ → TouchReport
sent_touch n ts i = if ltb i (capped_touches n) then touch_at ts i else zero_touch

abbrev pub sent_touches : ℕ → Touches → Touches
sent_touches n ts = record {
  t0 = sent_touch n ts 0;
  t1 = sent_touch n ts 1;
  t2 = sent_touch n ts 2;
  t3 = zero_touch;
}
