-- ===== src/Synth/RoundTrip.antt =====
-- The buttons asked for are the buttons that a reader of the report finds.
use ds4_translator.Base.{
  ℕ, ◌*◌, ◌%◌, ◌^◌, ◌<◌, Bool, true, false, ◌&&◌, ◌≡◌, refl, sym, ◌∙◌, bit_and, bit_or, has, u8,
  ◌==◌, if◌then◌else◌, arith, all_below, all_below_sound, ==_iff,
}
use ds4_translator.Base.Bits.Masks.{bit_and_0x0f, bit_and_mask}
use ds4_translator.Buttons
use ds4_translator.Buttons.{decode_buttons, decode_dpad, or_if}
use ds4_translator.Synth.{
  SyntheticState, synthetic_byte0, synthetic_byte1, synthetic_byte2, build_synthetic_common,
}

-- A check of both values of a Boolean.
abbrev each : (Bool → Bool) → Bool
each f = f true && f false

each_sound : (f : Bool → Bool) (b : Bool) → each f ≡ true → f b ≡ true
each_sound f true h = ground arith
each_sound f false h = ground arith

abbrev agree : Bool → Bool → Bool
agree true b = b
agree false true = false
agree false false = true

agree_lem : (a b : Bool) → agree a b ≡ true → a ≡ b
agree_lem a b h = ground arith

abbrev put : Bool → ℕ → ℕ → ℕ
put set mask x = if set then bit_or x mask else x

-- The three bytes as functions of the bits asked for.
face : Bool → Bool → Bool → Bool → ℕ → ℕ
face p q r s v = put p 0x80 (put q 0x40 (put r 0x20 (put s 0x10 v)))

face_check : Bool → Bool → Bool → Bool → ℕ → Bool
face_check p q r s v =
    let x = face p q r s v in
    agree (has x 0x80) p
    && agree (has x 0x40) q
    && agree (has x 0x20) r
    && agree (has x 0x10) s
    && bit_and x 0x0F == v

face_table :
    each (λ p. each (λ q. each (λ r. each (λ s. all_below 16 (face_check p q r s))))) ≡ true
unfolding all_below face_check face
face_table = refl

face_lem : (p q r s : Bool) (v : ℕ) → v < 16 → face_check p q r s v ≡ true
face_lem p q r s v h =
    all_below_sound 16 (face_check p q r s) v
      (each_sound (λ s. all_below 16 (face_check p q r s)) s
        (each_sound (λ r. each (λ s. all_below 16 (face_check p q r s))) r
          (each_sound (λ q. each (λ r. each (λ s. all_below 16 (face_check p q r s)))) q
            (each_sound (λ p. each (λ q. each (λ r. each (λ s. all_below 16 (face_check p q r s)))))
              p face_table))))
      h

record FaceBits (b dpad : ℕ) : Type 0 where
  triangle : has (synthetic_byte0 b dpad) 0x80 ≡ has b Buttons.triangle
  circle : has (synthetic_byte0 b dpad) 0x40 ≡ has b Buttons.circle
  cross : has (synthetic_byte0 b dpad) 0x20 ≡ has b Buttons.cross
  square : has (synthetic_byte0 b dpad) 0x10 ≡ has b Buttons.square
  hat : bit_and (synthetic_byte0 b dpad) 0x0F ≡ bit_and dpad 0x0F

and-true : (a b : Bool) → (a && b) ≡ true → (a ≡ true) × (b ≡ true)
and-true a b h = ground arith

face_bits : (b dpad : ℕ) → FaceBits b dpad
unfolding synthetic_byte0 face face_check
face_bits b dpad =
    let v = bit_and dpad 0x0F in
    let fits : v < 16 = rw bit_and_0x0f (omega arith) in
    let x = synthetic_byte0 b dpad in
    let t = has b Buttons.triangle in
    let ci = has b Buttons.circle in
    let cr = has b Buttons.cross in
    let sq = has b Buttons.square in
    let c4 = and-true _ (bit_and x 0x0F == v) (face_lem t ci cr sq v fits) in
    let c3 = and-true _ (agree (has x 0x10) sq) c4.0 in
    let c2 = and-true _ (agree (has x 0x20) cr) c3.0 in
    let c1 = and-true (agree (has x 0x80) t) (agree (has x 0x40) ci) c2.0 in
    record {
      triangle = agree_lem _ _ c1.0;
      circle = agree_lem _ _ c1.1;
      cross = agree_lem _ _ c2.1;
      square = agree_lem _ _ c3.1;
      hat = (==_iff _ _).0 c4.1;
    }

-- The PS and touchpad bits, under the counter in the six bits above.
low : Bool → Bool → ℕ → ℕ
low t p v = put t 0x02 (put p 0x01 (u8 (v * 2 ^ 2)))

low_check : Bool → Bool → ℕ → Bool
low_check t p v = agree (has (low t p v) 0x02) t && agree (has (low t p v) 0x01) p

low_table : each (λ t. each (λ p. all_below 64 (low_check t p))) ≡ true
unfolding all_below low_check low
low_table = refl

record LowBits (b counter : ℕ) : Type 0 where
  touchpad : has (synthetic_byte2 b counter) 0x02 ≡ has b Buttons.touchpad
  ps : has (synthetic_byte2 b counter) 0x01 ≡ has b Buttons.ps

low_bits : (b counter : ℕ) → LowBits b counter
unfolding synthetic_byte2 low low_check
low_bits b counter =
    let v = bit_and counter 0x3F in
    let fits : v < 64 = rw (bit_and_mask 6 counter) (omega arith) in
    let t = has b Buttons.touchpad in
    let p = has b Buttons.ps in
    let both = each_sound (λ t. each (λ p. all_below 64 (low_check t p))) t low_table in
    let checked =
      all_below_sound 64 (low_check t p) v (each_sound (λ p. all_below 64 (low_check t p)) p both)
        fits in
    let c = and-true (agree (has (synthetic_byte2 b counter) 0x02) t) _ checked in
    record { touchpad = agree_lem _ _ c.0; ps = agree_lem _ _ c.1 }

-- What `decode_buttons` does with the bits that it tests in the first and third byte.
decode_from : Bool → Bool → Bool → Bool → ℕ → Bool → Bool → ℕ
decode_from t c x s byte1 p tp =
    let b0 =
      put t Buttons.triangle
        (put c Buttons.circle (put x Buttons.cross (put s Buttons.square 0))) in
    let b1 = or_if byte1 0x08 Buttons.r2 (
      or_if byte1 0x04 Buttons.l2 (or_if byte1 0x02 Buttons.r1 (or_if byte1 0x01 Buttons.l1 b0))) in
    let b2 = or_if byte1 0x80 Buttons.r3 (
      or_if byte1 0x40 Buttons.l3
        (or_if byte1 0x20 Buttons.options (or_if byte1 0x10 Buttons.share b1))) in
    put tp Buttons.touchpad (put p Buttons.ps b2)

decode_from_lem :
    (b dpad counter : ℕ)
    → decode_buttons (synthetic_byte0 b dpad) (synthetic_byte1 b) (synthetic_byte2 b counter)
      ≡ decode_from
          (has b Buttons.triangle)
          (has b Buttons.circle)
          (has b Buttons.cross)
          (has b Buttons.square)
          (synthetic_byte1 b)
          (has b Buttons.ps)
          (has b Buttons.touchpad)
unfolding decode_buttons decode_from
decode_from_lem b dpad counter =
    let f = face_bits b dpad in
    let l = low_bits b counter in
    λ i.
      decode_from (f.triangle i) (f.circle i) (f.cross i) (f.square i) (synthetic_byte1 b) (l.ps i)
        (l.touchpad i)

check_all : ℕ → Bool
check_all b = decode_buttons (synthetic_byte0 b 8) (synthetic_byte1 b) (synthetic_byte2 b 0) == b

table : all_below 16384 check_all ≡ true
unfolding all_below check_all decode_buttons synthetic_byte0 synthetic_byte1 synthetic_byte2
table = refl

-- For every set of the fourteen buttons, every hat value and every counter, the client's
-- `decode_buttons` finds in the report that `build_synthetic_common` builds exactly the buttons that
-- were asked for, and the low four bits of the hat; the sticks and triggers are those of the state.
pub build_synthetic_common_round_trip :
    (s : SyntheticState) (counter : ℕ)
    → s.buttons < 16384
    → let c = (build_synthetic_common s counter).0 in
      (decode_buttons c.buttons0 c.buttons1 c.buttons2 ≡ s.buttons)
      × (decode_dpad c.buttons0 ≡ s.dpad % 16)
      × (c.x ≡ s.lx)
      × (c.y ≡ s.ly)
      × (c.rx ≡ s.rx)
      × (c.ry ≡ s.ry)
      × (c.z ≡ s.l2_analog)
      × (c.rz ≡ s.r2_analog)
unfolding build_synthetic_common decode_dpad check_all
build_synthetic_common_round_trip s counter h =
    let b = s.buttons in
    let known = (==_iff _ b).0 (all_below_sound 16384 check_all b table h) in
    (
      decode_from_lem b s.dpad counter ∙ sym (decode_from_lem b 8 0) ∙ known,
      (face_bits b s.dpad).hat ∙ bit_and_0x0f s.dpad,
      refl,
      refl,
      refl,
      refl,
      refl,
      refl,
    )
