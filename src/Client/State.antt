-- ===== src/Client/State.antt =====
-- src/ipc-client.cpp, the line of one input state: `format_state_line` and `parse_state`, with
-- `decode_touch_point` and `dpad_name`.
pub mod RoundTrip
use ds4_translator.Base.{
  ℕ, zero, suc, ◌+◌, ◌*◌, ◌/◌, ◌^◌, Bool, true, false, not, ◌&&◌, ◌||◌, Option, none, some, List,
  [], ◌∷◌, ◌++◌, Bytes, length, get_or, u8, bit_and, bit_or, has, ◌==◌, leb, if◌then◌else◌,
}
use ds4_translator.Base.Text.{text, starts_with}
use ds4_translator.Base.Strtoul.{print}
use ds4_translator.Base.Scanf.{
  ℤ, pos, int16, int32, print_int, print_byte, snprintf, Directive, word, unsigned, hexadecimal,
  decimal, Field, bits, sscanf, literals, spaced_format, spaced,
}
use ds4_translator.Buttons
use ds4_translator.Buttons.{decode_buttons, decode_dpad, or_if}
use ds4_translator.Client.Lines.{text_of, value_at}

pub record TouchPoint : Type 0 where
  pub active : Bool
  pub x : ℤ
  pub y : ℤ

-- `int16_t[3]`
pub record Three : Type 0 where
  pub v0 : ℤ
  pub v1 : ℤ
  pub v2 : ℤ

pub record InputState : Type 0 where
  pub source : Bytes
  pub lx : ℕ
  pub ly : ℕ
  pub rx : ℕ
  pub ry : ℕ
  pub l2 : ℕ
  pub r2 : ℕ
  pub buttons : ℕ
  pub dpad : ℕ
  pub gyro : Three
  pub accel : Three
  pub touch0 : TouchPoint
  pub touch1 : TouchPoint
  pub has_motion : Bool
  pub has_touch : Bool

abbrev pub no_motion : Three
no_motion = record { v0 = pos 0; v1 = pos 0; v2 = pos 0 }

abbrev pub no_contact : TouchPoint
no_contact = record { active = false; x = pos 0; y = pos 0 }

unfoldable pub dpad_name : ℕ → Bytes
dpad_name dpad =
    if dpad == 0
    then text "Up"
    else if dpad == 1
    then text "Up-Right"
    else if dpad == 2
    then text "Right"
    else if dpad == 3
    then text "Down-Right"
    else if dpad == 4
    then text "Down"
    else if dpad == 5
    then text "Down-Left"
    else if dpad == 6
    then text "Left"
    else if dpad == 7
    then text "Up-Left"
    else text "Neutral"

-- A contact out of its four bytes.
unfoldable pub decode_touch_point : ℕ → ℕ → ℕ → ℕ → TouchPoint
decode_touch_point b0 b1 b2 b3 = record {
  active = bit_and b0 0x80 == 0;
  x = pos (bit_or b1 (bit_and b2 0x0F * 2 ^ 8));
  y = pos (bit_or (bit_and b2 0xF0 / 2 ^ 4) (b3 * 2 ^ 4));
}

-- The three button bytes of `format_state_line`.
unfoldable pub state_byte0 : InputState → ℕ
state_byte0 s = or_if s.buttons Buttons.triangle 0x80 (
    or_if s.buttons Buttons.circle 0x40 (
      or_if s.buttons Buttons.cross 0x20
        (or_if s.buttons Buttons.square 0x10 (bit_and s.dpad 0x0F))))

unfoldable pub state_byte1 : InputState → ℕ
state_byte1 s = or_if s.buttons Buttons.r3 0x80 (
    or_if s.buttons Buttons.l3 0x40 (
      or_if s.buttons Buttons.options 0x20 (
        or_if s.buttons Buttons.share 0x10 (
          or_if s.buttons Buttons.r2 0x08 (
            or_if s.buttons Buttons.l2 0x04
              (or_if s.buttons Buttons.r1 0x02 (or_if s.buttons Buttons.l1 0x01 0)))))))

unfoldable pub state_byte2 : InputState → ℕ
state_byte2 s = or_if s.buttons Buttons.touchpad 0x02 (or_if s.buttons Buttons.ps 0x01 0)

abbrev pub flag : Bool → ℤ
flag b = if b then pos 1 else pos 0

abbrev pub axes : InputState → List ℕ
axes s = s.lx ∷ s.ly ∷ s.rx ∷ s.ry ∷ s.l2 ∷ s.r2 ∷ []

abbrev pub button_bytes : InputState → List ℕ
button_bytes s = state_byte0 s ∷ state_byte1 s ∷ state_byte2 s ∷ []

abbrev pub state_ints : InputState → List ℤ
state_ints s =
    s.gyro.v0
    ∷ s.gyro.v1
    ∷ s.gyro.v2
    ∷ s.accel.v0
    ∷ s.accel.v1
    ∷ s.accel.v2
    ∷ flag s.touch0.active
    ∷ s.touch0.x
    ∷ s.touch0.y
    ∷ flag s.touch1.active
    ∷ s.touch1.x
    ∷ s.touch1.y
    ∷ []

abbrev pub print_all {ℓ} : {A : Type ℓ} → (A → Bytes) → List A → List Bytes
print_all print_one [] = []
print_all print_one (a ∷ rest) = print_one a ∷ print_all print_one rest

unfoldable pub format_state_line : Bytes → InputState → Bytes
unfolding snprintf spaced print print_byte print_int state_byte0 state_byte1 state_byte2
format_state_line source s = snprintf 256 (
    text "STATE"
    ++ spaced (10 ∷ []) (
        source ∷ print_all (print 10) (axes s)
        ++ print_all print_byte (button_bytes s)
        ++ print_all print_int (state_ints s)))

abbrev pub copies : ℕ → Directive → List Directive
copies zero d = []
copies (suc n) d = d ∷ copies n d

-- "STATE %15s", six times " %u", three times " %x", twelve times " %d".
abbrev pub state_format : List Directive
state_format =
    literals (text "STATE")
      (spaced_format (word 15 ∷ copies 6 unsigned ++ copies 3 hexadecimal ++ copies 12 decimal))

abbrev pub motion_at : List Field → ℕ → Three
motion_at fields i = record {
  v0 = int16 (value_at fields i);
  v1 = int16 (value_at fields (i + 1));
  v2 = int16 (value_at fields (i + 2));
}

abbrev pub touch_at : List Field → ℕ → TouchPoint
touch_at fields i = record {
  active = not (value_at fields i == 0);
  x = int32 (value_at fields (i + 1));
  y = int32 (value_at fields (i + 2));
}

-- 16 fields are a line without touch, 10 one without motion too.
unfoldable pub state_of : List Field → Option InputState
unfolding decode_buttons decode_dpad
state_of fields =
    let n = length fields in
    let b0 = u8 (value_at fields 7) in
    if not (n == 22) && not (n == 16) && not (n == 10)
    then none
    else some (record {
      source = text_of (get_or fields 0 (bits 0));
      lx = u8 (value_at fields 1);
      ly = u8 (value_at fields 2);
      rx = u8 (value_at fields 3);
      ry = u8 (value_at fields 4);
      l2 = u8 (value_at fields 5);
      r2 = u8 (value_at fields 6);
      buttons = decode_buttons b0 (u8 (value_at fields 8)) (u8 (value_at fields 9));
      dpad = decode_dpad b0;
      gyro = if leb 16 n then motion_at fields 10 else no_motion;
      accel = if leb 16 n then motion_at fields 13 else no_motion;
      touch0 = if n == 22 then touch_at fields 16 else no_contact;
      touch1 = if n == 22 then touch_at fields 19 else no_contact;
      has_motion = leb 16 n;
      has_touch = n == 22;
    })

unfoldable pub parse_state : Bytes → Option InputState
unfolding sscanf state_of starts_with
parse_state line =
    if not (starts_with (text "STATE ") line) then none else state_of (sscanf line state_format)
