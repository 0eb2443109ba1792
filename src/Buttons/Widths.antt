-- ===== src/Buttons/Widths.antt =====
-- A number that is put together bit by bit keeps to the width of its masks.
use ds4_translator.Base.{ℕ, ◌<◌, ◌^◌, List, [], ◌∷◌, All, arith}
use ds4_translator.Base.Bits.Unions.{bit_or-lt}
use ds4_translator.Buttons
use ds4_translator.Buttons.{or_if, decode_buttons}

-- One `if (bits & tested) x |= mask;`
abbrev pub Choice : Type 0
Choice = ℕ × ℕ × ℕ

-- The last choice stands first.
unfoldable pub ors : List Choice → ℕ → ℕ
ors [] v = v
ors ((bits, tested, mask) ∷ rest) v = or_if bits tested mask (ors rest v)

abbrev pub Within : ℕ → Choice → Type 0
Within k (bits, tested, mask) = mask < 2 ^ k

pub ors-lt : (k : ℕ) (cs : List Choice) (v : ℕ) → All (Within k) cs → v < 2 ^ k → ors cs v < 2 ^ k
unfolding ors
ors-lt k [] v h lt = lt
ors-lt k ((bits, tested, mask) ∷ rest) v h lt =
    let below = ors-lt k rest v h.1 lt in ground (arith, h.0, bit_or-lt k (ors rest v) mask below)

pub decode_buttons-lt : (byte0 byte1 byte2 : ℕ) → decode_buttons byte0 byte1 byte2 < 16384
unfolding decode_buttons ors
decode_buttons-lt byte0 byte1 byte2 =
    ors-lt 14
      ((byte2, 0x02, Buttons.touchpad)
        ∷ (byte2, 0x01, Buttons.ps)
        ∷ (byte1, 0x80, Buttons.r3)
        ∷ (byte1, 0x40, Buttons.l3)
        ∷ (byte1, 0x20, Buttons.options)
        ∷ (byte1, 0x10, Buttons.share)
        ∷ (byte1, 0x08, Buttons.r2)
        ∷ (byte1, 0x04, Buttons.l2)
        ∷ (byte1, 0x02, Buttons.r1)
        ∷ (byte1, 0x01, Buttons.l1)
        ∷ (byte0, 0x80, Buttons.triangle)
        ∷ (byte0, 0x40, Buttons.circle)
        ∷ (byte0, 0x20, Buttons.cross)
        ∷ (byte0, 0x10, Buttons.square)
        ∷ [])
      0 (ground arith) (omega arith)
