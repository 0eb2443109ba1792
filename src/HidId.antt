-- ===== src/HidId.antt =====
-- src/hid-unbind-detect.cpp, `parse_hid_id`: the bus, vendor and product of a device on the HID bus.
pub mod Nodes
pub mod Uevent
pub mod Events
pub mod Agree
pub mod Physical
pub mod RoundTrip
use ds4_translator.Base.{
  ℕ, Bool, true, false, not, ◌||◌, Option, none, some, [], ◌∷◌, Bytes, ◌==◌, if◌then◌else◌, u32,
  ◌>>=◌,
}
use ds4_translator.Base.Text.{empty}
use ds4_translator.Base.Strtoul.{Conversion, strtoul}

-- The text before the first byte `c`, and the text behind it; `none` for `npos`.
abbrev pub behind : ℕ → Option (Bytes × Bytes) → Option (Bytes × Bytes)
behind x none = none
behind x (some (front, back)) = some (x ∷ front, back)

unfoldable pub cut : ℕ → Bytes → Option (Bytes × Bytes)
cut c [] = none
cut c (x ∷ s) = let rest = cut c s in if x == c then some ([], s) else behind x rest

abbrev pub before : Bytes → Option (Bytes × Bytes) → Bytes
before s none = s
before s (some (front, back)) = front

pub record HidId : Type 0 where
  pub bus : ℕ
  pub vendor : ℕ
  pub product : ℕ

-- A number in base 16 that ends where the text ends, cast to `unsigned`.
unfoldable pub parse_hex : Bytes → Option ℕ
unfolding strtoul
parse_hex s =
    let c = strtoul 16 s in if not (empty c.rest) || c.range_error then none else some (u32 c.value)

unfoldable pub parse_parts : Bytes → Bytes → Bytes → Option HidId
unfolding parse_hex
parse_parts bus_s vendor_s product_s =
    if empty bus_s || empty vendor_s || empty product_s then none else do
      bus ← parse_hex bus_s
      vendor ← parse_hex vendor_s
      product ← parse_hex product_s
      some (record { bus = bus; vendor = vendor; product = product })

-- The product ends at the first dot behind the second colon, or at the end.
unfoldable pub parse_hid_id : Bytes → Option HidId
unfolding cut parse_parts
parse_hid_id hid_id = elim (cut 58 hid_id) [
  | none ↦ none
  | some (bus_s, rest) ↦ elim (cut 58 rest) [
    | none ↦ none
    | some (vendor_s, tail) ↦ parse_parts bus_s vendor_s (before tail (cut 46 tail))
  ]
]
