-- ===== src/Uhid/Descriptors.antt =====
-- src/descriptors.h, the HID report descriptors of the emulated controllers, and the sizes that a
-- descriptor declares, by the short items of the HID specification.
use ds4_translator.Base.{
  ℕ, zero, suc, ◌+◌, ◌-◌, ◌*◌, ◌/◌, ◌%◌, ◌&&◌, length, [], ◌∷◌, Bytes, ◌==◌, take, drop,
  if◌then◌else◌,
}

-- `ds4_usb_rdesc`
abbrev pub ds4_usb_rdesc : Bytes
ds4_usb_rdesc =
    0x05 ∷ 0x01 ∷ 0x09 ∷ 0x05 ∷ 0xa1 ∷ 0x01 ∷ 0x85 ∷ 0x01 ∷ 0x09 ∷ 0x30 ∷ 0x09 ∷ 0x31 ∷ 0x09 ∷ 0x32
    ∷ 0x09 ∷ 0x35 ∷ 0x15 ∷ 0x00 ∷ 0x26 ∷ 0xff ∷ 0x00 ∷ 0x75 ∷ 0x08 ∷ 0x95 ∷ 0x04 ∷ 0x81 ∷ 0x02
    ∷ 0x09 ∷ 0x39 ∷ 0x15 ∷ 0x00 ∷ 0x25 ∷ 0x07 ∷ 0x35 ∷ 0x00 ∷ 0x46 ∷ 0x3b ∷ 0x01 ∷ 0x65 ∷ 0x14
    ∷ 0x75 ∷ 0x04 ∷ 0x95 ∷ 0x01 ∷ 0x81 ∷ 0x42 ∷ 0x65 ∷ 0x00 ∷ 0x05 ∷ 0x09 ∷ 0x19 ∷ 0x01 ∷ 0x29
    ∷ 0x0e ∷ 0x15 ∷ 0x00 ∷ 0x25 ∷ 0x01 ∷ 0x75 ∷ 0x01 ∷ 0x95 ∷ 0x0e ∷ 0x81 ∷ 0x02 ∷ 0x06 ∷ 0x00
    ∷ 0xff ∷ 0x09 ∷ 0x20 ∷ 0x75 ∷ 0x06 ∷ 0x95 ∷ 0x01 ∷ 0x15 ∷ 0x00 ∷ 0x25 ∷ 0x7f ∷ 0x81 ∷ 0x02
    ∷ 0x05 ∷ 0x01 ∷ 0x09 ∷ 0x33 ∷ 0x09 ∷ 0x34 ∷ 0x15 ∷ 0x00 ∷ 0x26 ∷ 0xff ∷ 0x00 ∷ 0x75 ∷ 0x08
    ∷ 0x95 ∷ 0x02 ∷ 0x81 ∷ 0x02 ∷ 0x06 ∷ 0x00 ∷ 0xff ∷ 0x09 ∷ 0x21 ∷ 0x95 ∷ 0x36 ∷ 0x81 ∷ 0x02
    ∷ 0x85 ∷ 0x05 ∷ 0x09 ∷ 0x22 ∷ 0x95 ∷ 0x1f ∷ 0x91 ∷ 0x02 ∷ 0x85 ∷ 0x04 ∷ 0x09 ∷ 0x23 ∷ 0x95
    ∷ 0x24 ∷ 0xb1 ∷ 0x02 ∷ 0x85 ∷ 0x02 ∷ 0x09 ∷ 0x24 ∷ 0x95 ∷ 0x24 ∷ 0xb1 ∷ 0x02 ∷ 0x85 ∷ 0x08
    ∷ 0x09 ∷ 0x25 ∷ 0x95 ∷ 0x03 ∷ 0xb1 ∷ 0x02 ∷ 0x85 ∷ 0x10 ∷ 0x09 ∷ 0x26 ∷ 0x95 ∷ 0x04 ∷ 0xb1
    ∷ 0x02 ∷ 0x85 ∷ 0x11 ∷ 0x09 ∷ 0x27 ∷ 0x95 ∷ 0x02 ∷ 0xb1 ∷ 0x02 ∷ 0x85 ∷ 0x12 ∷ 0x06 ∷ 0x02
    ∷ 0xff ∷ 0x09 ∷ 0x21 ∷ 0x95 ∷ 0x0f ∷ 0xb1 ∷ 0x02 ∷ 0x85 ∷ 0x13 ∷ 0x09 ∷ 0x22 ∷ 0x95 ∷ 0x16
    ∷ 0xb1 ∷ 0x02 ∷ 0x85 ∷ 0x14 ∷ 0x06 ∷ 0x05 ∷ 0xff ∷ 0x09 ∷ 0x20 ∷ 0x95 ∷ 0x10 ∷ 0xb1 ∷ 0x02
    ∷ 0x85 ∷ 0x15 ∷ 0x09 ∷ 0x21 ∷ 0x95 ∷ 0x2c ∷ 0xb1 ∷ 0x02 ∷ 0x06 ∷ 0x80 ∷ 0xff ∷ 0x85 ∷ 0x80
    ∷ 0x09 ∷ 0x20 ∷ 0x95 ∷ 0x06 ∷ 0xb1 ∷ 0x02 ∷ 0x85 ∷ 0x81 ∷ 0x09 ∷ 0x21 ∷ 0x95 ∷ 0x06 ∷ 0xb1
    ∷ 0x02 ∷ 0x85 ∷ 0x82 ∷ 0x09 ∷ 0x22 ∷ 0x95 ∷ 0x05 ∷ 0xb1 ∷ 0x02 ∷ 0x85 ∷ 0x83 ∷ 0x09 ∷ 0x23
    ∷ 0x95 ∷ 0x01 ∷ 0xb1 ∷ 0x02 ∷ 0x85 ∷ 0x84 ∷ 0x09 ∷ 0x24 ∷ 0x95 ∷ 0x04 ∷ 0xb1 ∷ 0x02 ∷ 0x85
    ∷ 0x85 ∷ 0x09 ∷ 0x25 ∷ 0x95 ∷ 0x06 ∷ 0xb1 ∷ 0x02 ∷ 0x85 ∷ 0x86 ∷ 0x09 ∷ 0x26 ∷ 0x95 ∷ 0x06
    ∷ 0xb1 ∷ 0x02 ∷ 0x85 ∷ 0x87 ∷ 0x09 ∷ 0x27 ∷ 0x95 ∷ 0x23 ∷ 0xb1 ∷ 0x02 ∷ 0x85 ∷ 0x88 ∷ 0x09
    ∷ 0x28 ∷ 0x95 ∷ 0x3f ∷ 0xb1 ∷ 0x02 ∷ 0x85 ∷ 0x89 ∷ 0x09 ∷ 0x29 ∷ 0x95 ∷ 0x02 ∷ 0xb1 ∷ 0x02
    ∷ 0x85 ∷ 0x90 ∷ 0x09 ∷ 0x30 ∷ 0x95 ∷ 0x05 ∷ 0xb1 ∷ 0x02 ∷ 0x85 ∷ 0x91 ∷ 0x09 ∷ 0x31 ∷ 0x95
    ∷ 0x03 ∷ 0xb1 ∷ 0x02 ∷ 0x85 ∷ 0x92 ∷ 0x09 ∷ 0x32 ∷ 0x95 ∷ 0x03 ∷ 0xb1 ∷ 0x02 ∷ 0x85 ∷ 0x93
    ∷ 0x09 ∷ 0x33 ∷ 0x95 ∷ 0x0c ∷ 0xb1 ∷ 0x02 ∷ 0x85 ∷ 0x94 ∷ 0x09 ∷ 0x34 ∷ 0x95 ∷ 0x3f ∷ 0xb1
    ∷ 0x02 ∷ 0x85 ∷ 0xa0 ∷ 0x09 ∷ 0x40 ∷ 0x95 ∷ 0x06 ∷ 0xb1 ∷ 0x02 ∷ 0x85 ∷ 0xa1 ∷ 0x09 ∷ 0x41
    ∷ 0x95 ∷ 0x01 ∷ 0xb1 ∷ 0x02 ∷ 0x85 ∷ 0xa2 ∷ 0x09 ∷ 0x42 ∷ 0x95 ∷ 0x01 ∷ 0xb1 ∷ 0x02 ∷ 0x85
    ∷ 0xa3 ∷ 0x09 ∷ 0x43 ∷ 0x95 ∷ 0x30 ∷ 0xb1 ∷ 0x02 ∷ 0x85 ∷ 0xa4 ∷ 0x09 ∷ 0x44 ∷ 0x95 ∷ 0x0d
    ∷ 0xb1 ∷ 0x02 ∷ 0x85 ∷ 0xf0 ∷ 0x09 ∷ 0x47 ∷ 0x95 ∷ 0x3f ∷ 0xb1 ∷ 0x02 ∷ 0x85 ∷ 0xf1 ∷ 0x09
    ∷ 0x48 ∷ 0x95 ∷ 0x3f ∷ 0xb1 ∷ 0x02 ∷ 0x85 ∷ 0xf2 ∷ 0x09 ∷ 0x49 ∷ 0x95 ∷ 0x0f ∷ 0xb1 ∷ 0x02
    ∷ 0x85 ∷ 0xa7 ∷ 0x09 ∷ 0x4a ∷ 0x95 ∷ 0x01 ∷ 0xb1 ∷ 0x02 ∷ 0x85 ∷ 0xa8 ∷ 0x09 ∷ 0x4b ∷ 0x95
    ∷ 0x01 ∷ 0xb1 ∷ 0x02 ∷ 0x85 ∷ 0xa9 ∷ 0x09 ∷ 0x4c ∷ 0x95 ∷ 0x08 ∷ 0xb1 ∷ 0x02 ∷ 0x85 ∷ 0xaa
    ∷ 0x09 ∷ 0x4e ∷ 0x95 ∷ 0x01 ∷ 0xb1 ∷ 0x02 ∷ 0x85 ∷ 0xab ∷ 0x09 ∷ 0x4f ∷ 0x95 ∷ 0x39 ∷ 0xb1
    ∷ 0x02 ∷ 0x85 ∷ 0xac ∷ 0x09 ∷ 0x50 ∷ 0x95 ∷ 0x39 ∷ 0xb1 ∷ 0x02 ∷ 0x85 ∷ 0xad ∷ 0x09 ∷ 0x51
    ∷ 0x95 ∷ 0x0b ∷ 0xb1 ∷ 0x02 ∷ 0x85 ∷ 0xae ∷ 0x09 ∷ 0x52 ∷ 0x95 ∷ 0x01 ∷ 0xb1 ∷ 0x02 ∷ 0x85
    ∷ 0xaf ∷ 0x09 ∷ 0x53 ∷ 0x95 ∷ 0x02 ∷ 0xb1 ∷ 0x02 ∷ 0x85 ∷ 0xb0 ∷ 0x09 ∷ 0x54 ∷ 0x95 ∷ 0x3f
    ∷ 0xb1 ∷ 0x02 ∷ 0x85 ∷ 0xe0 ∷ 0x09 ∷ 0x57 ∷ 0x95 ∷ 0x02 ∷ 0xb1 ∷ 0x02 ∷ 0x85 ∷ 0xb3 ∷ 0x09
    ∷ 0x55 ∷ 0x95 ∷ 0x3f ∷ 0xb1 ∷ 0x02 ∷ 0x85 ∷ 0xb4 ∷ 0x09 ∷ 0x55 ∷ 0x95 ∷ 0x3f ∷ 0xb1 ∷ 0x02
    ∷ 0x85 ∷ 0xb5 ∷ 0x09 ∷ 0x56 ∷ 0x95 ∷ 0x3f ∷ 0xb1 ∷ 0x02 ∷ 0x85 ∷ 0xd0 ∷ 0x09 ∷ 0x58 ∷ 0x95
    ∷ 0x3f ∷ 0xb1 ∷ 0x02 ∷ 0x85 ∷ 0xd4 ∷ 0x09 ∷ 0x59 ∷ 0x95 ∷ 0x3f ∷ 0xb1 ∷ 0x02 ∷ 0xc0 ∷ []

-- `dualsense_usb_rdesc`
abbrev pub dualsense_usb_rdesc : Bytes
dualsense_usb_rdesc =
    0x05 ∷ 0x01 ∷ 0x09 ∷ 0x05 ∷ 0xa1 ∷ 0x01 ∷ 0x85 ∷ 0x01 ∷ 0x09 ∷ 0x30 ∷ 0x09 ∷ 0x31 ∷ 0x09 ∷ 0x32
    ∷ 0x09 ∷ 0x35 ∷ 0x09 ∷ 0x33 ∷ 0x09 ∷ 0x34 ∷ 0x15 ∷ 0x00 ∷ 0x26 ∷ 0xff ∷ 0x00 ∷ 0x75 ∷ 0x08
    ∷ 0x95 ∷ 0x06 ∷ 0x81 ∷ 0x02 ∷ 0x06 ∷ 0x00 ∷ 0xff ∷ 0x09 ∷ 0x20 ∷ 0x95 ∷ 0x01 ∷ 0x81 ∷ 0x02
    ∷ 0x05 ∷ 0x01 ∷ 0x09 ∷ 0x39 ∷ 0x15 ∷ 0x00 ∷ 0x25 ∷ 0x07 ∷ 0x35 ∷ 0x00 ∷ 0x46 ∷ 0x3b ∷ 0x01
    ∷ 0x65 ∷ 0x14 ∷ 0x75 ∷ 0x04 ∷ 0x95 ∷ 0x01 ∷ 0x81 ∷ 0x42 ∷ 0x65 ∷ 0x00 ∷ 0x05 ∷ 0x09 ∷ 0x19
    ∷ 0x01 ∷ 0x29 ∷ 0x0f ∷ 0x15 ∷ 0x00 ∷ 0x25 ∷ 0x01 ∷ 0x75 ∷ 0x01 ∷ 0x95 ∷ 0x0f ∷ 0x81 ∷ 0x02
    ∷ 0x06 ∷ 0x00 ∷ 0xff ∷ 0x09 ∷ 0x21 ∷ 0x95 ∷ 0x0d ∷ 0x81 ∷ 0x02 ∷ 0x06 ∷ 0x00 ∷ 0xff ∷ 0x09
    ∷ 0x22 ∷ 0x15 ∷ 0x00 ∷ 0x26 ∷ 0xff ∷ 0x00 ∷ 0x75 ∷ 0x08 ∷ 0x95 ∷ 0x34 ∷ 0x81 ∷ 0x02 ∷ 0x85
    ∷ 0x02 ∷ 0x09 ∷ 0x23 ∷ 0x95 ∷ 0x2f ∷ 0x91 ∷ 0x02 ∷ 0x85 ∷ 0x05 ∷ 0x09 ∷ 0x33 ∷ 0x95 ∷ 0x28
    ∷ 0xb1 ∷ 0x02 ∷ 0x85 ∷ 0x08 ∷ 0x09 ∷ 0x34 ∷ 0x95 ∷ 0x2f ∷ 0xb1 ∷ 0x02 ∷ 0x85 ∷ 0x09 ∷ 0x09
    ∷ 0x24 ∷ 0x95 ∷ 0x13 ∷ 0xb1 ∷ 0x02 ∷ 0x85 ∷ 0x0a ∷ 0x09 ∷ 0x25 ∷ 0x95 ∷ 0x1a ∷ 0xb1 ∷ 0x02
    ∷ 0x85 ∷ 0x20 ∷ 0x09 ∷ 0x26 ∷ 0x95 ∷ 0x3f ∷ 0xb1 ∷ 0x02 ∷ 0x85 ∷ 0x21 ∷ 0x09 ∷ 0x27 ∷ 0x95
    ∷ 0x04 ∷ 0xb1 ∷ 0x02 ∷ 0x85 ∷ 0x22 ∷ 0x09 ∷ 0x40 ∷ 0x95 ∷ 0x3f ∷ 0xb1 ∷ 0x02 ∷ 0x85 ∷ 0x80
    ∷ 0x09 ∷ 0x28 ∷ 0x95 ∷ 0x3f ∷ 0xb1 ∷ 0x02 ∷ 0x85 ∷ 0x81 ∷ 0x09 ∷ 0x29 ∷ 0x95 ∷ 0x3f ∷ 0xb1
    ∷ 0x02 ∷ 0x85 ∷ 0x82 ∷ 0x09 ∷ 0x2a ∷ 0x95 ∷ 0x09 ∷ 0xb1 ∷ 0x02 ∷ 0x85 ∷ 0x83 ∷ 0x09 ∷ 0x2b
    ∷ 0x95 ∷ 0x3f ∷ 0xb1 ∷ 0x02 ∷ 0x85 ∷ 0x84 ∷ 0x09 ∷ 0x2c ∷ 0x95 ∷ 0x3f ∷ 0xb1 ∷ 0x02 ∷ 0x85
    ∷ 0x85 ∷ 0x09 ∷ 0x2d ∷ 0x95 ∷ 0x02 ∷ 0xb1 ∷ 0x02 ∷ 0x85 ∷ 0xa0 ∷ 0x09 ∷ 0x2e ∷ 0x95 ∷ 0x01
    ∷ 0xb1 ∷ 0x02 ∷ 0x85 ∷ 0xe0 ∷ 0x09 ∷ 0x2f ∷ 0x95 ∷ 0x3f ∷ 0xb1 ∷ 0x02 ∷ 0x85 ∷ 0xf0 ∷ 0x09
    ∷ 0x30 ∷ 0x95 ∷ 0x3f ∷ 0xb1 ∷ 0x02 ∷ 0x85 ∷ 0xf1 ∷ 0x09 ∷ 0x31 ∷ 0x95 ∷ 0x3f ∷ 0xb1 ∷ 0x02
    ∷ 0x85 ∷ 0xf2 ∷ 0x09 ∷ 0x32 ∷ 0x95 ∷ 0x0f ∷ 0xb1 ∷ 0x02 ∷ 0x85 ∷ 0xf4 ∷ 0x09 ∷ 0x35 ∷ 0x95
    ∷ 0x3f ∷ 0xb1 ∷ 0x02 ∷ 0x85 ∷ 0xf5 ∷ 0x09 ∷ 0x36 ∷ 0x95 ∷ 0x03 ∷ 0xb1 ∷ 0x02 ∷ 0xc0 ∷ []

-- The global items in force, and the bits of the report asked for that were declared so far.
pub record Items : Type 0 where
  pub report_id : ℕ
  pub report_size : ℕ
  pub report_count : ℕ
  pub declared_bits : ℕ

-- The bytes of an item's data, and the little-endian number they stand for.
abbrev data_size : ℕ → ℕ
data_size prefix = let n = prefix % 4 in if n == 3 then 4 else n

abbrev little_endian : Bytes → ℕ
little_endian [] = 0
little_endian (b ∷ bs) = b + 256 * little_endian bs

-- One item: `main` is the tag of the wanted main item, `wanted` the report asked for.
unfoldable pub item : ℕ → ℕ → ℕ → ℕ → Items → Items
item main wanted tag value s =
    if tag == 0x84
    then record s { report_id = value }
    else if tag == 0x74
    then record s { report_size = value }
    else if tag == 0x94
    then record s { report_count = value }
    else if tag == main && s.report_id == wanted
    then record s { declared_bits = s.declared_bits + s.report_size * s.report_count }
    else s

-- Each item takes a byte at least, so the descriptor's length is fuel enough.
unfoldable pub read_items : ℕ → ℕ → ℕ → Bytes → Items → Items
unfolding item
read_items zero main wanted s st = st
read_items (suc fuel) main wanted [] st = st
read_items (suc fuel) main wanted (prefix ∷ s) st =
    let n = data_size prefix in
    read_items fuel main wanted (drop n s)
      (item main wanted (prefix - prefix % 4) (little_endian (take n s)) st)

abbrev no_items : Items
no_items = record { report_id = 0; report_size = 0; report_count = 0; declared_bits = 0 }

-- The bytes of a report with its number in front.
unfoldable pub declared_size : ℕ → ℕ → Bytes → ℕ
unfolding read_items
declared_size main wanted rdesc =
    1 + (read_items (length rdesc) main wanted rdesc no_items).declared_bits / 8

-- The tags of the main items Input and Feature.
abbrev pub input_item : ℕ
input_item = 0x80

abbrev pub feature_item : ℕ
feature_item = 0xb0
