-- ===== src/Crc.antt =====
-- src/main.cpp, `calculate_crc32`: the CRC-32 of Sony's Bluetooth HID reports, by table.
pub mod Reference
pub mod Detect
use ds4_translator.Base.{
  ℕ, zero, suc, ◌+◌, ◌/◌, ◌^◌, bit_and, bit_xor, List, [], ◌∷◌, Bytes, get_or, has, if◌then◌else◌,
}

abbrev pub polynomial : ℕ
polynomial = 0xEDB88320

-- The body of the loop over `j`.
unfoldable pub crc_shift : ℕ → ℕ
crc_shift c = if has c 1 then bit_xor polynomial (c / 2 ^ 1) else c / 2 ^ 1

unfoldable pub crc_shifts : ℕ → ℕ → ℕ
crc_shifts zero c = c
crc_shifts (suc n) c = crc_shifts n (crc_shift c)

-- The loop over `i`, which fills `table` from index `i` on.
unfoldable pub fill_table : ℕ → ℕ → List ℕ
fill_table zero i = []
fill_table (suc n) i = crc_shifts 8 i ∷ fill_table n (i + 1)

-- `table`; it is filled on the first call and never changes.
unfoldable pub crc_table : List ℕ
crc_table = fill_table 256 0

-- `crc = table[(crc ^ byte) & 0xFF] ^ (crc >> 8)`
unfoldable pub crc_update : ℕ → ℕ → ℕ
crc_update crc byte = bit_xor (get_or crc_table (bit_and (bit_xor crc byte) 0xff) 0) (crc / 2 ^ 8)

-- The loop over `data`.
unfoldable pub crc_bytes : ℕ → Bytes → ℕ
crc_bytes crc [] = crc
crc_bytes crc (b ∷ bs) = crc_bytes (crc_update crc b) bs

-- The seed byte comes first. `~crc` on 32 bits is the exclusive or with all ones.
unfoldable pub calculate_crc32 : ℕ → Bytes → ℕ
calculate_crc32 seed bytes = bit_xor (crc_bytes (crc_update 0xFFFFFFFF seed) bytes) 0xFFFFFFFF
