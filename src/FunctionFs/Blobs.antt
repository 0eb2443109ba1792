-- ===== src/FunctionFs/Blobs.antt =====
-- src/functionfs-backend.c, `build_ffs_descriptors` and `build_ffs_strings`: what is written to
-- endpoint 0 before the gadget is bound, and that it reads back as a walk over it finds it.
use ds4_translator.Base.{
  ℕ, zero, suc, ◌+◌, ◌*◌, ◌/◌, ◌%◌, true, false, ◌&&◌, ◌≡◌, refl, bit_and, bit_or, Option, none,
  some, List, [], ◌∷◌, ◌++◌, Bytes, length, take, drop, get_or, leb, ◌==◌, ◌>>=◌, Bool-cases, inl,
  inr, if◌then◌else◌,
}
use ds4_translator.Base.Text.{text}
use ds4_translator.FunctionFs.{report_descriptor, UsbCtrlrequest, handle_setup, answered}
use ds4_translator.Uhid.Descriptors.{ds4_usb_rdesc, dualsense_usb_rdesc}

-- The constants of <linux/usb/functionfs.h>.
pub record FfsConstants : Type 0 where
  pub descriptors_magic_v2 : ℕ
  pub strings_magic : ℕ
  pub has_fs_desc : ℕ
  pub has_hs_desc : ℕ

-- `memcpy` of a `uint32_t`, the low byte first.
abbrev pub u32_le : ℕ → Bytes
u32_le n = n % 256 ∷ n / 256 % 256 ∷ n / 65536 % 256 ∷ n / 16777216 % 256 ∷ []

-- The descriptors of one speed: the interface, the HID class and the two endpoints.
unfoldable pub speed_descriptors : ℕ → Bytes
speed_descriptors rdesc_len =
    (9 ∷ 4 ∷ 0 ∷ 0 ∷ 2 ∷ 3 ∷ 0 ∷ 0 ∷ 1 ∷ [])
    ++ (9 ∷ 0x21 ∷ 0x11 ∷ 0x01 ∷ 0 ∷ 1 ∷ 0x22 ∷ bit_and rdesc_len 0xFF ∷ rdesc_len / 256 ∷ [])
    ++ (7 ∷ 5 ∷ 0x81 ∷ 3 ∷ 64 ∷ 0 ∷ 4 ∷ [])
    ++ (7 ∷ 5 ∷ 0x02 ∷ 3 ∷ 64 ∷ 0 ∷ 4 ∷ [])

unfoldable pub build_ffs_descriptors : FfsConstants → ℕ → Bytes
unfolding speed_descriptors report_descriptor
build_ffs_descriptors k target_type =
    let rdesc_len = length (report_descriptor target_type) in
    let descs = speed_descriptors rdesc_len ++ speed_descriptors rdesc_len in
    u32_le k.descriptors_magic_v2
    ++ u32_le (20 + length descs)
    ++ u32_le (bit_or k.has_fs_desc k.has_hs_desc)
    ++ u32_le 4
    ++ u32_le 4
    ++ descs

unfoldable pub build_ffs_strings : FfsConstants → Bytes
build_ffs_strings k =
    let strings = 0x09 ∷ 0x04 ∷ text "DS4 Emulation" ++ 0 ∷ [] in
    u32_le k.strings_magic ++ u32_le (16 + length strings) ++ u32_le 1 ++ u32_le 1 ++ strings

-- A list of descriptors as a reader walks it: each starts with its own length and its type.
unfoldable pub walk : ℕ → Bytes → Option (List Bytes)
walk zero s = none
walk (suc fuel) [] = some []
walk (suc fuel) (n ∷ s) = elim (leb 2 n && leb n (length (n ∷ s))) [
  | false ↦ none
  | true ↦ do rest ← walk fuel (drop n (n ∷ s)); some (take n (n ∷ s) ∷ rest)
]

abbrev pub u32_at : ℕ → Bytes → ℕ
u32_at i s =
    get_or s i 0
    + get_or s (i + 1) 0 * 256
    + get_or s (i + 2) 0 * 65536
    + get_or s (i + 3) 0 * 16777216

-- The descriptors of one speed, told by what they declare.
abbrev pub one_speed : ℕ → List Bytes
one_speed rdesc_len =
    (9 ∷ 4 ∷ 0 ∷ 0 ∷ 2 ∷ 3 ∷ 0 ∷ 0 ∷ 1 ∷ [])
    ∷ (9 ∷ 0x21 ∷ 0x11 ∷ 0x01 ∷ 0 ∷ 1 ∷ 0x22 ∷ rdesc_len % 256 ∷ rdesc_len / 256 ∷ [])
    ∷ (7 ∷ 5 ∷ 0x81 ∷ 3 ∷ 64 ∷ 0 ∷ 4 ∷ [])
    ∷ (7 ∷ 5 ∷ 0x02 ∷ 3 ∷ 64 ∷ 0 ∷ 4 ∷ [])
    ∷ []

-- What a reader finds in the blob of descriptors.
pub record IsBlob (s : Bytes) (rdesc_len : ℕ) : Type 0 where
  whole : u32_at 4 s ≡ length s
  full_speed : u32_at 12 s ≡ 4
  high_speed : u32_at 16 s ≡ 4
  walked : walk 9 (drop 20 s) ≡ some (one_speed rdesc_len ++ one_speed rdesc_len)

-- The request for the report descriptor, with the length that the host allows.
abbrev pub asks_descriptor : ℕ → UsbCtrlrequest
asks_descriptor size = record {
  request_type = 0x81;
  request = 6;
  value = 0x2200;
  index = 0;
  size = size;
}

abbrev pub u16_at : ℕ → Bytes → ℕ
u16_at i s = get_or s i 0 + get_or s (i + 1) 0 * 256

-- The blob of descriptors gives its own length and the number of its descriptors for each speed, and a walk by the
-- lengths in it ends exactly at its end. It finds, for both speeds, a HID interface with two interrupt
-- endpoints, one in each direction, and the length of the report descriptor of the emulated type; the
-- control request that asks for as many bytes is answered with exactly this descriptor, whole.
pub build_ffs_descriptors-IsBlob :
    (k : FfsConstants) (target_type : ℕ)
    → (let blob = build_ffs_descriptors k target_type in
        let described = if target_type == 1 then ds4_usb_rdesc else dualsense_usb_rdesc in
        IsBlob blob (length described)
        × (handle_setup target_type (asks_descriptor (u16_at 36 blob)) ≡ answered described))
unfolding build_ffs_descriptors speed_descriptors report_descriptor walk handle_setup
build_ffs_descriptors-IsBlob k target_type = elim (Bool-cases (target_type == 1)) [
  | inl e ↦
      rw e (record { whole = refl; full_speed = refl; high_speed = refl; walked = refl }, refl)
  | inr e ↦
      rw e (record { whole = refl; full_speed = refl; high_speed = refl; walked = refl }, refl)
]
