-- ===== src/Report/Corrupt.antt =====
-- A Bluetooth report with a damaged byte never reaches the virtual device.
use ds4_translator.Base.{
  ℕ, ◌+◌, ◌*◌, ◌^◌, ◌<◌, ◌≤◌, true, false, ◌≡◌, ◌≢◌, sym, ◌∙◌, none, some, ◌∷◌, ◌++◌, Bytes,
  AreBytes, length, take, leb, ◌==◌, if◌then◌else◌, arith, length-append, take-append,
  get_or-append, le→leb, ne→==,
}
use ds4_translator.Crc.{calculate_crc32}
use ds4_translator.Crc.Detect.{calculate_crc32_detects}
use ds4_translator.Report.{Input}
use ds4_translator.Report.Layout.{byte_at}
use ds4_translator.Report.Physical.{received_crc, read_bt, parse_physical}

-- The checksum field of a report whose first 74 bytes are `body`.
abbrev crc_field : Bytes → ℕ
crc_field tail =
    byte_at tail 0 + byte_at tail 1 * 2 ^ 8 + byte_at tail 2 * 2 ^ 16 + byte_at tail 3 * 2 ^ 24

module _ (body tail : Bytes) (size : length body ≡ 74) where
  byte_at-tail : (i : ℕ) → byte_at (body ++ tail) (74 + i) ≡ byte_at tail i
  byte_at-tail i = rw (sym size) (get_or-append body tail i 0)

  received_crc-append : received_crc (body ++ tail) ≡ crc_field tail
  unfolding received_crc
  received_crc-append = simp (byte_at-tail 0, byte_at-tail 1, byte_at-tail 2, byte_at-tail 3)

  take-body : take 74 (body ++ tail) ≡ body
  take-body = rw (sym size) (take-append body tail)

-- What `parse_physical` makes of a long enough report of id 0x11.
parse_bt :
    (rest tail : Bytes)
    → length (0x11 ∷ rest) ≡ 74
    → 4 ≤ length tail
    → parse_physical ((0x11 ∷ rest) ++ tail) ≡ (
        if crc_field tail == calculate_crc32 0xA1 (0x11 ∷ rest)
        then some (read_bt ((0x11 ∷ rest) ++ tail))
        else none)
unfolding parse_physical
parse_bt rest tail size more =
    let body = 0x11 ∷ rest in
    let long : leb 78 (length (body ++ tail)) ≡ true =
      le→leb 78 _ (omega (arith, length-append {0} body tail)) in
    rw (long, received_crc-append body tail size, take-body body tail size)

-- An accepted report carries the checksum of its first 74 bytes.
accepted-crc :
    (rest tail : Bytes) {input : Input}
    → length (0x11 ∷ rest) ≡ 74
    → 4 ≤ length tail
    → parse_physical ((0x11 ∷ rest) ++ tail) ≡ some input
    → crc_field tail ≡ calculate_crc32 0xA1 (0x11 ∷ rest)
accepted-crc rest tail size more h = let parsed = parse_bt rest tail size more in ground arith

length_byte : (pre post : Bytes) (x y : ℕ) → length (pre ++ x ∷ post) ≡ length (pre ++ y ∷ post)
length_byte pre post x y = length-append pre (x ∷ post) ∙ sym (length-append pre (y ∷ post))

-- Let a Bluetooth report (id 0x11, at least 78 bytes) be accepted. Then the report in which any one
-- of the 73 bytes behind the id has another value, and the checksum field is as it was, is dropped.
pub parse_physical_corrupt :
    (pre post tail : Bytes) (x y : ℕ) {input : Input}
    → length (0x11 ∷ pre ++ x ∷ post) ≡ 74
    → 4 ≤ length tail
    → AreBytes pre
    → AreBytes post
    → x < 256
    → y < 256
    → x ≢ y
    → parse_physical ((0x11 ∷ pre ++ x ∷ post) ++ tail) ≡ some input
    → parse_physical ((0x11 ∷ pre ++ y ∷ post) ++ tail) ≡ none
parse_physical_corrupt pre post tail x y size more hp hq hx hy ne accepted =
    let field = accepted-crc (pre ++ x ∷ post) tail size more accepted in
    let differs =
      calculate_crc32_detects 0xA1 (0x11 ∷ pre) post x y (omega arith) (omega arith, hp) hq hx hy
        ne in
    let size' : length (0x11 ∷ pre ++ y ∷ post) ≡ 74 =
      omega (arith, size, length_byte pre post x y) in
    let test : (crc_field tail == calculate_crc32 0xA1 (0x11 ∷ pre ++ y ∷ post)) ≡ false =
      ne→== _ _ (λ e. differs (sym field ∙ e)) in
    parse_bt (pre ++ y ∷ post) tail size' more ∙ rw test
