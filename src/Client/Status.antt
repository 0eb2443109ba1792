-- ===== src/Client/Status.antt =====
-- src/ipc-client.cpp, the answer of the daemon to status: `trim_response`, `parse_status`,
-- `status_value` and the names of the types as they are shown.
use ds4_translator.Base.{
  ℕ, false, ◌||◌, ◌≡◌, refl, ap, ◌∙◌, Option, none, some, List, [], ◌∷◌, ◌++◌, Bytes, All,
  if◌then◌else◌, ◌==◌,
}
use ds4_translator.Base.Text.{text, trim_front, trim_back, ◌===◌}
use ds4_translator.HidId.{cut}
use ds4_translator.HidId.RoundTrip.{cut-append}

unfoldable pub trim_response : Bytes → Bytes
unfolding trim_back
trim_response response = trim_back (λ c. c == 10 || c == 13) response

pub record StatusField : Type 0 where
  pub key : Bytes
  pub value : Bytes

abbrev add_byte : ℕ → List Bytes → List Bytes
add_byte c [] = (c ∷ []) ∷ []
add_byte c (line ∷ lines) = (c ∷ line) ∷ lines

-- The text between two newlines, the last one up to the end.
unfoldable pub lines_of : Bytes → List Bytes
lines_of [] = [] ∷ []
lines_of (c ∷ s) = let rest = lines_of s in if c == 10 then [] ∷ rest else add_byte c rest

-- The spaces in front of the value go, then spaces and returns behind it.
unfoldable pub trim_value : Bytes → Bytes
unfolding trim_front trim_back
trim_value value = trim_back (λ c. c == 32 || c == 13) (trim_front (λ c. c == 32) value)

unfoldable pub status_line : Bytes → Option StatusField
unfolding cut trim_value
status_line line = elim (cut 58 line) [
  | none ↦ none
  | some (key, value) ↦ some (record { key = key; value = trim_value value })
]

abbrev push : Option StatusField → List StatusField → List StatusField
push none fields = fields
push (some field) fields = field ∷ fields

unfoldable pub status_fields : List Bytes → List StatusField
unfolding status_line
status_fields [] = []
status_fields (line ∷ lines) = push (status_line line) (status_fields lines)

unfoldable pub parse_status : Bytes → List StatusField
unfolding status_fields lines_of
parse_status response = status_fields (lines_of response)

unfoldable pub status_value : List StatusField → Bytes → Bytes
unfolding ◌===◌
status_value [] key = []
status_value (field ∷ fields) key =
    let rest = status_value fields key in if field.key === key then field.value else rest

unfoldable pub type_display_to_config : Bytes → Bytes
unfolding ◌===◌
type_display_to_config display =
    if display === text "DualShock 4"
    then text "ds4"
    else if display === text "DualSense"
    then text "dualsense"
    else if display === text "Hidden"
    then text "hidden"
    else text "none"

unfoldable pub type_config_to_display : Bytes → Bytes
unfolding ◌===◌
type_config_to_display config =
    if config === text "ds4"
    then text "DualShock 4"
    else if config === text "dualsense"
    then text "DualSense"
    else if config === text "hidden"
    then text "Hidden"
    else text "None"

-- A line of a status text, and the text.
abbrev pub status_text : List StatusField → Bytes
status_text [] = []
status_text (field ∷ fields) = (field.key ++ 58 ∷ 32 ∷ field.value) ++ 10 ∷ status_text fields

-- The key holds no colon, neither part a newline, and the value no space that would be trimmed.
pub record IsStatus (field : StatusField) : Type 0 where
  pub key_plain : All (λ (c : ℕ). (c == 58) ≡ false) field.key
  pub line_plain : All (λ (c : ℕ). (c == 10) ≡ false) (field.key ++ 58 ∷ 32 ∷ field.value)
  pub trimmed : trim_value field.value ≡ field.value

lines_of-line :
    (l rest : Bytes)
    → All (λ (c : ℕ). (c == 10) ≡ false) l
    → lines_of (l ++ 10 ∷ rest) ≡ l ∷ lines_of rest
unfolding lines_of
lines_of-line [] rest h = refl
lines_of-line (c ∷ l) rest h = rw (h.0, lines_of-line l rest h.1) refl

status_line-field :
    (field : StatusField)
    → IsStatus field
    → status_line (field.key ++ 58 ∷ 32 ∷ field.value) ≡ some field
unfolding status_line trim_value trim_front
status_line-field field h =
    rw (cut-append 58 field.key (32 ∷ field.value) h.key_plain, status_line)
      (ap (λ v. some (record { key = field.key; value = v })) h.trimmed)

-- The fields of a status text, written `key: value` on a line each, are read back in their order.
pub parse_status_round_trip :
    (fields : List StatusField) → All IsStatus fields → parse_status (status_text fields) ≡ fields
unfolding parse_status status_fields lines_of
parse_status_round_trip [] h = refl
parse_status_round_trip (field ∷ fields) h =
    ap status_fields
      (lines_of-line (field.key ++ 58 ∷ 32 ∷ field.value) (status_text fields) h.0.line_plain)
    ∙ rw (status_line-field field h.0) (ap (λ fs. field ∷ fs) (parse_status_round_trip fields h.1))
