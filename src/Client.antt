-- ===== src/Client.antt =====
-- src/ipc-client.cpp, the commands that the front ends build: what is accepted, and the line sent.
pub mod Led
pub mod Understood
pub mod Lines
pub mod Stream
pub mod State
pub mod Status
use ds4_translator.Base.{
  ℕ, Bool, true, false, not, ◌&&◌, ◌||◌, Option, none, some, List, [], ◌∷◌, ◌++◌, Bytes, length,
  ltb, is_some, if◌then◌else◌,
}
use ds4_translator.Base.Text.{text, empty, find, ◌===◌}
use ds4_translator.Base.Strtoul.{print}

abbrev pub controller_values : List Bytes
controller_values = text "ds4" ∷ text "dualsense" ∷ []

abbrev pub type_values : List Bytes
type_values = text "ds4" ∷ text "dualsense" ∷ text "none" ∷ text "hidden" ∷ []

abbrev pub backend_values : List Bytes
backend_values = text "uhid" ∷ text "functionfs" ∷ []

abbrev pub hide_method_values : List Bytes
hide_method_values = text "legacy" ∷ text "unbind" ∷ []

-- `contains`
unfoldable pub contains_value : List Bytes → Bytes → Bool
unfolding ◌===◌
contains_value [] value = false
contains_value (v ∷ vs) value = v === value || contains_value vs value

unfoldable pub join_from : Bytes → List Bytes → Bytes
join_from joined [] = joined
join_from joined (v ∷ vs) =
    join_from ((if not (empty joined) then joined ++ text " " else joined) ++ v) vs

unfoldable pub join_values : List Bytes → Bytes
unfolding join_from
join_values values = join_from [] values

-- The line, or the text put into `error`.
pub data Built : Type 0 where
  built failed : Bytes → Built

-- The error of `check_value`, `none` where the value is allowed.
unfoldable pub check_value : Bytes → List Bytes → Bytes → Option Bytes
unfolding contains_value join_values
check_value value allowed what =
    if contains_value allowed value
    then none
    else some (
        text "Invalid "
        ++ what
        ++ text " '"
        ++ value
        ++ text "'. Supported: "
        ++ join_values allowed)

abbrev pub max_name_bytes : ℕ
max_name_bytes = 63

-- The problem with a name, empty where there is none.
unfoldable pub validate_name : Bytes → Bytes
unfolding find print
validate_name name =
    if empty name
    then text "name cannot be empty (use --reset to restore the default)."
    else if is_some (find 10 name) || is_some (find 13 name)
    then text "name cannot contain newline characters."
    else if ltb max_name_bytes (length name)
    then text "name too long ("
      ++ print 10 (length name)
      ++ text " bytes, max "
      ++ print 10 max_name_bytes
      ++ text ")."
    else []

unfoldable pub build_set_type : Bytes → Built
unfolding check_value
build_set_type type = elim (check_value type type_values (text "type")) [
  | none ↦ built (text "set-type " ++ type)
  | some error ↦ failed error
]

unfoldable pub build_set_backend : Bytes → Bytes → Built
unfolding check_value
build_set_backend controller backend =
    elim (check_value controller controller_values (text "controller type")) [
      | some error ↦ failed error
      | none ↦ elim (check_value backend backend_values (text "backend")) [
        | some error ↦ failed error
        | none ↦ built (text "set-backend " ++ controller ++ text " " ++ backend)
      ]
    ]

unfoldable pub build_set_name : Bytes → Bytes → Built
unfolding check_value validate_name ◌===◌
build_set_name controller name =
    elim (check_value controller controller_values (text "controller type")) [
      | some error ↦ failed error
      | none ↦
          if not (name === text "--reset") && not (empty (validate_name name))
          then failed (validate_name name)
          else built (text "set-name " ++ controller ++ text " " ++ name)
    ]

unfoldable pub build_set_hide_method : Bytes → Built
unfolding check_value
build_set_hide_method method = elim (check_value method hide_method_values (text "hide method")) [
  | none ↦ built (text "set-hide-method " ++ method)
  | some error ↦ failed error
]
