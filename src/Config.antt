-- ===== src/Config.antt =====
-- src/main.cpp, the configuration file /etc/ds4-translator.conf: `write_config` and the functions
-- that read it. A file is its bytes; `none` stands for one that cannot be opened.
pub mod Lines
pub mod RoundTrip
use ds4_translator.Base.{
  ℕ, Bool, true, false, ◌||◌, Option, none, some, List, [], ◌∷◌, ◌++◌, Bytes, length, drop, ◌==◌,
  if◌then◌else◌,
}
use ds4_translator.Base.Text.{text, ◌===◌, starts_with, empty, trim_back}
use ds4_translator.Config.Lines.{lines, unlines}
use ds4_translator.Emulation.{
  ControllerType, ds4, dualsense, none as none_type, hidden, HideMethod, legacy, unbind,
  BackendType, uhid, functionfs, is_ds4, controller_type_config_str, backend_type_config_str,
  hide_method_config_str,
}

-- The settings that `write_config` saves; an empty name is no override.
pub record Settings : Type 0 where
  pub target_type : ControllerType
  pub backend_for_ds4 : BackendType
  pub backend_for_dualsense : BackendType
  pub hide_method : HideMethod
  pub name_ds4 : Bytes
  pub name_dualsense : Bytes

-- `'\n'`, `'\r'`, `' '`
abbrev pub is_blank : ℕ → Bool
is_blank c = c == 10 || c == 13 || c == 32

abbrev pub is_line_end : ℕ → Bool
is_line_end c = c == 10 || c == 13

-- The loop over the lines, for a key: the value of the first line whose value is accepted.
unfoldable pub scan {ℓ} : {A : Type ℓ} → (Bytes → Option A) → Bytes → List Bytes → Option A
scan parse key [] = none
scan parse key (line ∷ rest) =
    let later = scan parse key rest in
    if starts_with key line
    then (elim (parse (drop (length key) line)) [ some v ↦ some v | none ↦ later ])
    else later

abbrev pub or_default {ℓ} : {A : Type ℓ} → A → Option A → A
or_default default none = default
or_default default (some v) = v

abbrev pub scan_file {ℓ} : {A : Type ℓ} → (Bytes → Option A) → Bytes → A → Option Bytes → A
scan_file parse key default none = default
scan_file parse key default (some file) = or_default default (scan parse key (lines file))

unfoldable pub parse_type : Bytes → Option ControllerType
parse_type value =
    let val = trim_back is_blank value in
    if val === text "dualsense"
    then some dualsense
    else if val === text "ds4"
    then some ds4
    else if val === text "none"
    then some none_type
    else if val === text "hidden"
    then some hidden
    else none

unfoldable pub read_config : ControllerType → Option Bytes → ControllerType
read_config default file = scan_file parse_type (text "type=") default file

unfoldable pub parse_backend : Bytes → Option BackendType
parse_backend value =
    let val = trim_back is_blank value in
    if val === text "functionfs"
    then some functionfs
    else if val === text "uhid"
    then some uhid
    else none

unfoldable pub read_backend_config : ControllerType → BackendType → Option Bytes → BackendType
read_backend_config type default file =
    scan_file parse_backend (if is_ds4 type then text "backend_ds4=" else text "backend_dualsense=")
      default file

unfoldable pub parse_hide_method : Bytes → Option HideMethod
parse_hide_method value =
    let val = trim_back is_blank value in
    if val === text "unbind"
    then some unbind
    else if val === text "legacy"
    then some legacy
    else none

unfoldable pub read_hide_method_config : HideMethod → Option Bytes → HideMethod
read_hide_method_config default file =
    scan_file parse_hide_method (text "hide_method=") default file

-- The first line with the key is taken whatever it holds.
unfoldable pub parse_name : Bytes → Option Bytes
parse_name value = some (trim_back is_line_end value)

unfoldable pub read_name_config : ControllerType → Option Bytes → Bytes
read_name_config type file =
    scan_file parse_name (if is_ds4 type then text "name_ds4=" else text "name_dualsense=") [] file

-- A name has a line only if it is set.
unfoldable pub name_line : Bytes → Bytes → List Bytes
name_line key name = if empty name then [] else (key ++ name) ∷ []

unfoldable pub config_lines : Settings → List Bytes
config_lines s =
    (text "type=" ++ controller_type_config_str s.target_type)
    ∷ (text "backend_ds4=" ++ backend_type_config_str s.backend_for_ds4)
    ∷ (text "backend_dualsense=" ++ backend_type_config_str s.backend_for_dualsense)
    ∷ (text "hide_method=" ++ hide_method_config_str s.hide_method)
    ∷ (name_line (text "name_ds4=") s.name_ds4
        ++ name_line (text "name_dualsense=") s.name_dualsense)

-- What `write_config` puts into the file; each line ends in `"\n"`.
unfoldable pub write_config : Settings → Bytes
write_config s = unlines (config_lines s)
