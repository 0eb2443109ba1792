-- ===== src/Config/RoundTrip.antt =====
-- What the daemon saves is what it reads at its next start.
use ds4_translator.Base.{
  ℕ, false, ◌≡◌, ◌≢◌, refl, ap, ◌∙◌, Option, some, List, [], ◌∷◌, ◌++◌, Bytes, All, All-append,
  arith,
}
use ds4_translator.Base.Text.{text, starts_with, ◌===◌, trim_front, trim_back}
use ds4_translator.Config.Lines.{lines, IsLine, lines-unlines, trim_back-kept}
use ds4_translator.Emulation.{
  ControllerType, ds4, dualsense, none as none_type, hidden, HideMethod, legacy, unbind,
  BackendType, uhid, functionfs, controller_type_config_str, backend_type_config_str,
  hide_method_config_str,
}
use ds4_translator.Config.{
  Settings, is_line_end, scan, scan_file, or_default, parse_type, read_config, parse_backend,
  read_backend_config, parse_hide_method, read_hide_method_config, parse_name, read_name_config,
  name_line, config_lines, write_config,
}

-- A name without line ends, as `set-name` requires.
abbrev pub IsName : Bytes → Type 0
IsName = All (λ c. is_line_end c ≡ false)

IsName-IsLine : (n : Bytes) → IsName n → IsLine n
IsName-IsLine [] h = tt
IsName-IsLine (c ∷ n) h = (ground arith, IsName-IsLine n h.1)

type-IsLine : (t : ControllerType) → IsLine (controller_type_config_str t)
unfolding controller_type_config_str
type-IsLine ds4 = omega arith
type-IsLine dualsense = omega arith
type-IsLine none_type = omega arith
type-IsLine hidden = omega arith

backend-IsLine : (b : BackendType) → IsLine (backend_type_config_str b)
unfolding backend_type_config_str
backend-IsLine uhid = omega arith
backend-IsLine functionfs = omega arith

method-IsLine : (m : HideMethod) → IsLine (hide_method_config_str m)
unfolding hide_method_config_str
method-IsLine legacy = omega arith
method-IsLine unbind = omega arith

keyed : (key value : Bytes) → IsLine key → IsLine value → IsLine (key ++ value)
keyed key value hk hv = All-append (λ (c : ℕ). c ≢ 10) key value hk hv

name_line-IsLine : (key name : Bytes) → IsLine key → IsName name → All IsLine (name_line key name)
unfolding name_line
name_line-IsLine key [] hk hn = tt
name_line-IsLine key (c ∷ n) hk hn = (keyed key (c ∷ n) hk (IsName-IsLine (c ∷ n) hn), tt)

module _ (s : Settings) (h4 : IsName s.name_ds4) (h5 : IsName s.name_dualsense) where
  config_lines-IsLine : All IsLine (config_lines s)
  unfolding config_lines
  config_lines-IsLine = (
    keyed (text "type=") (controller_type_config_str s.target_type) (omega arith)
        (type-IsLine s.target_type),
    (
      keyed (text "backend_ds4=") (backend_type_config_str s.backend_for_ds4) (omega arith)
          (backend-IsLine s.backend_for_ds4),
      (
        keyed (text "backend_dualsense=") (backend_type_config_str s.backend_for_dualsense)
            (omega arith) (backend-IsLine s.backend_for_dualsense),
        (
          keyed (text "hide_method=") (hide_method_config_str s.hide_method) (omega arith)
              (method-IsLine s.hide_method),
          All-append IsLine (name_line (text "name_ds4=") s.name_ds4) _
              (name_line-IsLine (text "name_ds4=") s.name_ds4 (omega arith) h4)
              (name_line-IsLine (text "name_dualsense=") s.name_dualsense (omega arith) h5),
        ),
      ),
    ),
  )

  lines-write_config : lines (write_config s) ≡ config_lines s
  unfolding write_config
  lines-write_config = lines-unlines (config_lines s) config_lines-IsLine

parse_type-str : (t : ControllerType) → parse_type (controller_type_config_str t) ≡ some t
unfolding parse_type controller_type_config_str trim_back trim_front ◌===◌
parse_type-str ds4 = refl
parse_type-str dualsense = refl
parse_type-str none_type = refl
parse_type-str hidden = refl

parse_backend-str : (b : BackendType) → parse_backend (backend_type_config_str b) ≡ some b
unfolding parse_backend backend_type_config_str trim_back trim_front ◌===◌
parse_backend-str uhid = refl
parse_backend-str functionfs = refl

parse_hide_method-str : (m : HideMethod) → parse_hide_method (hide_method_config_str m) ≡ some m
unfolding parse_hide_method hide_method_config_str trim_back trim_front ◌===◌
parse_hide_method-str legacy = refl
parse_hide_method-str unbind = refl

parse_name-kept : (n : Bytes) → IsName n → parse_name n ≡ some n
unfolding parse_name
parse_name-kept n h = ap some (trim_back-kept is_line_end n h)

-- What each key finds among the lines written.
scan-type : (s : Settings) → scan parse_type (text "type=") (config_lines s) ≡ some s.target_type
unfolding scan starts_with config_lines
scan-type s = rw (parse_type-str s.target_type)

scan-backend_ds4 :
    (s : Settings)
    → scan parse_backend (text "backend_ds4=") (config_lines s) ≡ some s.backend_for_ds4
unfolding scan starts_with config_lines
scan-backend_ds4 s = rw (parse_backend-str s.backend_for_ds4)

scan-backend_dualsense :
    (s : Settings)
    → scan parse_backend (text "backend_dualsense=") (config_lines s) ≡ some s.backend_for_dualsense
unfolding scan starts_with config_lines
scan-backend_dualsense s = rw (parse_backend-str s.backend_for_dualsense)

scan-hide_method :
    (s : Settings)
    → scan parse_hide_method (text "hide_method=") (config_lines s) ≡ some s.hide_method
unfolding scan starts_with config_lines
scan-hide_method s = rw (parse_hide_method-str s.hide_method)

abbrev name_lines : Bytes → Bytes → List Bytes
name_lines n4 n5 = name_line (text "name_ds4=") n4 ++ name_line (text "name_dualsense=") n5

scan-name_ds4 :
    (n4 n5 : Bytes)
    → IsName n4
    → or_default [] (scan parse_name (text "name_ds4=") (name_lines n4 n5)) ≡ n4
unfolding scan starts_with name_line
scan-name_ds4 [] [] h = refl
scan-name_ds4 [] (c ∷ n5) h = refl
scan-name_ds4 (c ∷ n4) n5 h = rw (parse_name-kept (c ∷ n4) h)

scan-name_dualsense :
    (n4 n5 : Bytes)
    → IsName n5
    → or_default [] (scan parse_name (text "name_dualsense=") (name_lines n4 n5)) ≡ n5
unfolding scan starts_with name_line
scan-name_dualsense [] [] h = refl
scan-name_dualsense [] (c ∷ n5) h = rw (parse_name-kept (c ∷ n5) h)
scan-name_dualsense (d ∷ n4) [] h = refl
scan-name_dualsense (d ∷ n4) (c ∷ n5) h = rw (parse_name-kept (c ∷ n5) h)

-- The four lines before the names have other keys.
scan-names_ds4 :
    (s : Settings)
    → or_default [] (scan parse_name (text "name_ds4=") (config_lines s))
      ≡ or_default [] (scan parse_name (text "name_ds4=") (name_lines s.name_ds4 s.name_dualsense))
unfolding scan starts_with config_lines
scan-names_ds4 s = refl

scan-names_dualsense :
    (s : Settings)
    → or_default [] (scan parse_name (text "name_dualsense=") (config_lines s))
      ≡ or_default []
          (scan parse_name (text "name_dualsense=") (name_lines s.name_ds4 s.name_dualsense))
unfolding scan starts_with config_lines
scan-names_dualsense s = refl

found :
    {A : Type 0} (parse : Bytes → Option A) (key : Bytes) (default : A) (s : Settings)
    → IsName s.name_ds4
    → IsName s.name_dualsense
    → scan_file parse key default (some (write_config s))
      ≡ or_default default (scan parse key (config_lines s))
found parse key default s h4 h5 =
    ap (λ ls. or_default default (scan parse key ls)) (lines-write_config s h4 h5)

-- For settings whose names hold no line end, each reader applied to the file that `write_config`
-- writes gives back the setting that was saved, whatever its default: the type, both backends, the
-- hide method, and both names (the empty name for no override).
pub write_config_round_trip :
    (s : Settings) (type : ControllerType) (backend : BackendType) (method : HideMethod)
    → IsName s.name_ds4
    → IsName s.name_dualsense
    → let file = some (write_config s) in
      (read_config type file ≡ s.target_type)
      × (read_backend_config ds4 backend file ≡ s.backend_for_ds4)
      × (read_backend_config dualsense backend file ≡ s.backend_for_dualsense)
      × (read_hide_method_config method file ≡ s.hide_method)
      × (read_name_config ds4 file ≡ s.name_ds4)
      × (read_name_config dualsense file ≡ s.name_dualsense)
unfolding read_config read_backend_config read_hide_method_config read_name_config
write_config_round_trip s type backend method h4 h5 = (
  found parse_type (text "type=") type s h4 h5 ∙ ap (or_default type) (scan-type s),
  found parse_backend (text "backend_ds4=") backend s h4 h5
      ∙ ap (or_default backend) (scan-backend_ds4 s),
  found parse_backend (text "backend_dualsense=") backend s h4 h5
      ∙ ap (or_default backend) (scan-backend_dualsense s),
  found parse_hide_method (text "hide_method=") method s h4 h5
      ∙ ap (or_default method) (scan-hide_method s),
  found parse_name (text "name_ds4=") [] s h4 h5
      ∙ scan-names_ds4 s
      ∙ scan-name_ds4 s.name_ds4 s.name_dualsense h4,
  found parse_name (text "name_dualsense=") [] s h4 h5
      ∙ scan-names_dualsense s
      ∙ scan-name_dualsense s.name_ds4 s.name_dualsense h5,
)
