-- ===== src/Client/Understood.antt =====
-- The daemon understands every command that the client library builds.
use ds4_translator.Base.{
  Bool, true, false, ◌≡◌, refl, sym, ap, ◌∙◌, Option, none, some, List, [], ◌∷◌, ◌++◌, Bytes,
  Bool-cases, ◌⊎◌, inl, inr, arith, if◌then◌else◌,
}
use ds4_translator.Base.Text.{text, trim_front, trim_back, starts_with, ◌===◌, ===_iff}
use ds4_translator.Client.{
  Built, built, failed, contains_value, check_value, type_values, build_set_type,
}
use ds4_translator.Daemon.Commands.{set_type, parse_command, parse_trimmed}
use ds4_translator.Emulation.{
  ControllerType, ds4, dualsense, none as none_type, hidden, controller_type_config_str,
}

-- The line, if one was built.
abbrev pub line : Built → Option Bytes
line (built cmd) = some cmd
line (failed error) = none

known :
    (v : Bytes) (vs : List Bytes) (t : Bytes)
    → contains_value (v ∷ vs) t ≡ true
    → (v ≡ t) ⊎ (contains_value vs t ≡ true)
unfolding contains_value
known v vs t h = elim (Bool-cases (v === t)) [
  | inl e ↦ inl ((===_iff v t).0 e)
  | inr e ↦ inr (rw e at h)
]

checked :
    (what value : Bytes) (vs : List Bytes)
    → check_value value vs what ≡ none
    → contains_value vs value ≡ true
unfolding check_value
checked what value vs h = ground arith

text_of : Built → Bytes
text_of (built cmd) = cmd
text_of (failed error) = error

is_built : Built → Bool
is_built (built cmd) = true
is_built (failed error) = false

-- The last step of a builder: the line, unless the value is refused.
last_step : Bool → Bytes → Bytes → Built
last_step allowed l error = elim (if allowed then none else some error) [
  | none ↦ built l
  | some e ↦ failed e
]

last_step-built :
    (allowed : Bool) (l error cmd : Bytes)
    → last_step allowed l error ≡ built cmd
    → (allowed ≡ true) × (l ≡ cmd)
unfolding last_step text_of is_built
last_step-built true l error cmd h = (refl, ap text_of h)
last_step-built false l error cmd h = absurd (ground (arith, ap is_built h))

type-built :
    (t cmd : Bytes)
    → build_set_type t ≡ built cmd
    → (contains_value type_values t ≡ true) × (text "set-type " ++ t ≡ cmd)
unfolding build_set_type check_value last_step
type-built t cmd h = last_step-built (contains_value type_values t) _ _ cmd h

type-known :
    (t : Bytes)
    → contains_value type_values t ≡ true
    → (type : ControllerType) × (controller_type_config_str type ≡ t)
unfolding controller_type_config_str contains_value
type-known t h =
    elim (known (text "ds4") (text "dualsense" ∷ text "none" ∷ text "hidden" ∷ []) t h) [
      | inl e ↦ (ds4, e)
      | inr h1 ↦ elim (known (text "dualsense") (text "none" ∷ text "hidden" ∷ []) t h1) [
        | inl e ↦ (dualsense, e)
        | inr h2 ↦ elim (known (text "none") (text "hidden" ∷ []) t h2) [
          | inl e ↦ (none_type, e)
          | inr h3 ↦ elim (known (text "hidden") [] t h3) [
            | inl e ↦ (hidden, e)
            | inr h4 ↦ absurd (ground arith)
          ]
        ]
      ]
    ]

type-parsed :
    (type : ControllerType)
    → parse_command (text "set-type " ++ controller_type_config_str type) ≡ set_type type
unfolding parse_command parse_trimmed ◌===◌ starts_with trim_back trim_front
    controller_type_config_str
type-parsed ds4 = refl
type-parsed dualsense = refl
type-parsed none_type = refl
type-parsed hidden = refl

-- Every line that `build_set_type` builds names one of the four types, and the daemon reads it as
-- the request for exactly that type.
pub build_set_type_understood :
    (t cmd : Bytes)
    → build_set_type t ≡ built cmd
    → (type : ControllerType) × (controller_type_config_str type ≡ t)
      × (parse_command cmd ≡ set_type type)
build_set_type_understood t cmd h =
    let (allowed, line) = type-built t cmd h in
    let (type, named) = type-known t allowed in
    (
      type,
      named,
      ap parse_command (sym (ap (λ s. text "set-type " ++ s) named ∙ line)) ∙ type-parsed type,
    )
