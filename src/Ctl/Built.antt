-- ===== src/Ctl/Built.antt =====
-- The lines that the builders of the client library give to ds4-ctl, against `parse_command`.
use ds4_translator.Base.{
  ℕ, ◌<◌, Bool, true, false, ◌≡◌, refl, sym, ap, Option, none, some, List, [], ◌∷◌, ◌++◌, Bytes,
  All, Bool-cases, ◌⊎◌, inl, inr, arith, ltb,
}
use ds4_translator.Base.Scanf.{ℤ, pos, negsuc}
use ds4_translator.Base.Text.{text, trim_front, trim_back, starts_with, ◌===◌, ===_iff}
use ds4_translator.Client.{
  Built, built, failed, contains_value, check_value, controller_values, type_values, backend_values,
  hide_method_values, build_set_type, build_set_backend, build_set_hide_method,
}
use ds4_translator.Client.Led.{build_led}
use ds4_translator.Ctl.Dispatch.{
  Dispatch, usage, monitors, prints, fails, sends, taps, virtual_ui, lines_of, sent, run_led,
  run_led_values, read_led, led_value, strtol, whole_byte, byte_value,
}
use ds4_translator.Ctl.Lights.{build_led_understood}
use ds4_translator.Daemon.Commands.{Command, unknown, parse_command, parse_trimmed}

-- Whether the daemon answers anything but `Unknown command`.
abbrev pub is_known : Command → Bool
is_known unknown = false
is_known c = true

abbrev pub Understood : Bytes → Type 0
Understood line = is_known (parse_command line) ≡ true

-- What a command line leads to, if it leads to a line for the daemon.
abbrev pub Good : Dispatch → Type 0
Good (sends line) = Understood line
Good usage = Unit
Good monitors = Understood (text "test")
Good (prints out) = Unit
Good (fails error) = Unit
Good (taps name) = All Understood (lines_of (taps name))
Good (virtual_ui type automatic) = Understood (text "create-virtual " ++ type)

abbrev pub GoodBuilt : Built → Type 0
GoodBuilt (built line) = Understood line
GoodBuilt (failed error) = Unit

pub sent-Good : (b : Built) → GoodBuilt b → Good (sent b)
sent-Good (built []) h = tt
sent-Good (built (c ∷ line)) h = h
sent-Good (failed error) h = tt

-- A value of a list of allowed ones has what they all have.
contains-All :
    (P : Bytes → Type 0) (vs : List Bytes) (v : Bytes) → contains_value vs v ≡ true → All P vs → P v
unfolding contains_value
contains-All P [] v h p = absurd (ground arith)
contains-All P (w ∷ vs) v h p = elim (Bool-cases (w === v)) [
  | inl e ↦ rw (sym ((===_iff w v).0 e)) p.0
  | inr e ↦ contains-All P vs v (rw e at h) p.1
]

pub set_type-GoodBuilt : (t : Bytes) → GoodBuilt (build_set_type t)
unfolding build_set_type check_value parse_command parse_trimmed ◌===◌ starts_with trim_back
    trim_front
set_type-GoodBuilt t = elim (Bool-cases (contains_value type_values t)) [
  | inl e ↦ rw e (
      contains-All (λ v. Understood (text "set-type " ++ v)) type_values t e
        (refl, (refl, (refl, (refl, tt)))))
  | inr e ↦ rw e tt
]

pub hide_method-GoodBuilt : (m : Bytes) → GoodBuilt (build_set_hide_method m)
unfolding build_set_hide_method check_value parse_command parse_trimmed ◌===◌ starts_with trim_back
    trim_front
hide_method-GoodBuilt m = elim (Bool-cases (contains_value hide_method_values m)) [
  | inl e ↦ rw e (
      contains-All (λ v. Understood (text "set-hide-method " ++ v)) hide_method_values m e
        (refl, (refl, tt)))
  | inr e ↦ rw e tt
]

abbrev BackendLine : Bytes → Bytes → Type 0
BackendLine c b = Understood (text "set-backend " ++ c ++ text " " ++ b)

pub backend-GoodBuilt : (c b : Bytes) → GoodBuilt (build_set_backend c b)
unfolding build_set_backend check_value parse_command parse_trimmed ◌===◌ starts_with trim_back
    trim_front
backend-GoodBuilt c b = elim (Bool-cases (contains_value controller_values c)) [
  | inr e ↦ rw e tt
  | inl e ↦ elim (Bool-cases (contains_value backend_values b)) [
    | inr f ↦ rw (e, f) tt
    | inl f ↦
        rw (e, f)
          (contains-All (λ d. BackendLine c d) backend_values b f
            (
              contains-All (λ d. BackendLine d (text "uhid")) controller_values c e
                  (refl, (refl, tt)),
              (
                contains-All (λ d. BackendLine d (text "functionfs")) controller_values c e
                    (refl, (refl, tt)),
                tt,
              ),
            ))
  ]
]

byte_value-cases :
    (z : ℤ) → (byte_value z ≡ none) ⊎ ((n : ℕ) × (byte_value z ≡ some (pos n)) × (n < 256))
byte_value-cases (negsuc n) = inl refl
byte_value-cases (pos n) = elim (Bool-cases (ltb 255 n)) [
  | inl e ↦ inl (rw e refl)
  | inr e ↦ inr (n, rw e refl, ground arith)
]

whole_byte-cases :
    (o : Option (ℤ × Bytes))
    → (whole_byte o ≡ none) ⊎ ((n : ℕ) × (whole_byte o ≡ some (pos n)) × (n < 256))
whole_byte-cases none = inl refl
whole_byte-cases (some (z, [])) = byte_value-cases z
whole_byte-cases (some (z, c ∷ rest)) = inl refl

led_value-cases :
    (arg : Bytes) → (led_value arg ≡ none) ⊎ ((n : ℕ) × (led_value arg ≡ some (pos n)) × (n < 256))
unfolding led_value
led_value-cases arg = whole_byte-cases (strtol arg)

led_line-Good :
    (red green blue left right : ℕ)
    → red < 256
    → green < 256
    → blue < 256
    → left < 256
    → right < 256
    → GoodBuilt (build_led (pos red) (pos green) (pos blue) (pos left) (pos right))
led_line-Good red green blue left right hr hg hb hl hw =
    let (args, whole, read, numbers) =
      build_led_understood red green blue left right hr hg hb hl hw in
    rw whole (ap is_known read)

run_led_values-Good : (args : List Bytes) → Good (run_led_values args)
unfolding run_led_values read_led
run_led_values-Good [] = tt
run_led_values-Good (a ∷ []) = tt
run_led_values-Good (a ∷ b ∷ []) = tt
run_led_values-Good (a ∷ b ∷ c ∷ []) = tt
run_led_values-Good (a ∷ b ∷ c ∷ d ∷ []) = tt
run_led_values-Good (a ∷ b ∷ c ∷ d ∷ e ∷ more) = elim (led_value-cases a) [
  | inl p ↦ rw p tt
  | inr (red, p, hr) ↦ elim (led_value-cases b) [
    | inl q ↦ rw (p, q) tt
    | inr (green, q, hg) ↦ elim (led_value-cases c) [
      | inl s ↦ rw (p, q, s) tt
      | inr (blue, s, hb) ↦ elim (led_value-cases d) [
        | inl t ↦ rw (p, q, s, t) tt
        | inr (left, t, hl) ↦ elim (led_value-cases e) [
          | inl u ↦ rw (p, q, s, t, u) tt
          | inr (right, u, hw) ↦
              rw (p, q, s, t, u)
                (sent-Good (build_led (pos red) (pos green) (pos blue) (pos left) (pos right))
                  (led_line-Good red green blue left right hr hg hb hl hw))
        ]
      ]
    ]
  ]
]

pub run_led-Good : (args : List Bytes) → Good (run_led args)
unfolding run_led parse_command parse_trimmed ◌===◌ starts_with trim_back trim_front
run_led-Good [] = tt
run_led-Good (arg ∷ args) = elim (Bool-cases (arg === text "--reset")) [
  | inl e ↦ rw e refl
  | inr e ↦ rw e (run_led_values-Good (arg ∷ args))
]
