-- ===== src/Ctl/Understood.antt =====
-- The daemon understands what a command line of ds4-ctl sends it.
use ds4_translator.Base.{
  ◌<◌, Bool, true, false, ◌≡◌, refl, sym, ap, Option, none, some, List, [], ◌∷◌, ◌++◌, Bytes, All,
  Bool-cases, ◌⊎◌, inl, inr, arith, ◌||◌,
}
use ds4_translator.Base.Text.{text, trim_front, trim_back, starts_with, find, ◌===◌, ===_iff}
use ds4_translator.Client.{build_set_type, build_set_backend, build_set_hide_method}
use ds4_translator.Ctl.Sent.{input_command_understood}
use ds4_translator.Ctl.{
  ButtonSpec, buttons, find_button, UiState, released, input_command, run_tap, tapped, CommandSpec,
  commands, find_command, is_in_list, in_list_from,
}
use ds4_translator.Ctl.Dispatch.{
  Dispatch, usage, monitors, prints, fails, sends, taps, virtual_ui, lines_of, tap_lines,
  run_set_type, run_set_backend, run_set_hide_method, run_create, run_command, run_found, dispatch,
  run_virtual, run_tap_command,
}
use ds4_translator.Daemon.Commands.{parse_command, parse_trimmed}
use ds4_translator.Ctl.Built.{
  is_known, Understood, Good, sent-Good, set_type-GoodBuilt, hide_method-GoodBuilt,
  backend-GoodBuilt, run_led-Good,
}

run_create-Good : (args : List Bytes) → Good (run_create (text "ds4 dualsense") args)
unfolding run_create is_in_list in_list_from find ◌===◌ parse_command parse_trimmed starts_with
    trim_back trim_front
run_create-Good [] = tt
run_create-Good (type ∷ args) = elim (Bool-cases (text "ds4" === type)) [
  | inl e ↦ rw (sym ((===_iff (text "ds4") type).0 e)) refl
  | inr e ↦ elim (Bool-cases (text "dualsense" === type)) [
    | inl f ↦ rw (sym ((===_iff (text "dualsense") type).0 f)) refl
    | inr f ↦ rw (e, f) tt
  ]
]

run_set_type-Good : (args : List Bytes) → Good (run_set_type args)
unfolding run_set_type
run_set_type-Good [] = tt
run_set_type-Good (type ∷ args) = sent-Good (build_set_type type) (set_type-GoodBuilt type)

run_set_hide_method-Good : (args : List Bytes) → Good (run_set_hide_method args)
unfolding run_set_hide_method
run_set_hide_method-Good [] = tt
run_set_hide_method-Good (m ∷ args) = sent-Good (build_set_hide_method m) (hide_method-GoodBuilt m)

run_set_backend-Good : (args : List Bytes) → Good (run_set_backend args)
unfolding run_set_backend
run_set_backend-Good [] = tt
run_set_backend-Good (c ∷ []) = tt
run_set_backend-Good (c ∷ b ∷ args) = sent-Good (build_set_backend c b) (backend-GoodBuilt c b)

-- The bits of a button fit the report.
abbrev FitsButton : ButtonSpec → Type 0
FitsButton b = (b.bit < 65536) × (b.dpad < 256)

abbrev FitsFound : Option ButtonSpec → Type 0
FitsFound none = Unit
FitsFound (some b) = FitsButton b

find_button-Fits :
    (name : Bytes) (bs : List ButtonSpec) → All FitsButton bs → FitsFound (find_button name bs)
unfolding find_button
find_button-Fits name [] p = tt
find_button-Fits name (b ∷ bs) p = elim (Bool-cases (name === b.name)) [
  | inl e ↦ rw e (p.0)
  | inr e ↦ rw e (find_button-Fits name bs p.1)
]

buttons-Fit : All FitsButton buttons
buttons-Fit = omega arith

input-Understood : (s : UiState) → s.buttons < 65536 → s.dpad < 256 → Understood (input_command s)
input-Understood s hb hd =
    let (args, read, numbers) = input_command_understood s hb hd in ap is_known read

tapped-Good : (o : Option ButtonSpec) → FitsFound o → All Understood (tap_lines (tapped o))
tapped-Good none fits = tt
tapped-Good (some spec) fits = (
  input-Understood (record { buttons = spec.bit; dpad = spec.dpad }) fits.0 fits.1,
  (input-Understood released (omega arith) (omega arith), tt),
)

taps-Good : (name : Bytes) → Good (taps name)
unfolding run_tap
taps-Good name = tapped-Good (find_button name buttons) (find_button-Fits name buttons buttons-Fit)

run_tap_command-Good : (args : List Bytes) → Good (run_tap_command args)
unfolding run_tap_command
run_tap_command-Good [] = tt
run_tap_command-Good (name ∷ args) = taps-Good name

abbrev Creates : Bytes → Type 0
Creates type = Understood (text "create-virtual " ++ type)

in_list-Creates :
    (arg : Bytes)
    → is_in_list arg (text "ds4 dualsense --auto") ≡ true
    → (arg === text "--auto") ≡ false
    → Creates arg
unfolding is_in_list in_list_from find ◌===◌ parse_command parse_trimmed starts_with trim_back
    trim_front
in_list-Creates arg h n = elim (Bool-cases (text "ds4" === arg)) [
  | inl e ↦ rw (sym ((===_iff (text "ds4") arg).0 e)) refl
  | inr e ↦ elim (Bool-cases (text "dualsense" === arg)) [
    | inl f ↦ rw (sym ((===_iff (text "dualsense") arg).0 f)) refl
    | inr f ↦
        let last : (text "--auto" === arg) ≡ true = rw (e, f) at h in
        absurd (
          ground (
            arith,
            n,
            (===_iff arg (text "--auto")).1 (sym ((===_iff (text "--auto") arg).0 last)),
          ))
  ]
]

run_virtual-Good :
    (args : List Bytes) (type : Bytes) (automatic : Bool)
    → Creates type
    → Good (run_virtual (text "ds4 dualsense --auto") args type automatic)
unfolding run_virtual
run_virtual-Good [] type automatic c = c
run_virtual-Good (arg ∷ args) type automatic c = elim (Bool-cases (arg === text "--auto")) [
  | inl e ↦ rw e (run_virtual-Good args type true c)
  | inr e ↦ elim (Bool-cases (is_in_list arg (text "ds4 dualsense --auto"))) [
    | inl f ↦ rw (e, f) (run_virtual-Good args arg automatic (in_list-Creates arg f e))
    | inr f ↦ rw (e, f) tt
  ]
]

-- Each command of the table but `set-name` and `version`, with whatever arguments.
abbrev Answered : CommandSpec → Type 0
Answered spec =
    (spec.name === text "set-name" || spec.name === text "version") ≡ false
    → (args : List Bytes) → Good (run_command spec spec.name args)

commands-Answered : All Answered commands
unfolding run_command parse_command parse_trimmed ◌===◌ starts_with trim_back trim_front
commands-Answered = (
  (λ h args. absurd (ground (arith, h))),
  (
    (λ h args. refl),
    (
      (λ h args. run_set_type-Good args),
      (
        (λ h args. run_set_backend-Good args),
        (
          (λ h args. absurd (ground (arith, h))),
          (
            (λ h args. run_create-Good args),
            (
              (λ h args. refl),
              (
                (λ h args. run_virtual-Good args (text "ds4") false refl),
                (
                  (λ h args. refl),
                  (
                    (λ h args. refl),
                    (
                      (λ h args. run_tap_command-Good args),
                      (
                        (λ h args. refl),
                        (
                          (λ h args. refl),
                          (
                            (λ h args. run_led-Good args),
                            ((λ h args. run_set_hide_method-Good args), tt),
                          ),
                        ),
                      ),
                    ),
                  ),
                ),
              ),
            ),
          ),
        ),
      ),
    ),
  ),
)

find_command-All :
    (P : CommandSpec → Type 0) (name : Bytes) (cs : List CommandSpec)
    → All P cs
    → (find_command name cs ≡ none)
      ⊎ ((spec : CommandSpec) × (find_command name cs ≡ some spec) × (name ≡ spec.name) × P spec)
unfolding find_command
find_command-All P name [] p = inl refl
find_command-All P name (c ∷ cs) p = elim (Bool-cases (name === c.name)) [
  | inl e ↦ inr (c, rw e refl, (===_iff name c.name).0 e, p.0)
  | inr e ↦ rw e (find_command-All P name cs p.1)
]

-- The command that was found has the name that was looked for.
found-Good :
    (cmd : Bytes) (args : List Bytes)
    → (cmd === text "set-name" || cmd === text "version") ≡ false
    → Good (run_found (find_command cmd commands) cmd args)
unfolding run_command
found-Good cmd args h = elim (find_command-All Answered cmd commands commands-Answered) [
  | inl m ↦ rw m tt
  | inr (spec, m, named, p) ↦ rw m (rw (sym named) at p h args)
]

run-Good :
    (version cmd : Bytes) (args : List Bytes)
    → (cmd === text "set-name") ≡ false
    → Good (dispatch version (cmd ∷ args))
unfolding dispatch
run-Good version cmd args h = elim (Bool-cases (cmd === text "version")) [
  | inl e ↦ rw e tt
  | inr e ↦ elim (Bool-cases (cmd === text "--version" || cmd === text "-v")) [
    | inl f ↦ rw (e, f) tt
    | inr f ↦ elim (Bool-cases (cmd === text "--commands")) [
      | inl g ↦ rw (e, f, g) tt
      | inr g ↦ elim (Bool-cases (cmd === text "--complete-args")) [
        | inl k ↦ rw (e, f, g, k) tt
        | inr k ↦ rw (e, f, g, k) (found-Good cmd args (rw (h, e) refl))
      ]
    ]
  ]
]

lines-Understood : (x : Dispatch) → Good x → All Understood (lines_of x)
unfolding parse_command parse_trimmed ◌===◌ starts_with trim_back trim_front
lines-Understood usage h = tt
lines-Understood (prints out) h = tt
lines-Understood (fails error) h = tt
lines-Understood (sends line) h = (h, tt)
lines-Understood monitors h = (h, tt)
lines-Understood (taps name) h = h
lines-Understood (virtual_ui type true) h =
    (h, (input-Understood released (omega arith) (omega arith), (refl, (refl, tt))))
lines-Understood (virtual_ui type false) h =
    (h, (input-Understood released (omega arith) (omega arith), (refl, tt)))

-- Whatever the arguments of ds4-ctl are, unless the command is `set-name`: the daemon answers none of
-- the lines that they lead to with `Unknown command`. This includes both lines of `tap`, the one that
-- starts the live monitor, and those with which the button tester starts and ends.
pub dispatch_understood :
    (version cmd : Bytes) (args : List Bytes)
    → (cmd === text "set-name") ≡ false
    → All (λ line. is_known (parse_command line) ≡ true) (lines_of (dispatch version (cmd ∷ args)))
dispatch_understood version cmd args h =
    lines-Understood (dispatch version (cmd ∷ args)) (run-Good version cmd args h)
