-- ===== src/Ctl.antt =====
-- src/ctl.cpp, the command line tool: its tables, the state of the button tester and its keys, and
-- the live monitor in the child.
pub mod Built
pub mod Dispatch
pub mod Lights
pub mod Monitor
pub mod Shows
pub mod Tick
pub mod Understood
pub mod Sent
use ds4_translator.Base.{
  ℕ, zero, suc, Bool, true, false, not, ◌&&◌, ◌||◌, Option, none, some, List, [], ◌∷◌, ◌++◌, Bytes,
  take, drop, length, bit_xor, has, ◌==◌, if◌then◌else◌,
}
use ds4_translator.Base.Text.{text, empty, find, ◌===◌}
use ds4_translator.Base.Strtoul.{print}
use ds4_translator.Base.Scanf.{snprintf}
use ds4_translator.Buttons

pub record ButtonSpec : Type 0 where
  pub name : Bytes
  pub bit : ℕ
  pub dpad : ℕ

abbrev button : Bytes → ℕ → ButtonSpec
button name bit = record { name = name; bit = bit; dpad = 8 }

abbrev arrow : Bytes → ℕ → ButtonSpec
arrow name dpad = record { name = name; bit = 0; dpad = dpad }

-- `kButtons`
abbrev pub buttons : List ButtonSpec
buttons =
    button (text "square") Buttons.square
    ∷ button (text "cross") Buttons.cross
    ∷ button (text "circle") Buttons.circle
    ∷ button (text "triangle") Buttons.triangle
    ∷ button (text "l1") Buttons.l1
    ∷ button (text "r1") Buttons.r1
    ∷ button (text "l2") Buttons.l2
    ∷ button (text "r2") Buttons.r2
    ∷ button (text "l3") Buttons.l3
    ∷ button (text "r3") Buttons.r3
    ∷ button (text "share") Buttons.share
    ∷ button (text "options") Buttons.options
    ∷ button (text "ps") Buttons.ps
    ∷ button (text "touchpad") Buttons.touchpad
    ∷ arrow (text "up") 0
    ∷ arrow (text "down") 4
    ∷ arrow (text "left") 6
    ∷ arrow (text "right") 2
    ∷ []

unfoldable pub find_button : Bytes → List ButtonSpec → Option ButtonSpec
unfolding ◌===◌
find_button name [] = none
find_button name (b ∷ bs) =
    let rest = find_button name bs in if name === b.name then some b else rest

pub record CommandSpec : Type 0 where
  pub name : Bytes
  pub arg_completions : Option Bytes

abbrev command : Bytes → CommandSpec
command name = record { name = name; arg_completions = none }

abbrev command_with : Bytes → Bytes → CommandSpec
command_with name words = record { name = name; arg_completions = some words }

-- `kCommands`
abbrev pub commands : List CommandSpec
commands =
    command (text "version")
    ∷ command (text "status")
    ∷ command_with (text "set-type") (text "ds4 dualsense none hidden")
    ∷ command (text "set-backend")
    ∷ command (text "set-name")
    ∷ command_with (text "create-virtual") (text "ds4 dualsense")
    ∷ command (text "destroy-virtual")
    ∷ command_with (text "virtual") (text "ds4 dualsense --auto")
    ∷ command (text "release-physical")
    ∷ command (text "resume-physical")
    ∷ command (text "tap")
    ∷ command (text "test")
    ∷ command (text "identify")
    ∷ command_with (text "led") (text "--reset")
    ∷ command_with (text "set-hide-method") (text "legacy unbind")
    ∷ []

unfoldable pub find_command : Bytes → List CommandSpec → Option CommandSpec
unfolding ◌===◌
find_command name [] = none
find_command name (c ∷ cs) =
    let rest = find_command name cs in if name === c.name then some c else rest

-- The loop of `is_in_list` from one start; each round goes past a space.
unfoldable pub in_list_from : ℕ → Bytes → Bytes → Bool
unfolding find ◌===◌
in_list_from zero word s = false
in_list_from (suc fuel) word [] = false
in_list_from (suc fuel) word (c ∷ s) = elim (find 32 (c ∷ s)) [
  | none ↦ (c ∷ s) === word
  | some i ↦ take i (c ∷ s) === word || in_list_from fuel word (drop i s)
]

unfoldable pub is_in_list : Bytes → Bytes → Bool
unfolding in_list_from
is_in_list word words = in_list_from (length words) word words

pub record UiState : Type 0 where
  pub buttons : ℕ
  pub dpad : ℕ

abbrev pub released : UiState
released = record { buttons = 0; dpad = 8 }

-- The command that `send_ui_state` sends. The triggers follow their buttons.
unfoldable pub input_command : UiState → Bytes
unfolding snprintf print
input_command s =
    let trigger = λ (mask : ℕ). if has s.buttons mask then print 10 255 else print 10 0 in
    snprintf 128 (
      text "input "
      ++ (print 16 s.buttons
          ++ (32
              ∷ (print 10 s.dpad
                  ++ (text " 128 128 128 128 "
                      ++ (trigger Buttons.l2 ++ (32 ∷ trigger Buttons.r2)))))))

-- The two commands of `run_tap`, or the error of an unknown button.
abbrev pub tapped : Option ButtonSpec → Option (Bytes × Bytes)
tapped none = none
tapped (some spec) =
    some (input_command (record { buttons = spec.bit; dpad = spec.dpad }), input_command released)

unfoldable pub run_tap : Bytes → Option (Bytes × Bytes)
run_tap name = tapped (find_button name buttons)

-- The bit of a key, 0 for one that has none.
unfoldable pub key_bit : ℕ → ℕ
key_bit c =
    if c == 105 || c == 73
    then Buttons.triangle
    else if c == 106 || c == 74
    then Buttons.square
    else if c == 107 || c == 75
    then Buttons.cross
    else if c == 108 || c == 76
    then Buttons.circle
    else if c == 113 || c == 81
    then Buttons.l1
    else if c == 101 || c == 69
    then Buttons.r1
    else if c == 49
    then Buttons.l2
    else if c == 50
    then Buttons.r2
    else if c == 122 || c == 90
    then Buttons.l3
    else if c == 120 || c == 88
    then Buttons.r3
    else if c == 45
    then Buttons.share
    else if c == 61
    then Buttons.options
    else if c == 112 || c == 80
    then Buttons.ps
    else if c == 116 || c == 84
    then Buttons.touchpad
    else 0

-- What a key press is to the tester. `escape` has the bytes that followed within 20 ms, `none` if
-- none did.
pub data Press : Type 0 where
  key : ℕ → Press
  escape : Option Bytes → Press

-- The arrow toggles between its direction and the centre.
abbrev toggle_dpad : ℕ → UiState → UiState
toggle_dpad direction s = record s { dpad = if s.dpad == direction then 8 else direction }

unfoldable pub on_arrow : ℕ → UiState → UiState
on_arrow c s =
    if c == 65
    then toggle_dpad 0 s
    else if c == 66
    then toggle_dpad 4 s
    else if c == 67
    then toggle_dpad 2 s
    else if c == 68
    then toggle_dpad 6 s
    else s

-- The state, whether it changed, and whether the tester ends.
unfoldable pub on_press : Press → UiState → UiState × Bool × Bool
unfolding on_arrow key_bit
on_press (escape none) s = (s, false, true)
on_press (escape (some seq)) s = elim seq [
  | [] ↦ (s, false, false)
  | a ∷ rest ↦ elim rest [
    | [] ↦ (s, false, false)
    | c ∷ more ↦
        let s' = if a == 91 then on_arrow c s else s in (s', not (s'.dpad == s.dpad), false)
  ]
]
on_press (key c) s =
    if c == 3
    then (s, false, true)
    else if c == 114 || c == 82
    then (released, true, false)
    else if not (key_bit c == 0)
    then (record s { buttons = bit_xor s.buttons (key_bit c) }, true, false)
    else (s, false, false)
