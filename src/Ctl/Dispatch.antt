-- ===== src/Ctl/Dispatch.antt =====
-- src/ctl.cpp, `main`: what a command line of ds4-ctl leads to. The arguments are those behind the
-- name of the program. Exit codes and the texts that only explain are left out: the usage, the warning
-- of set-name and what is said where the daemon does not answer.
use ds4_translator.Base.{
  ℕ, ◌-◌, ◌^◌, Bool, true, false, not, ◌||◌, Option, none, some, List, [], ◌∷◌, ◌++◌, Bytes, map,
  ltb, leb, is_some, ◌==◌, if◌then◌else◌, ◌>>=◌,
}
use ds4_translator.Base.Text.{text, empty, trim_front, ◌===◌}
use ds4_translator.Base.Strtoul.{is_space, sign, digits, digit_value}
use ds4_translator.Base.Scanf.{ℤ, pos, negsuc}
use ds4_translator.Client.{
  Built, built, failed, build_set_type, build_set_backend, build_set_name, build_set_hide_method,
  join_values, type_values, hide_method_values,
}
use ds4_translator.Client.Led.{build_led}
use ds4_translator.Ctl.{
  ButtonSpec, buttons, CommandSpec, commands, find_command, is_in_list, run_tap, input_command,
  released,
}

pub data Dispatch : Type 0 where
  usage monitors : Dispatch
  prints fails sends taps : Bytes → Dispatch
  virtual_ui : Bytes → Bool → Dispatch

abbrev button_name : ButtonSpec → Bytes
button_name b = b.name

unfoldable pub button_names_joined : Bytes
unfolding join_values
button_names_joined = join_values (map button_name buttons)

abbrev pub command_lines : List CommandSpec → Bytes
command_lines [] = []
command_lines (c ∷ cs) = c.name ++ 10 ∷ command_lines cs

abbrev pub completions_of : Option CommandSpec → Bytes
completions_of none = []
completions_of (some spec) = elim spec.arg_completions [ none ↦ [] | some list ↦ list ++ 10 ∷ [] ]

-- The words behind the target decide what the next one may be.
abbrev pub next_word : Bytes → List Bytes → Bytes
next_word second [] = text "ds4 dualsense" ++ 10 ∷ []
next_word second (first ∷ []) = second
next_word second (first ∷ other ∷ rest) = []

unfoldable pub complete_args : List Bytes → Bytes
unfolding button_names_joined find_command ◌===◌
complete_args [] = []
complete_args (target ∷ rest) =
    if target === text "tap"
    then button_names_joined ++ 10 ∷ []
    else if target === text "set-backend"
    then next_word (text "uhid functionfs" ++ 10 ∷ []) rest
    else if target === text "set-name"
    then next_word (text "--reset" ++ 10 ∷ []) rest
    else completions_of (find_command target commands)

-- What a builder made: an empty line stands for an error.
abbrev pub sent : Built → Dispatch
sent (built line) = if empty line then fails (text "Error: ") else sends line
sent (failed error) = fails (text "Error: " ++ error)

abbrev join_rest : List Bytes → Bytes
join_rest [] = []
join_rest (word ∷ words) = 32 ∷ (word ++ join_rest words)

-- `name_arg`: the words with a space before each but the first.
abbrev pub join_words : List Bytes → Bytes
join_words [] = []
join_words (word ∷ words) = word ++ join_rest words

unfoldable pub run_set_name : List Bytes → Dispatch
unfolding build_set_name ◌===◌
run_set_name (ctrl ∷ word ∷ words) = sent (
    build_set_name ctrl
      (if word === text "--reset" then text "--reset" else join_words (word ∷ words)))
run_set_name (ctrl ∷ []) =
    fails (text "Error: set-name requires <ds4|dualsense> <name> (or --reset)")
run_set_name [] = fails (text "Error: set-name requires <ds4|dualsense> <name> (or --reset)")

unfoldable pub run_virtual : Bytes → List Bytes → Bytes → Bool → Dispatch
unfolding is_in_list ◌===◌
run_virtual list [] type auto_destroy = virtual_ui type auto_destroy
run_virtual list (arg ∷ args) type auto_destroy =
    let automatic = run_virtual list args type true in
    let chosen_type = run_virtual list args arg auto_destroy in
    if arg === text "--auto"
    then automatic
    else if is_in_list arg list
    then chosen_type
    else fails
        (text "Error: Invalid argument '" ++ arg ++ text "'. Supported: " ++ list ++ text " --auto")

-- `strtol` in base 10 with 64 bits: the number and where the reading ended, `none` where there is no
-- digit.
abbrev pub signed_long : Bool × ℕ → ℤ
signed_long (false, n) = if leb (2 ^ 63) n then pos (2 ^ 63 - 1) else pos n
signed_long (true, n) =
    if leb (2 ^ 63) n then negsuc (2 ^ 63 - 1) else if n == 0 then pos 0 else negsuc (n - 1)

unfoldable pub read_long : Bool → Bytes → Option (ℤ × Bytes)
unfolding digits digit_value
read_long minus [] = none
read_long minus (c ∷ s) =
    let (n, rest) = digits 10 0 (c ∷ s) in
    if is_some (digit_value 10 c) then some (signed_long (minus, n), rest) else none

unfoldable pub strtol : Bytes → Option (ℤ × Bytes)
unfolding read_long trim_front
strtol s = let (minus, body) = sign (trim_front is_space s) in read_long minus body

abbrev pub byte_value : ℤ → Option ℤ
byte_value (negsuc n) = none
byte_value (pos n) = if ltb 255 n then none else some (pos n)

-- Nothing may stand behind the number.
abbrev pub whole_byte : Option (ℤ × Bytes) → Option ℤ
whole_byte none = none
whole_byte (some (value, rest)) = if not (empty rest) then none else byte_value value

unfoldable pub led_value : Bytes → Option ℤ
unfolding strtol
led_value arg = whole_byte (strtol arg)

abbrev led_error : Dispatch
led_error = fails (text "Error: led values must be whole numbers 0-255")

-- All five are read before the line is built.
abbrev pub led_line : Option Built → Dispatch
led_line none = led_error
led_line (some line) = sent line

unfoldable pub read_led : Bytes → Bytes → Bytes → Bytes → Bytes → Option Built
unfolding led_value build_led
read_led a b c d e = do
  red ← led_value a
  green ← led_value b
  blue ← led_value c
  left ← led_value d
  right ← led_value e
  some (build_led red green blue left right)

abbrev led_requires : Dispatch
led_requires =
    fails
      (text "Error: led requires <r> <g> <b> <rumble-left> <rumble-right> (each 0-255), or --reset")

unfoldable pub run_led_values : List Bytes → Dispatch
unfolding read_led
run_led_values (a ∷ b ∷ c ∷ d ∷ e ∷ more) = led_line (read_led a b c d e)
run_led_values args = led_requires

unfoldable pub run_led : List Bytes → Dispatch
unfolding run_led_values ◌===◌
run_led [] = led_requires
run_led (arg ∷ args) =
    if arg === text "--reset" then sends (text "led --reset") else run_led_values (arg ∷ args)

unfoldable pub run_create : Bytes → List Bytes → Dispatch
unfolding is_in_list
run_create list [] =
    fails (text "Error: create-virtual requires a target type (" ++ list ++ text ")")
run_create list (type ∷ args) =
    if is_in_list type list
    then sends (text "create-virtual" ++ 32 ∷ type)
    else fails (text "Error: Invalid type. Supported: " ++ list)

unfoldable pub run_set_backend : List Bytes → Dispatch
unfolding build_set_backend
run_set_backend (controller ∷ backend ∷ args) = sent (build_set_backend controller backend)
run_set_backend args = fails (text "Error: set-backend requires <ds4|dualsense> <uhid|functionfs>")

unfoldable pub run_set_type : List Bytes → Dispatch
unfolding build_set_type join_values
run_set_type (type ∷ args) = sent (build_set_type type)
run_set_type [] =
    fails (text "Error: set-type requires a target type (" ++ join_values type_values ++ text ")")

unfoldable pub run_set_hide_method : List Bytes → Dispatch
unfolding build_set_hide_method join_values
run_set_hide_method (method ∷ args) = sent (build_set_hide_method method)
run_set_hide_method [] =
    fails (text "Error: set-hide-method requires " ++ join_values hide_method_values)

unfoldable pub run_tap_command : List Bytes → Dispatch
run_tap_command [] = fails (text "Error: tap requires a button name (see 'ds4-ctl' usage)")
run_tap_command (name ∷ args) = taps name

abbrev pub list_of : CommandSpec → Bytes
list_of spec = elim spec.arg_completions [ none ↦ [] | some list ↦ list ]

-- A command of the table; one that no test names is sent as it stands.
unfoldable pub run_command : CommandSpec → Bytes → List Bytes → Dispatch
unfolding run_set_name run_virtual run_tap_command run_set_backend run_set_type run_set_hide_method
    run_led run_create ◌===◌
run_command spec cmd args =
    if cmd === text "set-name"
    then run_set_name args
    else if cmd === text "virtual"
    then run_virtual (list_of spec) args (text "ds4") false
    else if cmd === text "tap"
    then run_tap_command args
    else if cmd === text "test"
    then monitors
    else if cmd === text "set-backend"
    then run_set_backend args
    else if cmd === text "set-type"
    then run_set_type args
    else if cmd === text "set-hide-method"
    then run_set_hide_method args
    else if cmd === text "led"
    then run_led args
    else if cmd === text "create-virtual"
    then run_create (list_of spec) args
    else sends cmd

-- What `find_command` gave.
abbrev pub run_found : Option CommandSpec → Bytes → List Bytes → Dispatch
run_found none cmd args = fails (text "Error: Unknown command '" ++ cmd ++ text "'")
run_found (some spec) cmd args = run_command spec cmd args

-- `version` is set by the build.
unfoldable pub dispatch : Bytes → List Bytes → Dispatch
unfolding ◌===◌
dispatch version [] = usage
dispatch version (cmd ∷ args) =
    if cmd === text "version" || cmd === text "--version" || cmd === text "-v"
    then prints (text "ds4-ctl " ++ version ++ 10 ∷ [])
    else if cmd === text "--commands"
    then prints (command_lines commands)
    else if cmd === text "--complete-args"
    then prints (complete_args args)
    else run_found (find_command cmd commands) cmd args

abbrev pub tap_lines : Option (Bytes × Bytes) → List Bytes
tap_lines none = []
tap_lines (some (pressed, released)) = pressed ∷ released ∷ []

-- The lines that go to the daemon: of the button tester, those before the first key and the one behind
-- the last, which `auto_destroy` asks for; of the live monitor, the one that starts the stream.
abbrev pub lines_of : Dispatch → List Bytes
lines_of usage = []
lines_of (prints out) = []
lines_of (fails error) = []
lines_of (sends line) = line ∷ []
lines_of monitors = text "test" ∷ []
lines_of (taps name) = tap_lines (run_tap name)
lines_of (virtual_ui type true) =
    (text "create-virtual " ++ type)
    ∷ input_command released
    ∷ text "status"
    ∷ text "destroy-virtual"
    ∷ []
lines_of (virtual_ui type false) =
    (text "create-virtual " ++ type) ∷ input_command released ∷ text "status" ∷ []
