-- ===== src/Tests/CommandLines.antt =====
-- The theorems at concrete inputs: command lines of ds4-ctl.
use ds4_translator.Base.{◌≡◌, refl, some, false, [], ◌∷◌, ◌++◌, Bytes, All, true, arith}
use ds4_translator.Base.Scanf.{pos}
use ds4_translator.Base.Text.{text, find, starts_with, trim_front, trim_back, ◌===◌}
use ds4_translator.Client.{built, build_set_name, check_value, contains_value, validate_name}
use ds4_translator.Client.Led.{build_led}
use ds4_translator.Ctl.{find_command}
use ds4_translator.Ctl.Dispatch.{dispatch, lines_of, sends, run_command, run_set_name, run_led}
use ds4_translator.Ctl.Lights.{build_led_understood}
use ds4_translator.Ctl.Built.{is_known}
use ds4_translator.Ctl.Understood.{dispatch_understood}
use ds4_translator.Daemon.Commands.{led, unknown, parse_command, parse_trimmed, words}
use ds4_translator.Daemon.Execute.{parse_led}

build_led_understood_example :
    (args : Bytes) × (build_led (pos 255) (pos 0) (pos 16) (pos 0) (pos 200)
      ≡ built (text "led " ++ args))
    × (parse_command (text "led " ++ args) ≡ led args)
    × (parse_led (words args)
        ≡ some (record { motor_left = 0; motor_right = 200; r = 255; g = 0; b = 16 }))
build_led_understood_example =
    build_led_understood 255 0 16 0 200 (omega arith) (omega arith) (omega arith) (omega arith)
      (omega arith)

reset_sent : dispatch (text "1.0") (text "led" ∷ text "--reset" ∷ []) ≡ sends (text "led --reset")
unfolding dispatch ◌===◌ find_command run_command run_led
reset_sent = refl

not_a_name : (text "virtual" === text "set-name") ≡ false
unfolding ◌===◌
not_a_name = refl

dispatch_understood_example :
    All
      (λ line. is_known (parse_command line) ≡ true)
      (lines_of (dispatch (text "1.0") (text "virtual" ∷ text "dualsense" ∷ text "--auto" ∷ [])))
dispatch_understood_example =
    dispatch_understood (text "1.0") (text "virtual") (text "dualsense" ∷ text "--auto" ∷ [])
      not_a_name

-- A name of blanks passes `validate_name`, and the daemon does not know the line.
blank_name_sent :
    dispatch (text "1.0") (text "set-name" ∷ text "ds4" ∷ text " " ∷ [])
    ≡ sends (text "set-name ds4  ")
unfolding dispatch ◌===◌ find_command run_command run_set_name build_set_name check_value
    contains_value validate_name find
blank_name_sent = refl

blank_name_unknown : parse_command (text "set-name ds4  ") ≡ unknown
unfolding parse_command parse_trimmed ◌===◌ starts_with trim_back trim_front
blank_name_unknown = refl
