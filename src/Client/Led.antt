-- ===== src/Client/Led.antt =====
-- src/ipc-client.cpp, `build_led`: the command that sets the light bar and the motors.
use ds4_translator.Base.{Bool, true, false, ◌||◌, List, [], ◌∷◌, ◌++◌, ltb, if◌then◌else◌}
use ds4_translator.Base.Text.{text}
use ds4_translator.Base.Scanf.{ℤ, pos, negsuc, print_int, snprintf}
use ds4_translator.Client.{Built, built, failed}

abbrev pub out_of_range : ℤ → Bool
out_of_range (negsuc n) = true
out_of_range (pos n) = ltb 255 n

abbrev pub any_out_of_range : List ℤ → Bool
any_out_of_range [] = false
any_out_of_range (value ∷ values) = out_of_range value || any_out_of_range values

unfoldable pub build_led : ℤ → ℤ → ℤ → ℤ → ℤ → Built
unfolding print_int snprintf
build_led red green blue rumble_left rumble_right =
    if any_out_of_range (red ∷ green ∷ blue ∷ rumble_left ∷ rumble_right ∷ [])
    then failed (text "led values must be 0-255")
    else built (
        snprintf 64 (
          text "led "
          ++ (print_int red
              ++ 32
                ∷ (print_int green
                    ++ 32
                      ∷ (print_int blue
                          ++ 32 ∷ (print_int rumble_left ++ 32 ∷ print_int rumble_right))))))
