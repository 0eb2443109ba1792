-- ===== src/Daemon/Commands.antt =====
-- src/main.cpp, what a line on the control socket asks for, and `parse_unsigned_token`.
use ds4_translator.Base.{
  ℕ, ◌-◌, ◌^◌, Bool, true, false, not, ◌||◌, Option, none, some, List, [], ◌∷◌, Bytes, drop, ltb,
  if◌then◌else◌,
}
use ds4_translator.Base.Text.{text, empty, starts_with, trim_back, ◌===◌}
use ds4_translator.Base.Strtoul.{is_space, strtoul}
use ds4_translator.Config.{is_blank}
use ds4_translator.Emulation.{
  ControllerType, ds4, dualsense, none as none_type, hidden, HideMethod, legacy, unbind,
  BackendType, uhid, functionfs,
}

pub data Command : Type 0 where
  status destroy_virtual release_physical resume_physical identify led_reset create_ds4
        create_dualsense :
      Command
  set_type : ControllerType → Command
  set_backend : ControllerType → BackendType → Command
  set_name : ControllerType → Bytes → Command
  set_hide_method : HideMethod → Command
  -- the text behind the first word
  input led : Bytes → Command
  -- with whether all changes are wanted
  test : Bool → Command
  unknown : Command

-- An answer by what it says: `OK: ...`, that nothing needs to change, `Error: ...`, the lines of
-- `status`, the start of a stream to a subscriber, or `Unknown command`. The text is not modelled.
pub data Answer : Type 0 where
  done already refused shown streaming not_understood : Answer

-- A chain of `if` on the whole line or on its first words.
abbrev pub parse_set : Bytes → Command
parse_set cmd =
    if cmd === text "set-type ds4"
    then set_type ds4
    else if cmd === text "set-type dualsense"
    then set_type dualsense
    else if cmd === text "set-type none"
    then set_type none_type
    else if cmd === text "set-type hidden"
    then set_type hidden
    else if cmd === text "set-backend ds4 uhid"
    then set_backend ds4 uhid
    else if cmd === text "set-backend ds4 functionfs"
    then set_backend ds4 functionfs
    else if cmd === text "set-backend dualsense uhid"
    then set_backend dualsense uhid
    else if cmd === text "set-backend dualsense functionfs"
    then set_backend dualsense functionfs
    else if starts_with (text "set-name ds4 ") cmd
    then set_name ds4 (drop 13 cmd)
    else if starts_with (text "set-name dualsense ") cmd
    then set_name dualsense (drop 19 cmd)
    else if cmd === text "set-hide-method legacy"
    then set_hide_method legacy
    else if cmd === text "set-hide-method unbind"
    then set_hide_method unbind
    else if cmd === text "identify"
    then identify
    else if cmd === text "led --reset"
    then led_reset
    else if starts_with (text "led ") cmd
    then led (drop 4 cmd)
    else if cmd === text "test"
    then test false
    else if cmd === text "test all"
    then test true
    else unknown

unfoldable pub parse_trimmed : Bytes → Command
unfolding ◌===◌ starts_with
parse_trimmed cmd =
    if cmd === text "status"
    then status
    else if cmd === text "create-virtual ds4"
    then create_ds4
    else if cmd === text "create-virtual dualsense"
    then create_dualsense
    else if cmd === text "destroy-virtual"
    then destroy_virtual
    else if cmd === text "release-physical"
    then release_physical
    else if cmd === text "resume-physical"
    then resume_physical
    else if starts_with (text "input ") cmd
    then input (drop 6 cmd)
    else parse_set cmd

-- What the socket gave, up to its first NUL, without the line end and blanks behind it.
unfoldable pub parse_command : Bytes → Command
unfolding parse_trimmed trim_back
parse_command received = parse_trimmed (trim_back is_blank received)

-- `iss >> t` until it fails: the words of a text.
abbrev pub flush_word : Bytes × List Bytes → List Bytes
flush_word ([], rest) = rest
flush_word (c ∷ word, rest) = (c ∷ word) ∷ rest

abbrev pub add_char : ℕ → Bytes × List Bytes → Bytes × List Bytes
add_char c (word, rest) = if is_space c then ([], flush_word (word, rest)) else (c ∷ word, rest)

unfoldable pub pieces : Bytes → Bytes × List Bytes
pieces [] = ([], [])
pieces (c ∷ s) = add_char c (pieces s)

unfoldable pub words : Bytes → List Bytes
unfolding pieces
words s = flush_word (pieces s)

-- `UINT_MAX` is 2 ^ 32 - 1.
unfoldable pub parse_unsigned_token : Bytes → ℕ → Option ℕ
unfolding strtoul
parse_unsigned_token tok base =
    let c = strtoul base tok in
    if empty tok || not (empty c.rest) || c.range_error || ltb (2 ^ 32 - 1) c.value
    then none
    else some c.value
