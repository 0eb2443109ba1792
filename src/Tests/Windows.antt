-- ===== src/Tests/Windows.antt =====
-- The theorems at concrete inputs: the commands of the window.
use ds4_translator.Base.{ℕ, zero, suc, ◌≡◌, refl, List, [], ◌∷◌}
use ds4_translator.Base.Text.{text, starts_with, trim_front, trim_back, ◌===◌}
use ds4_translator.Client.{build_set_type, check_value, contains_value}
use ds4_translator.Client.Status.{trim_response}
use ds4_translator.Ui.{
  Attempt, connected, no_socket, Event, set_type, line_of, asks, readable, chunk, eof, run, start,
  on_event, on_readable, finish, settle, note_reply, send_built_command, send_command, send,
  start_next, start_from, refresh_status, is_counted, is_hardware_test, on_answer, on_failed,
}
use ds4_translator.Ui.Between.{Sound, answered}
use ds4_translator.Ui.Replies.{run-Sound}

-- The daemon answers twice, then it is gone.
abbrev attempts : ℕ → Attempt
attempts zero = connected 7
attempts (suc zero) = connected 8
attempts (suc (suc n)) = no_socket (text "gone")

-- While the first refresh is in flight, the user asks for a type.
abbrev events : List Event
events =
    asks (set_type (text "ds4"))
    ∷ readable (chunk (text "Backend: uhid") ∷ eof ∷ [])
    ∷ readable (chunk (text "OK") ∷ eof ∷ [])
    ∷ []

run-Sound_example : Sound (run attempts events (start attempts))
run-Sound_example = run-Sound attempts events

-- The refresh behind the answer finds no daemon.
events_answered :
    answered (run attempts events (start attempts)).replies
    ≡ text "status" ∷ text "set-type ds4" ∷ text "status" ∷ []
unfolding line_of build_set_type check_value contains_value on_event on_readable finish settle
    note_reply send_built_command send_command send start_next start_from refresh_status is_counted
    is_hardware_test on_answer on_failed ◌===◌ starts_with trim_response trim_front trim_back
events_answered = refl

events_closed : (run attempts events (start attempts)).closed ≡ 7 ∷ 8 ∷ []
unfolding line_of build_set_type check_value contains_value on_event on_readable finish settle
    note_reply send_built_command send_command send start_next start_from refresh_status is_counted
    is_hardware_test on_answer on_failed ◌===◌ starts_with trim_response trim_front trim_back
events_closed = refl
