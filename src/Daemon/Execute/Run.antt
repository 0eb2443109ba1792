-- ===== src/Daemon/Execute/Run.antt =====
-- src/main.cpp, one exchange on the control socket: the command is read, carried out and answered.
use ds4_translator.Base.{Bool, false, Bytes}
use ds4_translator.Emulation.{ds4, dualsense}
use ds4_translator.Daemon.{Daemon}
use ds4_translator.Daemon.Commands
use ds4_translator.Daemon.Commands.{
  Command, Answer, done, shown, streaming, not_understood, parse_command,
}
use ds4_translator.Daemon.Execute.{
  create_standalone, destroy_standalone, release_by_command, feed_input, feed_led, reset_led,
  blink_light,
}
use ds4_translator.Daemon.Execute.Change.{ask_type, ask_backend, ask_name, ask_hide_method}
use ds4_translator.Daemon.Virtual.{Creation}

-- What the system answers while a command is carried out.
pub record Answers : Type 0 where
  pub creation : Creation
  pub monitor_ok : Bool
  pub dup_ok : Bool

-- `status` and `test` change nothing here.
unfoldable pub execute : Answers → Command → Daemon → Daemon × Answer
unfolding create_standalone destroy_standalone release_by_command feed_input feed_led reset_led
    blink_light ask_type ask_backend ask_name ask_hide_method
execute w Commands.status d = (d, shown)
execute w Commands.create_ds4 d = create_standalone w.creation ds4 d
execute w Commands.create_dualsense d = create_standalone w.creation dualsense d
execute w Commands.destroy_virtual d = destroy_standalone d
execute w Commands.release_physical d = release_by_command d
execute w Commands.resume_physical d = (record d { ignore_physical = false }, done)
execute w (Commands.input args) d = feed_input args d
execute w (Commands.set_type want) d = ask_type want d
execute w (Commands.set_backend type want) d = ask_backend type want d
execute w (Commands.set_name type arg) d = ask_name type arg d
execute w (Commands.set_hide_method want) d = ask_hide_method w.monitor_ok want d
execute w Commands.identify d = blink_light w.dup_ok d
execute w Commands.led_reset d = reset_led d
execute w (Commands.led args) d = feed_led args d
execute w (Commands.test all) d = (d, streaming)
execute w Commands.unknown d = (d, not_understood)

unfoldable pub on_command : Answers → Bytes → Daemon → Daemon × Answer
unfolding execute parse_command
on_command w received d = execute w (parse_command received) d
