-- ===== src/Daemon/Requests.antt =====
-- What the commands and the changes that they ask for do to the daemon.
use ds4_translator.Base.{Bool, true, false, ◌≡◌, refl, Bytes, arith}
use ds4_translator.Emulation.{ControllerType, BackendType, HideMethod}
use ds4_translator.Daemon.{Daemon}
use ds4_translator.Daemon.Commands
use ds4_translator.Daemon.Commands.{
  Command, Answer, done, already, refused, shown, streaming, not_understood,
}
use ds4_translator.Daemon.Execute.{
  destroy_standalone, release_by_command, feed_input, feed_led, reset_led, blink_light,
}
use ds4_translator.Daemon.Execute.Change.{ask_type, ask_backend, ask_name, ask_hide_method}
use ds4_translator.Daemon.Execute.Run.{Answers, execute}

abbrev pub is_done : Answer → Bool
is_done done = true
is_done already = false
is_done refused = false
is_done shown = false
is_done streaming = false
is_done not_understood = false

-- Everything but the making of a standalone device.
abbrev pub creates : Command → Bool
creates Commands.create_ds4 = true
creates Commands.create_dualsense = true
creates _ = false

destroy_standalone-idle :
    (d : Daemon) → is_done (destroy_standalone d).1 ≡ false → (destroy_standalone d).0 ≡ d
unfolding destroy_standalone
destroy_standalone-idle d h = ground arith

release-done : (d : Daemon) → is_done (release_by_command d).1 ≡ true
unfolding release_by_command
release-done d = ground arith

feed_input-idle :
    (args : Bytes) (d : Daemon) → is_done (feed_input args d).1 ≡ false → (feed_input args d).0 ≡ d
unfolding feed_input
feed_input-idle args d h = ground arith

feed_led-idle :
    (args : Bytes) (d : Daemon) → is_done (feed_led args d).1 ≡ false → (feed_led args d).0 ≡ d
unfolding feed_led
feed_led-idle args d h = ground arith

reset_led-idle : (d : Daemon) → is_done (reset_led d).1 ≡ false → (reset_led d).0 ≡ d
unfolding reset_led
reset_led-idle d h = ground arith

blink_light-idle :
    (ok : Bool) (d : Daemon) → is_done (blink_light ok d).1 ≡ false → (blink_light ok d).0 ≡ d
unfolding blink_light
blink_light-idle ok d h = ground arith

ask_type-idle :
    (want : ControllerType) (d : Daemon)
    → is_done (ask_type want d).1 ≡ false
    → (ask_type want d).0 ≡ d
unfolding ask_type
ask_type-idle want d h = ground arith

ask_backend-idle :
    (type : ControllerType) (want : BackendType) (d : Daemon)
    → is_done (ask_backend type want d).1 ≡ false
    → (ask_backend type want d).0 ≡ d
unfolding ask_backend
ask_backend-idle type want d h = ground arith

ask_name-idle :
    (type : ControllerType) (arg : Bytes) (d : Daemon)
    → is_done (ask_name type arg d).1 ≡ false
    → (ask_name type arg d).0 ≡ d
unfolding ask_name
ask_name-idle type arg d h = ground arith

ask_hide_method-idle :
    (ok : Bool) (want : HideMethod) (d : Daemon)
    → is_done (ask_hide_method ok want d).1 ≡ false
    → (ask_hide_method ok want d).0 ≡ d
unfolding ask_hide_method
ask_hide_method-idle ok want d h = ground arith

-- Of every command but `create-virtual`: unless the answer is `OK`, the daemon is exactly as it was,
-- nothing is saved and nothing is sent.
pub execute_refused :
    (w : Answers) (c : Command) (d : Daemon)
    → creates c ≡ false
    → is_done (execute w c d).1 ≡ false
    → (execute w c d).0 ≡ d
unfolding execute
execute_refused w Commands.status d n h = refl
execute_refused w Commands.create_ds4 d n h = absurd (ground arith)
execute_refused w Commands.create_dualsense d n h = absurd (ground arith)
execute_refused w Commands.destroy_virtual d n h = destroy_standalone-idle d h
execute_refused w Commands.release_physical d n h = absurd (ground (arith, release-done d))
execute_refused w Commands.resume_physical d n h = absurd (ground arith)
execute_refused w (Commands.input args) d n h = feed_input-idle args d h
execute_refused w (Commands.set_type want) d n h = ask_type-idle want d h
execute_refused w (Commands.set_backend type want) d n h = ask_backend-idle type want d h
execute_refused w (Commands.set_name type arg) d n h = ask_name-idle type arg d h
execute_refused w (Commands.set_hide_method want) d n h = ask_hide_method-idle w.monitor_ok want d h
execute_refused w Commands.identify d n h = blink_light-idle w.dup_ok d h
execute_refused w Commands.led_reset d n h = reset_led-idle d h
execute_refused w (Commands.led args) d n h = feed_led-idle args d h
execute_refused w (Commands.test all) d n h = refl
execute_refused w Commands.unknown d n h = refl
