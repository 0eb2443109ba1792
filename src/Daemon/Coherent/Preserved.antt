-- ===== src/Daemon/Coherent/Preserved.antt =====
-- Every step of the daemon keeps its invariant.
use ds4_translator.Base.{Bool, true, ◌≡◌, refl, Bytes, arith}
use ds4_translator.Config.{Settings}
use ds4_translator.Emulation.{
  BackendType, HideMethod, ControllerType, controller_type_emulates, ds4, dualsense,
}
use ds4_translator.Daemon.{Daemon}
use ds4_translator.Daemon.Changes.{say_neutral}
use ds4_translator.Daemon.Coherent.{Coherent, on_grace_check-Coherent, on_physical_dropped-Coherent}
use ds4_translator.Daemon.Commands
use ds4_translator.Daemon.Commands.{Command, Answer, parse_command}
use ds4_translator.Daemon.Execute.{
  create_standalone, destroy_standalone, release_by_command, feed_input, feed_led, reset_led,
  blink_light,
}
use ds4_translator.Daemon.Execute.Change.{ask_type, ask_backend, ask_name, ask_hide_method}
use ds4_translator.Daemon.Execute.Run.{Answers, execute, on_command}
use ds4_translator.Daemon.Physical.{
  drop_physical, release_physical_connection, restore_suppressed_bluetooth,
}
use ds4_translator.Daemon.Steps
use ds4_translator.Daemon.Steps.{Step, Reachable, initial}
use ds4_translator.Daemon.Virtual.{
  Creation, vdev_configured, create_uhid, create_virtual_device, destroy_virtual_device,
}
use ds4_translator.Uhid
use ds4_translator.Uhid.{UhidEvent, on_uhid, take_output}
use ds4_translator.Daemon.Coherent.Blocks.{
  top_of_loop-Coherent, apply_type_change-Coherent, apply_name_change-Coherent,
}

create_standalone-Coherent :
    (k : Creation) (want : ControllerType) (d : Daemon)
    → controller_type_emulates want ≡ true
    → Coherent d
    → Coherent (create_standalone k want d).0
unfolding create_standalone create_virtual_device create_uhid vdev_configured
create_standalone-Coherent k want d e h = ground arith

destroy_standalone-Coherent : (d : Daemon) → Coherent d → Coherent (destroy_standalone d).0
unfolding destroy_standalone say_neutral destroy_virtual_device vdev_configured
destroy_standalone-Coherent d h = ground arith

release_by_command-Coherent : (d : Daemon) → Coherent d → Coherent (release_by_command d).0
unfolding release_by_command say_neutral drop_physical release_physical_connection
    restore_suppressed_bluetooth destroy_virtual_device vdev_configured
release_by_command-Coherent d h = ground arith

blink-Coherent : (ok : Bool) (d : Daemon) → Coherent d → Coherent (blink_light ok d).0
unfolding blink_light
blink-Coherent ok d h = ground arith

reset-Coherent : (d : Daemon) → Coherent d → Coherent (reset_led d).0
unfolding reset_led
reset-Coherent d h = ground arith

feed-Coherent :
    (args : Bytes) (d : Daemon)
    → Coherent d
    → Coherent (feed_input args d).0 × Coherent (feed_led args d).0
unfolding feed_input feed_led
feed-Coherent args d h = ground arith

ask_type-Coherent : (want : ControllerType) (d : Daemon) → Coherent d → Coherent (ask_type want d).0
unfolding ask_type
ask_type-Coherent want d h = ground arith

ask_backend-Coherent :
    (type : ControllerType) (want : BackendType) (d : Daemon)
    → Coherent d
    → Coherent (ask_backend type want d).0
unfolding ask_backend
ask_backend-Coherent type want d h = ground arith

ask_name-Coherent :
    (type : ControllerType) (arg : Bytes) (d : Daemon)
    → Coherent d
    → Coherent (ask_name type arg d).0
unfolding ask_name
ask_name-Coherent type arg d h = ground arith

ask_hide_method-Coherent :
    (ok : Bool) (want : HideMethod) (d : Daemon)
    → Coherent d
    → Coherent (ask_hide_method ok want d).0
unfolding ask_hide_method
ask_hide_method-Coherent ok want d h = ground arith

execute-Coherent :
    (w : Answers) (c : Command) (d : Daemon) → Coherent d → Coherent (execute w c d).0
unfolding execute
execute-Coherent w Commands.status d h = h
execute-Coherent w Commands.create_ds4 d h = create_standalone-Coherent w.creation ds4 d refl h
execute-Coherent w Commands.create_dualsense d h =
    create_standalone-Coherent w.creation dualsense d refl h
execute-Coherent w Commands.destroy_virtual d h = destroy_standalone-Coherent d h
execute-Coherent w Commands.release_physical d h = release_by_command-Coherent d h
execute-Coherent w Commands.resume_physical d h = h
execute-Coherent w (Commands.input args) d h = (feed-Coherent args d h).0
execute-Coherent w (Commands.set_type want) d h = ask_type-Coherent want d h
execute-Coherent w (Commands.set_backend type want) d h = ask_backend-Coherent type want d h
execute-Coherent w (Commands.set_name type arg) d h = ask_name-Coherent type arg d h
execute-Coherent w (Commands.set_hide_method want) d h =
    ask_hide_method-Coherent w.monitor_ok want d h
execute-Coherent w Commands.identify d h = blink-Coherent w.dup_ok d h
execute-Coherent w Commands.led_reset d h = reset-Coherent d h
execute-Coherent w (Commands.led args) d h = (feed-Coherent args d h).1
execute-Coherent w (Commands.test all) d h = h
execute-Coherent w Commands.unknown d h = h

on_uhid-Coherent : (e : UhidEvent) (d : Daemon) → Coherent d → Coherent (on_uhid e d).0
unfolding on_uhid take_output
on_uhid-Coherent Uhid.dropped d h = ground arith
on_uhid-Coherent (Uhid.unreadable would_block) d h = ground arith
on_uhid-Coherent Uhid.start d h = h
on_uhid-Coherent Uhid.stop d h = h
on_uhid-Coherent Uhid.opened d h = h
on_uhid-Coherent Uhid.closed d h = h
on_uhid-Coherent (Uhid.get_report_request id rnum feature) d h = h
on_uhid-Coherent (Uhid.set_report_request id) d h = h
on_uhid-Coherent (Uhid.output_report size report) d h = h
on_uhid-Coherent Uhid.other d h = h

-- One step of the loop, whatever it is and whatever the system answers, keeps the invariant: a
-- connected controller excludes a standalone device and a running grace period, at most one
-- transport carries the connection, and none is left without it.
pub Step-Coherent : (d d' : Daemon) → Step d d' → Coherent d → Coherent d'
unfolding on_command
Step-Coherent d d' (Steps.scanned now w _) h = top_of_loop-Coherent now w d h
Step-Coherent d d' (Steps.plugged hid_id _) h = h
Step-Coherent d d' (Steps.commanded w received _) h =
    execute-Coherent w (parse_command received) d h
Step-Coherent d d' (Steps.retyped k _) h = apply_type_change-Coherent k d h
Step-Coherent d d' (Steps.renamed k _) h = apply_name_change-Coherent k d h
Step-Coherent d d' (Steps.dropped now fd _ e) h = on_physical_dropped-Coherent now d h
Step-Coherent d d' (Steps.waited now _) h = on_grace_check-Coherent now d h
Step-Coherent d d' (Steps.virtual fd e _ o) h = on_uhid-Coherent e d h
Step-Coherent d d' (Steps.configured b _) h = h
Step-Coherent d d' (Steps.written read dev _) h = h

-- In every state that the daemon reaches from its start, by any sequence of passes, commands,
-- disconnections, events of the virtual device, output reports and answers of the system: a connected controller excludes a standalone device and
-- a running grace period, at most one transport carries the connection and none is left without it,
-- and a device that waits for its grace period belongs to an emulating type.
pub Reachable-Coherent :
    (s : Settings) (backend : BackendType) (monitor : Bool) (d : Daemon)
    → Reachable s backend monitor d
    → Coherent d
Reachable-Coherent s backend monitor d Steps.started = (refl, refl, refl, refl, refl, refl)
Reachable-Coherent s backend monitor d (Steps.stepped {d = before} r step) =
    Step-Coherent before d step (Reachable-Coherent s backend monitor before r)
