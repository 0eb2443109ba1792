-- ===== src/Daemon/Execute/Change.antt =====
-- src/main.cpp, the commands that change a setting: saved at once, and carried out by the loop.
use ds4_translator.Base.{
  Bool, true, not, ◌&&◌, ◌||◌, [], Bytes, ltb, if◌then◌else◌, length, is_some,
}
use ds4_translator.Base.Text.{text, find, ◌===◌}
use ds4_translator.Emulation.{
  ControllerType, HideMethod, BackendType, is_ds4, is_unbind, same_type, same_backend, same_method,
  controller_type_emulates,
}
use ds4_translator.Daemon.{Daemon, emit, save, settings}
use ds4_translator.Daemon.Commands.{Answer, done, already, refused}

-- The backend configured for a type; only `ds4` and `dualsense` have one.
abbrev pub backend_for : ControllerType → Daemon → BackendType
backend_for type d = if is_ds4 type then d.backend_for_ds4 else d.backend_for_dualsense

-- Choosing an emulating type also asks for that type's backend.
unfoldable pub ask_type : ControllerType → Daemon → Daemon × Answer
unfolding controller_type_emulates
ask_type want d =
    if same_type d.target_type want
    then (d, already)
    else (let asked = record d { pending_type_change = want; type_change_requested = true } in
        let with_backend =
          if controller_type_emulates want
          then record asked {
            pending_backend_change = backend_for want d;
            backend_change_requested = true;
          }
          else asked in
        (emit (save (settings want d)) with_backend, done))

abbrev pub set_backend_for : ControllerType → BackendType → Daemon → Daemon
set_backend_for type want d =
    if is_ds4 type
    then record d { backend_for_ds4 = want }
    else record d { backend_for_dualsense = want }

-- The change takes effect at once only for the type that is emulated now.
unfoldable pub ask_backend : ControllerType → BackendType → Daemon → Daemon × Answer
ask_backend type want d =
    if same_backend (backend_for type d) want
    then (d, already)
    else (let set = set_backend_for type want d in
        let saved = emit (save (settings d.target_type set)) set in
        if same_type d.target_type type
        then (record saved { pending_backend_change = want; backend_change_requested = true }, done)
        else (saved, done))

abbrev pub name_for : ControllerType → Daemon → Bytes
name_for type d = if is_ds4 type then d.name_ds4 else d.name_dualsense

abbrev pub set_name_for : ControllerType → Bytes → Daemon → Daemon
set_name_for type name d =
    if is_ds4 type then record d { name_ds4 = name } else record d { name_dualsense = name }

-- `--reset` clears the name.
unfoldable pub requested_name : Bytes → Bytes
unfolding ◌===◌
requested_name arg = if arg === text "--reset" then [] else arg

-- A line end would break the configuration file, and a name has 63 bytes at most.
unfoldable pub ask_name : ControllerType → Bytes → Daemon → Daemon × Answer
unfolding requested_name find ◌===◌
ask_name type arg d =
    let name = requested_name arg in
    if is_some (find 10 name) || is_some (find 13 name)
    then (d, refused)
    else if ltb 63 (length name)
    then (d, refused)
    else if name_for type d === name
    then (d, already)
    else (let set = set_name_for type name d in
        let saved = emit (save (settings d.target_type set)) set in
        if same_type d.target_type type
        then (record saved { name_change_requested = true }, done)
        else (saved, done))

-- The unbind method needs the uevent monitor; `monitor_ok` is whether it can be opened.
unfoldable pub ask_hide_method : Bool → HideMethod → Daemon → Daemon × Answer
ask_hide_method monitor_ok want d =
    if same_method d.hide_method want
    then (d, already)
    else if is_unbind want && not d.hid_uevent_monitor && not monitor_ok
    then (d, refused)
    else (let set = record d {
      hide_method = want;
      hid_uevent_monitor = d.hid_uevent_monitor || is_unbind want;
    } in
        (emit (save (settings d.target_type set)) set, done))
