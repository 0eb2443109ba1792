-- ===== src/Daemon/Changes.antt =====
-- src/main.cpp, the changes that a command asks for and the loop carries out: of the type, the backend
-- and the reported name.
use ds4_translator.Base.{Bool, true, false, not, ◌&&◌, ◌||◌, is_some, if◌then◌else◌}
use mathlib.Core.Bool.{xor}
use ds4_translator.Emulation.{is_none, is_hidden, controller_type_hides_physical}
use ds4_translator.Daemon.{Daemon, emit, neutral, sentinel, udev_trigger, rebind}
use ds4_translator.Daemon.Virtual.{
  Creation, vdev_configured, create_virtual_device, destroy_virtual_device,
}
use ds4_translator.Daemon.Physical.{drop_physical, restore_suppressed_bluetooth}

unfoldable pub say_neutral : Daemon → Daemon
unfolding vdev_configured
say_neutral d = if vdev_configured d then emit (neutral d.target_type) d else d

-- The old device goes, on the old backend; then the new settings hold.
unfoldable pub switch_settings : Daemon → Daemon
unfolding say_neutral destroy_virtual_device
switch_settings d =
    let gone = destroy_virtual_device (record (say_neutral d) {
      target_type = d.pending_type_change;
      type_change_requested = false;
    }) in
    let set = record gone {
      backend_type = gone.pending_backend_change;
      backend_change_requested = false;
      pending_destroy = false;
    } in
    emit (sentinel (is_none set.target_type)) set

-- The physical connection goes, to be found again by the next scan.
unfoldable pub let_go : Daemon → Daemon
unfolding drop_physical restore_suppressed_bluetooth
let_go d = restore_suppressed_bluetooth (if is_some d.phy_fd then drop_physical d else d)

-- `udevadm trigger`, unless the driver has just been bound again.
abbrev pub trigger_unless : Bool → Daemon → Daemon
trigger_unless true d = d
trigger_unless false d = emit udev_trigger d

-- A standalone device is made anew under the new type.
unfoldable pub settle_type : Creation → Bool → Bool → Daemon → Daemon
unfolding create_virtual_device
settle_type k had_physical was_unbind d =
    if is_none d.target_type || is_hidden d.target_type
    then trigger_unless was_unbind (record d { standalone_virtual = false })
    else (let triggered = trigger_unless was_unbind d in
        if not had_physical && d.standalone_virtual
        then (let made = create_virtual_device d.target_type k triggered in
            if made.1 then record made.0 { device_open = false } else made.0)
        else triggered)

unfoldable pub apply_type_change : Creation → Daemon → Daemon
unfolding switch_settings let_go settle_type controller_type_hides_physical
apply_type_change k d =
    if d.type_change_requested || d.backend_change_requested
    then (let had_physical = is_some d.phy_fd in
        let switched = switch_settings d in
        let was_unbind = switched.is_unbind_transport in
        let disconnected = switched.phy_name in
        let settled = settle_type k had_physical was_unbind (let_go switched) in
        if had_physical
          && xor (controller_type_hides_physical d.target_type)
              (controller_type_hides_physical settled.target_type)
        then emit (rebind disconnected) settled
        else settled)
    else d

-- Only a device that is in use is made anew.
unfoldable pub apply_name_change : Creation → Daemon → Daemon
unfolding vdev_configured create_virtual_device destroy_virtual_device
apply_name_change k d =
    if d.name_change_requested
    then (let taken = record d { name_change_requested = false } in
        if vdev_configured taken
        then (let made =
              create_virtual_device taken.target_type k
                (destroy_virtual_device (emit (neutral taken.target_type) taken)) in
            if made.1 then record made.0 { device_open = false } else made.0)
        else taken)
    else d
