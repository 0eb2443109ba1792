-- ===== src/Daemon/Physical.antt =====
-- src/main.cpp, the physical connection: `release_physical_connection`, `restore_suppressed_bluetooth`,
-- the handling of a dropped connection, and the end of its grace period.
use ds4_translator.Base.{ℕ, ◌-◌, true, false, not, ◌&&◌, none, [], leb, if◌then◌else◌}
use ds4_translator.Base.Text.{empty}
use ds4_translator.Emulation.{controller_type_emulates}
use ds4_translator.Daemon.{
  Daemon, emit, neutral, discard_output, release, raw, unbound, bpf, bind, disconnect_grace,
}
use ds4_translator.Daemon.Virtual.{vdev_configured, destroy_virtual_device}

-- The queued report goes first, then the connection by how it was opened; permissions and grabs are
-- not modelled.
unfoldable pub release_physical_connection : Daemon → Daemon
release_physical_connection d =
    let d' = emit discard_output d in
    if d.is_unbind_transport
    then emit (release unbound) (record d' { is_unbind_transport = false })
    else if d.is_bpf_transport
    then emit (release bpf) (record d' { is_bpf_transport = false })
    else emit (release raw) d'

-- The call with the two assignments that follow it everywhere.
unfoldable pub drop_physical : Daemon → Daemon
unfolding release_physical_connection
drop_physical d = record (release_physical_connection d) { phy_fd = none; phy_name = [] }

unfoldable pub restore_suppressed_bluetooth : Daemon → Daemon
restore_suppressed_bluetooth d =
    if not (empty d.suppressed_bt_hid_id)
    then record (emit (bind d.suppressed_bt_hid_id) d) { suppressed_bt_hid_id = [] }
    else d

-- Nothing looks held while the virtual device waits for the controller to come back.
unfoldable pub start_grace : ℕ → Daemon → Daemon
unfolding vdev_configured controller_type_emulates
start_grace now d =
    if controller_type_emulates d.target_type && vdev_configured d
    then record (emit (neutral d.target_type) d) { pending_destroy = true; disconnect_time = now }
    else d

-- `POLLERR | POLLHUP` on the physical descriptor.
unfoldable pub on_physical_dropped : ℕ → Daemon → Daemon
unfolding drop_physical restore_suppressed_bluetooth start_grace
on_physical_dropped now d =
    let was_bluetooth = d.is_bluetooth in
    let released = drop_physical d in
    start_grace now (if not was_bluetooth then restore_suppressed_bluetooth released else released)

-- The check of every pass.
unfoldable pub on_grace_check : ℕ → Daemon → Daemon
unfolding destroy_virtual_device
on_grace_check now d =
    if d.pending_destroy && leb disconnect_grace (now - d.disconnect_time)
    then record (destroy_virtual_device d) { device_open = false; pending_destroy = false }
    else d
