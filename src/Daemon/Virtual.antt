-- ===== src/Daemon/Virtual.antt =====
-- src/main.cpp, the virtual device: `create_virtual_device`, `destroy_virtual_device`,
-- `vdev_configured` and `vdev_ready_for_io`.
use ds4_translator.Base.{
  ℕ, ◌+◌, ◌-◌, Bool, true, false, ◌&&◌, Option, none, some, is_some, if◌then◌else◌,
}
use ds4_translator.Emulation.{ControllerType, uhid, functionfs, is_functionfs}
use ds4_translator.Daemon.{Daemon, emit, create, destroy}

-- What the kernel answers: `functionfs_init`, `open("/dev/uhid")` and the write of the event.
pub record Creation : Type 0 where
  pub functionfs_ok : Bool
  pub uhid_open : Option ℕ
  pub uhid_write_ok : Bool

unfoldable pub vdev_configured : Daemon → Bool
vdev_configured d = if is_functionfs d.backend_type then d.functionfs_configured else d.device_open

unfoldable pub vdev_ready_for_io : Daemon → Bool
vdev_ready_for_io d =
    if is_functionfs d.backend_type
    then d.functionfs_configured
    else d.device_open && is_some d.uhid_fd

-- The part for the uhid backend. A descriptor that `uhid_fd` held before is not closed.
unfoldable pub create_uhid : ControllerType → Creation → Daemon → Daemon × Bool
create_uhid type k d = elim k.uhid_open [
  | none ↦ (d, false)
  | some fd ↦
      if k.uhid_write_ok
      then (
        emit (create uhid type) (record d {
          uhid_fd = some fd;
          uhid_handles = d.uhid_handles + 1;
          suppress_next_led_update = true;
        }),
        true,
      )
      else (record d { uhid_fd = none }, false)
]

-- A failed `functionfs_init` leaves the device closed, and the backend falls back to uhid.
unfoldable pub create_virtual_device : ControllerType → Creation → Daemon → Daemon × Bool
unfolding create_uhid
create_virtual_device type k d =
    if is_functionfs d.backend_type
    then (if k.functionfs_ok
        then (
          emit (create functionfs type) (record d {
            functionfs_open = true;
            functionfs_configured = false;
            suppress_next_led_update = true;
          }),
          true,
        )
        else create_uhid type k (record d {
          backend_type = uhid;
          functionfs_open = false;
          functionfs_configured = false;
        }))
    else create_uhid type k d

unfoldable pub destroy_virtual_device : Daemon → Daemon
destroy_virtual_device d =
    if is_functionfs d.backend_type
    then emit (destroy functionfs)
        (record d { functionfs_open = false; functionfs_configured = false })
    else if is_some d.uhid_fd
    then emit (destroy uhid) (record d { uhid_fd = none; uhid_handles = d.uhid_handles - 1 })
    else d
