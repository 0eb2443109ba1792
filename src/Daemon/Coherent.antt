-- ===== src/Daemon/Coherent.antt =====
-- The invariant of the daemon: which states of the connection, the standalone device and the grace
-- period go together.
pub mod Blocks
pub mod Preserved
use ds4_translator.Base.{
  ℕ, Bool, true, false, not, ◌&&◌, ◌||◌, ◌≡◌, refl, Option, none, some, [], ◌∷◌, Bytes, is_some,
  if◌then◌else◌, leb, arith, Bool-cases, inl, inr,
}
use ds4_translator.Base.Text.{empty}
use ds4_translator.HidId.{parse_hid_id}
use ds4_translator.Emulation.{
  controller_type_emulates, controller_type_hides_physical, ds4, dualsense, none as none_type,
  hidden,
}
use ds4_translator.Daemon.{Daemon, emit}
use ds4_translator.Daemon.Physical.{
  drop_physical, release_physical_connection, restore_suppressed_bluetooth, start_grace,
  on_physical_dropped, on_grace_check,
}
use ds4_translator.Daemon.Virtual.{
  Creation, vdev_configured, create_uhid, create_virtual_device, destroy_virtual_device,
}
use ds4_translator.Daemon.Scan.{
  World, open_and_hide_physical, open_and_hide_physical_unbind, open_usb, open_bpf, fall_back,
  prepare_virtual, start_connection, finish_connection, connect_unbind, connect_raw, auto_scan,
  usb_upgrade, top_of_loop,
}

abbrev pub implies : Bool → Bool → Bool
implies a b = not a || b

-- With a controller connected, the daemon runs no standalone device and waits for no grace period,
-- and one transport at most carries the connection; without one there is no name and no transport.
-- A device that waits for the end of its grace period belongs to an emulating type.
abbrev pub Coherent : Daemon → Type 0
Coherent d =
    (implies (is_some d.phy_fd) (not d.standalone_virtual) ≡ true)
    × (implies (is_some d.phy_fd) (not d.pending_destroy) ≡ true)
    × (implies (not (is_some d.phy_fd)) (empty d.phy_name) ≡ true)
    × (implies (d.is_unbind_transport || d.is_bpf_transport) (is_some d.phy_fd) ≡ true)
    × (implies d.is_unbind_transport (not d.is_bpf_transport) ≡ true)
    × (implies d.pending_destroy (controller_type_emulates d.target_type) ≡ true)

-- A connection that is being opened: the same, but for the name and the grace period.
abbrev pub Opening : Daemon → Type 0
Opening d =
    (d.standalone_virtual ≡ false)
    × (implies (d.is_unbind_transport || d.is_bpf_transport) (is_some d.phy_fd) ≡ true)
    × (implies d.is_unbind_transport (not d.is_bpf_transport) ≡ true)
    × (implies d.pending_destroy (controller_type_emulates d.target_type) ≡ true)

abbrev pub Closed : Daemon → Type 0
Closed d = Opening d × (d.phy_fd ≡ none)

pub open_raw-Opening : (w : World) (d : Daemon) → Closed d → Opening (open_and_hide_physical w d)
unfolding open_and_hide_physical
open_raw-Opening w d h = ground arith

pub open_unbind-Opening :
    (w : World) (d : Daemon) → Closed d → Opening (open_and_hide_physical_unbind w d)
unfolding open_and_hide_physical_unbind open_usb open_bpf
open_unbind-Opening w d h = ground arith

pub fall_back-Opening : (w : World) (d : Daemon) → Opening d → Opening (fall_back w d)
unfolding fall_back open_and_hide_physical
fall_back-Opening w d h = ground arith

pub create_virtual_device-Opening :
    (k : Creation) (d : Daemon) → Opening d → Opening (create_virtual_device d.target_type k d).0
unfolding create_virtual_device create_uhid
create_virtual_device-Opening k d h = ground arith

pub finish_connection-Coherent :
    (w : World) (d : Daemon) → Opening d → Coherent (finish_connection w d)
unfolding finish_connection prepare_virtual start_connection drop_physical
    release_physical_connection create_virtual_device create_uhid
finish_connection-Coherent w d h = ground arith

pub drop_physical-Coherent : (d : Daemon) → Coherent d → Coherent (drop_physical d)
unfolding drop_physical release_physical_connection
drop_physical-Coherent d h = ground arith

pub on_grace_check-Coherent : (now : ℕ) (d : Daemon) → Coherent d → Coherent (on_grace_check now d)
unfolding on_grace_check destroy_virtual_device
on_grace_check-Coherent now d h = ground arith

pub on_physical_dropped-Coherent :
    (now : ℕ) (d : Daemon) → Coherent d → Coherent (on_physical_dropped now d)
unfolding on_physical_dropped drop_physical release_physical_connection restore_suppressed_bluetooth
    start_grace vdev_configured
on_physical_dropped-Coherent now d h = ground arith
