-- ===== src/Daemon/Coherent/Blocks.antt =====
-- Each block of the loop that scans, or carries out a change, keeps the invariant of the daemon.
use ds4_translator.Base.{
  ℕ, Bool, true, false, not, ◌&&◌, ◌||◌, ◌≡◌, [], Bytes, is_some, if◌then◌else◌, arith, Bool-cases,
  inl, inr,
}
use ds4_translator.Base.Text.{text, empty, starts_with}
use ds4_translator.Emulation.{ControllerType, is_none, is_hidden, controller_type_hides_physical}
use ds4_translator.Daemon.{Daemon, emit, neutral, rebind}
use mathlib.Core.Bool.{xor}
use ds4_translator.Daemon.Changes.{
  say_neutral, switch_settings, let_go, settle_type, trigger_unless, apply_type_change,
  apply_name_change,
}
use ds4_translator.Daemon.Coherent.{
  Coherent, Closed, open_raw-Opening, open_unbind-Opening, fall_back-Opening,
  finish_connection-Coherent,
}
use ds4_translator.Daemon.Physical.{
  drop_physical, release_physical_connection, restore_suppressed_bluetooth, start_grace,
}
use ds4_translator.Daemon.Scan.{
  World, open_and_hide_physical, open_and_hide_physical_unbind, fall_back, connect_unbind,
  connect_raw, auto_scan, usb_upgrade, top_of_loop,
}
use ds4_translator.Daemon.Virtual.{
  Creation, vdev_configured, create_uhid, create_virtual_device, destroy_virtual_device,
}

connect_raw-Coherent : (w : World) (d : Daemon) → Coherent d → Closed d → Coherent (connect_raw w d)
unfolding connect_raw
connect_raw-Coherent w d h c = elim (Bool-cases (empty w.scan_name)) [
  | inl e ↦ rw e h
  | inr e ↦
      let named = record d { phy_name = w.scan_name; is_bluetooth = w.scan_bluetooth } in
      rw e
        (finish_connection-Coherent w (open_and_hide_physical w named) (open_raw-Opening w named c))
]

connect_unbind-Coherent :
    (w : World) (name : Bytes) (d : Daemon) → Closed d → Coherent (connect_unbind w name d)
unfolding connect_unbind
connect_unbind-Coherent w name d c =
    let named = record d { phy_name = name; is_bluetooth = starts_with (text "0005:") name } in
    let opened = open_and_hide_physical_unbind w named in
    finish_connection-Coherent w (fall_back w opened)
      (fall_back-Opening w opened (open_unbind-Opening w named c))

auto_scan-Coherent : (w : World) (d : Daemon) → Coherent d → Closed d → Coherent (auto_scan w d)
unfolding auto_scan
auto_scan-Coherent w d h c = ground (
  arith,
  connect_raw-Coherent w d h c,
  connect_unbind-Coherent w w.bus_scan d c,
  connect_unbind-Coherent w d.pending_unbind_hid_id (record d { pending_unbind_hid_id = [] }) c,
)

usb_upgrade-Coherent :
    (now : ℕ) (w : World) (d : Daemon) → Coherent d → Coherent (usb_upgrade now w d)
unfolding usb_upgrade drop_physical release_physical_connection start_grace vdev_configured
usb_upgrade-Coherent now w d h = ground arith

scan-Coherent :
    (w : World) (d : Daemon)
    → Coherent d
    → is_some d.phy_fd ≡ false
    → d.standalone_virtual ≡ false
    → Coherent (auto_scan w d)
scan-Coherent w d h e s = auto_scan-Coherent w d h (ground arith)

pub top_of_loop-Coherent :
    (now : ℕ) (w : World) (d : Daemon) → Coherent d → Coherent (top_of_loop now w d)
unfolding top_of_loop
top_of_loop-Coherent now w d h = ground (
  arith,
  scan-Coherent w d h,
  usb_upgrade-Coherent now w (record d { last_usb_upgrade_check = now }) h,
)

destroy-Coherent : (d : Daemon) → Coherent d → Coherent (destroy_virtual_device d)
unfolding destroy_virtual_device
destroy-Coherent d h = ground arith

create-Coherent :
    (type : ControllerType) (k : Creation) (d : Daemon)
    → Coherent d
    → Coherent (create_virtual_device type k d).0
unfolding create_virtual_device create_uhid
create-Coherent type k d h = ground arith

if-Coherent : (b : Bool) (x y : Daemon) → Coherent x → Coherent y → Coherent (if b then x else y)
if-Coherent true x y hx hy = hx
if-Coherent false x y hx hy = hy

closed_open-Coherent :
    (made : Daemon × Bool)
    → Coherent made.0
    → Coherent (if made.1 then record made.0 { device_open = false } else made.0)
closed_open-Coherent (d, true) h = h
closed_open-Coherent (d, false) h = h

-- The old device is gone: its type no longer matters.
switch_settings-Coherent : (d : Daemon) → Coherent d → Coherent (switch_settings d)
unfolding switch_settings say_neutral destroy_virtual_device vdev_configured
switch_settings-Coherent d h = ground arith

let_go-Coherent : (d : Daemon) → Coherent d → Coherent (let_go d)
unfolding let_go drop_physical release_physical_connection restore_suppressed_bluetooth
let_go-Coherent d h = ground arith

trigger_unless-Coherent : (skip : Bool) (d : Daemon) → Coherent d → Coherent (trigger_unless skip d)
trigger_unless-Coherent true d h = h
trigger_unless-Coherent false d h = h

settle_type-Coherent :
    (k : Creation) (had_physical was_unbind : Bool) (d : Daemon)
    → Coherent d
    → Coherent (settle_type k had_physical was_unbind d)
unfolding settle_type
settle_type-Coherent k had_physical was_unbind d h =
    let triggered = trigger_unless was_unbind d in
    let off = trigger_unless was_unbind (record d { standalone_virtual = false }) in
    let made = create_virtual_device d.target_type k triggered in
    let renewed = if made.1 then record made.0 { device_open = false } else made.0 in
    let th = trigger_unless-Coherent was_unbind d h in
    if-Coherent (is_none d.target_type || is_hidden d.target_type) off
      (if not had_physical && d.standalone_virtual then renewed else triggered)
      (trigger_unless-Coherent was_unbind (record d { standalone_virtual = false }) (ground arith))
      (if-Coherent (not had_physical && d.standalone_virtual) renewed triggered
        (closed_open-Coherent made (create-Coherent d.target_type k triggered th)) th)

pub apply_type_change-Coherent :
    (k : Creation) (d : Daemon) → Coherent d → Coherent (apply_type_change k d)
unfolding apply_type_change
apply_type_change-Coherent k d h =
    let switched = switch_settings d in
    let settled = settle_type k (is_some d.phy_fd) switched.is_unbind_transport (let_go switched) in
    let sh =
      settle_type-Coherent k (is_some d.phy_fd) switched.is_unbind_transport (let_go switched)
        (let_go-Coherent switched (switch_settings-Coherent d h)) in
    let bound_again =
      is_some d.phy_fd
      && xor (controller_type_hides_physical d.target_type)
          (controller_type_hides_physical settled.target_type) in
    if-Coherent (d.type_change_requested || d.backend_change_requested)
      (if bound_again then emit (rebind switched.phy_name) settled else settled) d
      (if-Coherent bound_again (emit (rebind switched.phy_name) settled) settled sh sh) h

pub apply_name_change-Coherent :
    (k : Creation) (d : Daemon) → Coherent d → Coherent (apply_name_change k d)
unfolding apply_name_change
apply_name_change-Coherent k d h =
    let taken = record d { name_change_requested = false } in
    let gone = destroy_virtual_device (emit (neutral taken.target_type) taken) in
    elim (Bool-cases d.name_change_requested) [
      | inl e ↦ elim (Bool-cases (vdev_configured taken)) [
        | inl v ↦
            rw (e, v)
              (closed_open-Coherent (create_virtual_device taken.target_type k gone) (
                create-Coherent taken.target_type k gone
                  (destroy-Coherent (emit (neutral taken.target_type) taken) h)))
        | inr v ↦ rw (e, v) h
      ]
      | inr e ↦ rw e h
    ]
