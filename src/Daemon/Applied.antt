-- ===== src/Daemon/Applied.antt =====
-- What a pass of the loop does with a requested change of the type or the backend.
use ds4_translator.Base.{
  Bool, true, false, not, ◌&&◌, ◌||◌, ◌≡◌, sym, ◌∙◌, none, List, [], append-nil, is_some, ◌⊎◌, inl,
  if◌then◌else◌, arith,
}
use mathlib.Core.Bool.{xor}
use ds4_translator.Emulation.{
  ControllerType, BackendType, uhid, is_none, is_hidden, controller_type_hides_physical,
}
use ds4_translator.Daemon.{Daemon, Effect, emit, udev_trigger, rebind}
use ds4_translator.Daemon.Changes.{
  say_neutral, switch_settings, let_go, settle_type, trigger_unless, apply_type_change,
}
use ds4_translator.Daemon.Parting.{
  parted, Follows, switch-kept, effects-parted, emit-Follows, create-Follows,
}
use ds4_translator.Daemon.Physical.{
  drop_physical, release_physical_connection, restore_suppressed_bluetooth,
}
use ds4_translator.Daemon.Virtual.{
  Creation, vdev_configured, create_uhid, create_virtual_device, destroy_virtual_device,
}

-- The type holds, nothing is requested or waits any more.
abbrev pub Switched : ControllerType → Daemon → Type 0
Switched type d =
    (d.target_type ≡ type)
    × (d.type_change_requested ≡ false)
    × (d.backend_change_requested ≡ false)
    × (d.pending_destroy ≡ false)

-- Nor is a controller connected, or kept from its Bluetooth connection.
abbrev pub Cleared : ControllerType → Daemon → Type 0
Cleared type d = Switched type d × (d.phy_fd ≡ none) × (d.suppressed_bt_hid_id ≡ [])

-- The backend holds, unless it cannot make a device, which falls back to uhid.
abbrev pub Backed : BackendType → Creation → Daemon → Type 0
Backed backend k d =
    (d.backend_type ≡ backend) ⊎ ((d.backend_type ≡ uhid) × (k.functionfs_ok ≡ false))

-- And the effects begin with the given ones.
abbrev pub Applied : ControllerType → BackendType → Creation → List Effect → Daemon → Type 0
Applied type backend k es d = Cleared type d × Backed backend k d × Follows es d

switch_settings-Switched : (d : Daemon) → Switched d.pending_type_change (switch_settings d)
unfolding switch_settings say_neutral destroy_virtual_device vdev_configured
switch_settings-Switched d = ground arith

let_go-Cleared : (type : ControllerType) (d : Daemon) → Switched type d → Cleared type (let_go d)
unfolding let_go drop_physical release_physical_connection restore_suppressed_bluetooth
let_go-Cleared type d h = ground arith

let_go-backend : (d : Daemon) → (let_go d).backend_type ≡ d.backend_type
unfolding let_go drop_physical release_physical_connection restore_suppressed_bluetooth
let_go-backend d = ground arith

gone-Applied :
    (k : Creation) (d : Daemon)
    → Applied d.pending_type_change d.pending_backend_change k
        (parted d)
        (let_go (switch_settings d))
gone-Applied k d = (
  let_go-Cleared d.pending_type_change (switch_settings d) (switch_settings-Switched d),
  inl (let_go-backend (switch_settings d) ∙ (switch-kept d).4),
  ([], effects-parted d ∙ sym (append-nil (parted d))),
)

create-Cleared :
    (type made_for : ControllerType) (k : Creation) (d : Daemon)
    → Cleared type d
    → Cleared type (create_virtual_device made_for k d).0
unfolding create_virtual_device create_uhid
create-Cleared type made_for k d h = ground arith

create-Backed :
    (backend : BackendType) (made_for : ControllerType) (k : Creation) (d : Daemon)
    → Backed backend k d
    → Backed backend k (create_virtual_device made_for k d).0
unfolding create_virtual_device create_uhid
create-Backed backend made_for k d h = ground arith

module _ (type : ControllerType) (backend : BackendType) (k : Creation) (es : List Effect) where
  emit-Applied :
      (e : Effect) (d : Daemon) → Applied type backend k es d → Applied type backend k es (emit e d)
  emit-Applied e d (c, b, f) = (c, b, emit-Follows es e d f)

  create-Applied :
      (made_for : ControllerType) (d : Daemon)
      → Applied type backend k es d
      → Applied type backend k es (create_virtual_device made_for k d).0
  create-Applied made_for d (c, b, f) = (
    create-Cleared type made_for k d c,
    create-Backed backend made_for k d b,
    create-Follows es made_for k d f,
  )

  trigger_unless-Applied :
      (skip : Bool) (d : Daemon)
      → Applied type backend k es d
      → Applied type backend k es (trigger_unless skip d)
  trigger_unless-Applied true d h = h
  trigger_unless-Applied false d h = emit-Applied udev_trigger d h

  either-Applied :
      (b : Bool) (x y : Daemon)
      → Applied type backend k es x
      → Applied type backend k es y
      → Applied type backend k es (if b then x else y)
  either-Applied true x y hx hy = hx
  either-Applied false x y hx hy = hy

  settle_type-Applied :
      (had_physical was_unbind : Bool) (d : Daemon)
      → Applied type backend k es d
      → Applied type backend k es (settle_type k had_physical was_unbind d)
  unfolding settle_type
  settle_type-Applied had_physical was_unbind d h =
      let off = record d { standalone_virtual = false } in
      let triggered = trigger_unless was_unbind d in
      let made = create_virtual_device d.target_type k triggered in
      let closed = record made.0 { device_open = false } in
      let renewed = if made.1 then closed else made.0 in
      let th = trigger_unless-Applied was_unbind d h in
      let mh = create-Applied d.target_type triggered th in
      either-Applied (is_none d.target_type || is_hidden d.target_type)
        (trigger_unless was_unbind off)
        (if not had_physical && d.standalone_virtual then renewed else triggered)
        (trigger_unless-Applied was_unbind off h)
        (either-Applied (not had_physical && d.standalone_virtual) renewed triggered
          (either-Applied made.1 closed made.0 mh mh) th)

-- A pass with a type or backend change requested carries it out completely. No request, grace period,
-- physical controller or suppressed Bluetooth connection is left; the requested type holds, and so
-- does the requested backend, or uhid where the gadget fails to be made. The effects of the pass begin
-- with, in this order: a neutral report of the old type if the host uses the device; the end of the
-- old device by the old backend; the mark of whether the new type is `none`; for a connected
-- controller, the end of its queued report and its release by the transport that it was opened with;
-- and the binding again of a Bluetooth connection that had made way.
pub apply_type_change_complete :
    (k : Creation) (d : Daemon)
    → (d.type_change_requested || d.backend_change_requested) ≡ true
    → Applied d.pending_type_change d.pending_backend_change k (parted d) (apply_type_change k d)
unfolding apply_type_change
apply_type_change_complete k d requested =
    let type = d.pending_type_change in
    let backend = d.pending_backend_change in
    let switched = switch_settings d in
    let had = is_some d.phy_fd in
    let settled = settle_type k had switched.is_unbind_transport (let_go switched) in
    let sh =
      settle_type-Applied type backend k (parted d) had switched.is_unbind_transport
        (let_go switched) (gone-Applied k d) in
    let bound_again =
      had
      && xor (controller_type_hides_physical d.target_type)
          (controller_type_hides_physical settled.target_type) in
    rw requested (
      either-Applied type backend k (parted d) bound_again (emit (rebind switched.phy_name) settled)
        settled (emit-Applied type backend k (parted d) (rebind switched.phy_name) settled sh) sh)
