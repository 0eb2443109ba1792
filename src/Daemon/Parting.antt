-- ===== src/Daemon/Parting.antt =====
-- What a change of the type or the backend does to the world, in order: `switch_settings` and `let_go`
-- on the old device and the old connection, and what may follow them.
use ds4_translator.Base.{
  not, ◌≡◌, refl, ap, ◌∙◌, is_some, List, [], ◌∷◌, ◌++◌, append-nil, append_assoc, ◌⊎◌, inl, inr,
  if◌then◌else◌, arith,
}
use ds4_translator.Base.Text.{empty}
use ds4_translator.Emulation.{ControllerType, uhid, functionfs, is_none, is_functionfs}
use ds4_translator.Daemon.{
  Daemon, Effect, Transport, raw, unbound, bpf, emit, neutral, destroy, create, sentinel,
  discard_output, release, bind,
}
use ds4_translator.Daemon.Changes.{say_neutral, switch_settings, let_go}
use ds4_translator.Daemon.Physical.{
  drop_physical, release_physical_connection, restore_suppressed_bluetooth,
}
use ds4_translator.Daemon.Virtual.{
  Creation, vdev_configured, create_uhid, create_virtual_device, destroy_virtual_device,
}

-- How the connected controller was opened.
abbrev pub transport_of : Daemon → Transport
transport_of d = if d.is_unbind_transport then unbound else if d.is_bpf_transport then bpf else raw

-- A last report of the old type, if the host uses the device.
abbrev pub spoken : Daemon → List Effect
spoken d = if vdev_configured d then neutral d.target_type ∷ [] else []

-- The virtual device is destroyed by the backend that made it.
abbrev pub undone : Daemon → List Effect
undone d =
    if is_functionfs d.backend_type
    then destroy functionfs ∷ []
    else if is_some d.uhid_fd
    then destroy uhid ∷ []
    else []

-- The connected controller is let go by the transport that it was opened with.
abbrev pub let_off : Daemon → List Effect
let_off d = if is_some d.phy_fd then discard_output ∷ release (transport_of d) ∷ [] else []

-- The Bluetooth connection that had made way for a cable comes back.
abbrev pub bound : Daemon → List Effect
bound d = if not (empty d.suppressed_bt_hid_id) then bind d.suppressed_bt_hid_id ∷ [] else []

-- The effects once the old device and the old connection are gone, in order. The sentinel file tells
-- whether the new type is `none`.
abbrev pub parted : Daemon → List Effect
parted d =
    (((d.effects ++ spoken d) ++ undone d) ++ (sentinel (is_none d.pending_type_change) ∷ []))
    ++ let_off d
    ++ bound d

effects-switch_settings :
    (d : Daemon)
    → (switch_settings d).effects
      ≡ ((d.effects ++ spoken d) ++ undone d) ++ (sentinel (is_none d.pending_type_change) ∷ [])
unfolding switch_settings say_neutral destroy_virtual_device vdev_configured
effects-switch_settings d =
    ground (arith, append-nil d.effects, append-nil (d.effects ++ (neutral d.target_type ∷ [])))

effects-let_go : (d : Daemon) → (let_go d).effects ≡ (d.effects ++ let_off d) ++ bound d
unfolding let_go drop_physical release_physical_connection restore_suppressed_bluetooth
effects-let_go d = ground (
  arith,
  append-nil d.effects,
  append-nil (d.effects ++ let_off d),
  append_assoc d.effects (discard_output ∷ []) (release (transport_of d) ∷ []),
)

pub switch-kept :
    (d : Daemon)
    → let s = switch_settings d in
      (s.phy_fd ≡ d.phy_fd)
      × (s.is_unbind_transport ≡ d.is_unbind_transport)
      × (s.is_bpf_transport ≡ d.is_bpf_transport)
      × (s.suppressed_bt_hid_id ≡ d.suppressed_bt_hid_id)
      × (s.backend_type ≡ d.pending_backend_change)
unfolding switch_settings say_neutral destroy_virtual_device vdev_configured
switch-kept d = ground arith

same-let_off :
    (x d : Daemon)
    → x.phy_fd ≡ d.phy_fd
    → x.is_unbind_transport ≡ d.is_unbind_transport
    → x.is_bpf_transport ≡ d.is_bpf_transport
    → let_off x ≡ let_off d
same-let_off x d p u b = rw p (rw u (rw b refl))

same-bound : (x d : Daemon) → x.suppressed_bt_hid_id ≡ d.suppressed_bt_hid_id → bound x ≡ bound d
same-bound x d e = rw e refl

pub effects-parted : (d : Daemon) → (let_go (switch_settings d)).effects ≡ parted d
effects-parted d =
    let s = switch_settings d in
    let k = switch-kept d in
    effects-let_go s
    ∙ ap (λ l. (s.effects ++ l) ++ bound s) (same-let_off s d k.0 k.1 k.2)
    ∙ ap (λ l. (s.effects ++ let_off d) ++ l) (same-bound s d k.3)
    ∙ ap (λ l. (l ++ let_off d) ++ bound d) (effects-switch_settings d)

-- What follows is added behind.
abbrev pub Follows : List Effect → Daemon → Type 0
Follows es d = (more : List Effect) × (d.effects ≡ es ++ more)

pub emit-Follows :
    (es : List Effect) (e : Effect) (d : Daemon) → Follows es d → Follows es (emit e d)
emit-Follows es e d (more, h) =
    (more ++ (e ∷ []), ap (λ l. l ++ (e ∷ [])) h ∙ append_assoc es more (e ∷ []))

create-effects :
    (type : ControllerType) (k : Creation) (d : Daemon)
    → let d' = (create_virtual_device type k d).0 in
      (d'.effects ≡ d.effects)
      ⊎ (d'.effects ≡ d.effects ++ (create uhid type ∷ []))
      ⊎ (d'.effects ≡ d.effects ++ (create functionfs type ∷ []))
unfolding create_virtual_device create_uhid
create-effects type k d = ground arith

pub create-Follows :
    (es : List Effect) (type : ControllerType) (k : Creation) (d : Daemon)
    → Follows es d
    → Follows es (create_virtual_device type k d).0
create-Follows es type k d h = elim (create-effects type k d) [
  | inl e ↦ (h.0, e ∙ h.1)
  | inr (inl e) ↦ added (create uhid type) e
  | inr (inr e) ↦ added (create functionfs type) e
]
  where
    added :
        (e : Effect)
        → (create_virtual_device type k d).0.effects ≡ d.effects ++ (e ∷ [])
        → Follows es (create_virtual_device type k d).0
    added e p = let f = emit-Follows es e d h in (f.0, p ∙ f.1)
