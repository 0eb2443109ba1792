-- ===== src/Daemon/Cable.antt =====
-- What becomes of a Bluetooth connection that makes way for a USB cable, from `usb_upgrade` to the end
-- of the cable's own connection.
use ds4_translator.Base.{
  ℕ, true, false, ◌≡◌, ap, ◌∙◌, sym, none, some, [], ◌∷◌, ◌++◌, append-nil, append_assoc, ◌⊎◌, inl,
  inr, Bytes, arith,
}
use ds4_translator.Base.Text.{empty}
use ds4_translator.Emulation.{legacy}
use ds4_translator.Daemon.{Daemon, emit, neutral, discard_output, release, bind, unbind}
use ds4_translator.Daemon.Grace.{dropped-kept}
use ds4_translator.Daemon.Parting.{transport_of, Follows}
use ds4_translator.Daemon.Physical.{
  drop_physical, release_physical_connection, restore_suppressed_bluetooth, start_grace,
  on_physical_dropped,
}
use ds4_translator.Daemon.Reconnect.{found_node, scan-connects, raw-opens}
use ds4_translator.Daemon.Scan.{
  World, prepare_virtual, start_connection, finish_connection, usb_upgrade, top_of_loop,
}
use ds4_translator.Daemon.Virtual.{vdev_configured, create_uhid, create_virtual_device}

-- What the upgrade does: the Bluetooth connection is unbound, and the USB device bound.
upgrade_lem :
    (now : ℕ) (w : World) (d : Daemon)
    → d.is_bpf_transport ≡ false
    → empty w.usb_hid_id ≡ false
    → empty w.bt_hid_id ≡ false
    → usb_upgrade now w d ≡ record (emit (bind w.usb_hid_id) (emit (unbind w.bt_hid_id) d)) {
      suppressed_bt_hid_id = w.bt_hid_id;
    }
unfolding usb_upgrade
upgrade_lem now w d n u b = ground arith

-- A dropped Bluetooth connection.
dropped-wireless :
    (now : ℕ) (x : Daemon)
    → x.is_bluetooth ≡ true
    → let x' = on_physical_dropped now x in
      (x'.suppressed_bt_hid_id ≡ x.suppressed_bt_hid_id) × (x'.phy_fd ≡ none)
unfolding on_physical_dropped drop_physical release_physical_connection restore_suppressed_bluetooth
    start_grace vdev_configured
dropped-wireless now x t = ground arith

finish-keeps :
    (w : World) (x : Daemon)
    → let x' = finish_connection w x in
      (x'.suppressed_bt_hid_id ≡ x.suppressed_bt_hid_id) × (x'.is_bluetooth ≡ x.is_bluetooth)
unfolding finish_connection prepare_virtual start_connection create_virtual_device create_uhid
    drop_physical release_physical_connection
finish-keeps w x = ground arith

-- A dropped USB connection.
dropped-wired :
    (now : ℕ) (x : Daemon)
    → x.is_bluetooth ≡ false
    → empty x.suppressed_bt_hid_id ≡ false
    → let x' = on_physical_dropped now x in
      let let_off = x.effects ++ (discard_output ∷ release (transport_of x) ∷ []) in
      let bound = let_off ++ (bind x.suppressed_bt_hid_id ∷ []) in
      (x'.suppressed_bt_hid_id ≡ [])
      × ((x'.effects ≡ bound) ⊎ (x'.effects ≡ bound ++ (neutral x.target_type ∷ [])))
unfolding on_physical_dropped drop_physical release_physical_connection restore_suppressed_bluetooth
    start_grace vdev_configured
dropped-wired now x c e =
    ground (arith, append_assoc x.effects (discard_output ∷ []) (release (transport_of x) ∷ []))

-- The states of the daemon as a cable takes over: once the Bluetooth connection has broken off, and
-- once the next scan has opened the wired controller.
abbrev pub broken_off : ℕ → ℕ → World → Daemon → Daemon
broken_off now dropped w d = on_physical_dropped dropped (usb_upgrade now w d)

abbrev pub on_cable : ℕ → ℕ → ℕ → World → World → Daemon → Daemon
on_cable now dropped scanned w w' d = top_of_loop scanned w' (broken_off now dropped w d)

-- The effects begin with the end of the connection, and the binding of the given id.
abbrev pub LetsGo : Bytes → Daemon → Daemon → Type 0
LetsGo hid_id x after =
    Follows ((x.effects ++ (discard_output ∷ release (transport_of x) ∷ [])) ++ (bind hid_id ∷ []))
      after

-- The connection that comes to stand, with what is kept of the Bluetooth connection.
on_cable-keeps :
    (now dropped scanned fd : ℕ) (w w' : World) (d : Daemon)
    → d.is_bpf_transport ≡ false
    → d.is_bluetooth ≡ true
    → d.standalone_virtual ≡ false
    → d.ignore_physical ≡ false
    → d.hide_method ≡ legacy
    → empty w.usb_hid_id ≡ false
    → empty w.bt_hid_id ≡ false
    → empty w'.scan_name ≡ false
    → w'.scan_bluetooth ≡ false
    → w'.raw_open ≡ some fd
    → let x = on_cable now dropped scanned w w' d in
      (x.suppressed_bt_hid_id ≡ w.bt_hid_id) × (x.is_bluetooth ≡ false)
on_cable-keeps now dropped scanned fd w w' d n t s i m u b found wired o =
    let up = usb_upgrade now w d in
    let ul = upgrade_lem now w d n u b in
    let off = broken_off now dropped w d in
    let kept = dropped-kept dropped up in
    let gone = dropped-wireless dropped up (ap (λ x. x.is_bluetooth) ul ∙ t) in
    let opens =
      scan-connects scanned w' off gone.1 (kept.7 ∙ ap (λ x. x.standalone_virtual) ul ∙ s)
        (kept.8 ∙ ap (λ x. x.ignore_physical) ul ∙ i) (kept.9 ∙ ap (λ x. x.hide_method) ul ∙ m)
      ∙ raw-opens fd w' off found o in
    let finished = finish-keeps w' (found_node w' fd off) in
    (
      ap (λ x. x.suppressed_bt_hid_id) opens
          ∙ finished.0
          ∙ gone.0
          ∙ ap (λ x. x.suppressed_bt_hid_id) ul,
      ap (λ x. x.is_bluetooth) opens ∙ finished.1 ∙ wired,
    )

unplugged :
    (now : ℕ) (hid_id : Bytes) (x : Daemon)
    → x.is_bluetooth ≡ false
    → empty hid_id ≡ false
    → x.suppressed_bt_hid_id ≡ hid_id
    → ((on_physical_dropped now x).suppressed_bt_hid_id ≡ [])
      × LetsGo hid_id x (on_physical_dropped now x)
unplugged now hid_id x c e h =
    let (forgotten, done) = dropped-wired now x c (ap empty h ∙ e) in
    let let_off = x.effects ++ (discard_output ∷ release (transport_of x) ∷ []) in
    let same = ap (λ i. let_off ++ (bind i ∷ [])) h in
    (
      forgotten,
      elim done [
        | inl p ↦ ([], p ∙ same ∙ sym (append-nil (let_off ++ (bind hid_id ∷ []))))
        | inr p ↦ (neutral x.target_type ∷ [], p ∙ ap (λ l. l ++ (neutral x.target_type ∷ [])) same)
      ],
    )

-- Under the legacy hide method, with no standalone device and the scan not disabled, for a Bluetooth
-- connection that does not use HID-BPF and a USB device found beside it: the Bluetooth connection is
-- unbound and the USB device bound; its id is kept while that connection breaks off and while the next
-- scan opens the wired controller; and when the cable's connection drops in turn, that one is let go
-- by its transport, the Bluetooth connection is bound again, and its id forgotten.
pub bluetooth_comes_back :
    (now dropped scanned pulled fd : ℕ) (w w' : World) (d : Daemon)
    → d.is_bpf_transport ≡ false
    → d.is_bluetooth ≡ true
    → d.standalone_virtual ≡ false
    → d.ignore_physical ≡ false
    → d.hide_method ≡ legacy
    → empty w.usb_hid_id ≡ false
    → empty w.bt_hid_id ≡ false
    → empty w'.scan_name ≡ false
    → w'.scan_bluetooth ≡ false
    → w'.raw_open ≡ some fd
    → let wired = on_cable now dropped scanned w w' d in
      ((usb_upgrade now w d).effects
        ≡ d.effects ++ (unbind w.bt_hid_id ∷ []) ++ (bind w.usb_hid_id ∷ []))
      × (wired.suppressed_bt_hid_id ≡ w.bt_hid_id)
      × ((on_physical_dropped pulled wired).suppressed_bt_hid_id ≡ [])
      × LetsGo w.bt_hid_id wired (on_physical_dropped pulled wired)
bluetooth_comes_back now dropped scanned pulled fd w w' d n t s i m u b found c o =
    let (kept, is_wired) = on_cable-keeps now dropped scanned fd w w' d n t s i m u b found c o in
    let wired = on_cable now dropped scanned w w' d in
    let (forgotten, back) = unplugged pulled w.bt_hid_id wired is_wired b kept in
    (ap (λ x. x.effects) (upgrade_lem now w d n u b), kept, forgotten, back)
