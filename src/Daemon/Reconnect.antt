-- ===== src/Daemon/Reconnect.antt =====
-- What becomes of the virtual device when a dropped controller comes back.
use ds4_translator.Base.{ℕ, ◌+◌, true, false, not, ◌≡◌, refl, ap, ◌∙◌, none, some, is_some, arith}
use ds4_translator.Base.Text.{empty}
use ds4_translator.Emulation.{is_none, controller_type_emulates, uhid, legacy}
use ds4_translator.Daemon.{Daemon, emit, open_raw}
use ds4_translator.Daemon.Grace.{Reused, dropped-waits, dropped-kept, scan-Reused}
use ds4_translator.Daemon.Physical.{
  drop_physical, release_physical_connection, restore_suppressed_bluetooth, start_grace,
  on_physical_dropped,
}
use ds4_translator.Daemon.Scan.{
  World, open_and_hide_physical, prepare_virtual, start_connection, finish_connection, connect_raw,
  auto_scan, top_of_loop,
}
use ds4_translator.Daemon.Virtual.{vdev_configured, create_uhid, create_virtual_device}

-- Under the legacy hide method, with no standalone device and the scan not disabled: a controller
-- that drops while the host uses the virtual device, and whose node the next scan finds and opens
-- (before a check has ended the grace period), takes over the same device. No descriptor, backend,
-- open state or remembered colour has changed, and nothing waits to be destroyed.
pub reconnect_reuses :
    (dropped now fd : ℕ) (w : World) (d : Daemon)
    → controller_type_emulates d.target_type ≡ true
    → vdev_configured d ≡ true
    → d.standalone_virtual ≡ false
    → d.ignore_physical ≡ false
    → d.hide_method ≡ legacy
    → empty w.scan_name ≡ false
    → w.raw_open ≡ some fd
    → Reused fd d (top_of_loop now w (on_physical_dropped dropped d))
reconnect_reuses dropped now fd w d e c s i m found o =
    let d' = on_physical_dropped dropped d in
    let waits = dropped-waits dropped d e c in
    let kept = dropped-kept dropped d in
    ground (
      arith,
      scan-Reused now fd w d' (ap controller_type_emulates kept.6 ∙ e) waits.0 waits.1 (kept.7 ∙ s)
          (kept.8 ∙ i) (kept.9 ∙ m) found o,
    )

dropped-idle :
    (now : ℕ) (d : Daemon)
    → vdev_configured d ≡ false
    → d.pending_destroy ≡ false
    → let d' = on_physical_dropped now d in
      (d'.pending_destroy ≡ false) × (d'.phy_fd ≡ none) × (d'.is_unbind_transport ≡ false)
unfolding on_physical_dropped drop_physical release_physical_connection restore_suppressed_bluetooth
    start_grace vdev_configured
dropped-idle now d c p = ground arith

finish-created :
    (w : World) (new_fd : ℕ) (d : Daemon)
    → controller_type_emulates d.target_type ≡ true
    → d.backend_type ≡ uhid
    → d.pending_destroy ≡ false
    → is_some d.phy_fd ≡ true
    → w.creation.uhid_open ≡ some new_fd
    → w.creation.uhid_write_ok ≡ true
    → let d' = finish_connection w d in
      (d'.uhid_fd ≡ some new_fd) × (d'.uhid_handles ≡ d.uhid_handles + 1)
unfolding finish_connection prepare_virtual start_connection create_virtual_device create_uhid
finish-created w new_fd d e b p f c k = ground arith

-- The daemon once the node that the scan has found is open.
abbrev pub found_node : World → ℕ → Daemon → Daemon
found_node w fd d =
    emit (open_raw w.scan_name (not (is_none d.target_type)))
      (record d { phy_name = w.scan_name; is_bluetooth = w.scan_bluetooth; phy_fd = some fd })

pub scan-connects :
    (now : ℕ) (w : World) (d : Daemon)
    → d.phy_fd ≡ none
    → d.standalone_virtual ≡ false
    → d.ignore_physical ≡ false
    → d.hide_method ≡ legacy
    → top_of_loop now w d ≡ connect_raw w d
unfolding top_of_loop auto_scan
scan-connects now w d n s i m = ground arith

node-opens :
    (fd : ℕ) (w : World) (d : Daemon)
    → w.raw_open ≡ some fd
    → open_and_hide_physical w d
      ≡ emit (open_raw d.phy_name (not (is_none d.target_type))) (record d { phy_fd = some fd })
unfolding open_and_hide_physical
node-opens fd w d o = rw o refl

pub raw-opens :
    (fd : ℕ) (w : World) (d : Daemon)
    → empty w.scan_name ≡ false
    → w.raw_open ≡ some fd
    → connect_raw w d ≡ finish_connection w (found_node w fd d)
unfolding connect_raw
raw-opens fd w d found o = rw found (
    ap (finish_connection w)
      (node-opens fd w (record d { phy_name = w.scan_name; is_bluetooth = w.scan_bluetooth }) o))

-- Under the legacy hide method and the uhid backend, with no standalone device, no grace period and
-- the scan not disabled: a controller that drops before the host has opened the uhid device, and that
-- the next scan finds and opens. A second uhid device is made over the first, whose descriptor is
-- lost and stays open.
pub reconnect_leaks :
    (dropped now fd new_fd old_fd : ℕ) (w : World) (d : Daemon)
    → controller_type_emulates d.target_type ≡ true
    → d.backend_type ≡ uhid
    → d.device_open ≡ false
    → d.uhid_fd ≡ some old_fd
    → d.pending_destroy ≡ false
    → d.standalone_virtual ≡ false
    → d.ignore_physical ≡ false
    → d.hide_method ≡ legacy
    → empty w.scan_name ≡ false
    → w.raw_open ≡ some fd
    → w.creation.uhid_open ≡ some new_fd
    → w.creation.uhid_write_ok ≡ true
    → let d' = top_of_loop now w (on_physical_dropped dropped d) in
      (d'.uhid_fd ≡ some new_fd) × (d'.uhid_handles ≡ d.uhid_handles + 1)
unfolding vdev_configured
reconnect_leaks dropped now fd new_fd old_fd w d e b o u p s i m found r c k =
    let d' = on_physical_dropped dropped d in
    let idle = dropped-idle dropped d (not_configured b o) p in
    let kept = dropped-kept dropped d in
    let opens =
      scan-connects now w d' idle.1 (kept.7 ∙ s) (kept.8 ∙ i) (kept.9 ∙ m)
      ∙ raw-opens fd w d' found r in
    let again =
      finish-created w new_fd (found_node w fd d') (ap controller_type_emulates kept.6 ∙ e)
        (kept.0 ∙ b) idle.0 refl c k in
    (
      ap (λ x. x.uhid_fd) opens ∙ again.0,
      ap (λ x. x.uhid_handles) opens ∙ again.1 ∙ ap (λ h. h + 1) kept.2,
    )
  where
    not_configured : d.backend_type ≡ uhid → d.device_open ≡ false → vdev_configured d ≡ false
    not_configured hb ho = ground arith
