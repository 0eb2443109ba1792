-- ===== src/Daemon/Grace.antt =====
-- What a dropped connection means for the virtual device: the grace period and the reconnection.
use ds4_translator.Base.{
  ℕ, ◌+◌, ◌-◌, Bool, true, false, not, ◌&&◌, ◌≡◌, refl, ap, ◌∙◌, Bool-cases, inl, inr, none, some,
  is_some, ltb, leb, arith, if◌then◌else◌,
}
use ds4_translator.Base.Text.{empty}
use ds4_translator.Emulation.{controller_type_emulates, is_functionfs, legacy}
use ds4_translator.Daemon.{Daemon, disconnect_grace}
use ds4_translator.Daemon.Physical.{
  drop_physical, release_physical_connection, restore_suppressed_bluetooth, start_grace,
  on_physical_dropped, on_grace_check,
}
use ds4_translator.Daemon.Scan.{
  World, open_and_hide_physical, prepare_virtual, start_connection, finish_connection, connect_raw,
  auto_scan, top_of_loop,
}
use ds4_translator.Daemon.Virtual.{vdev_configured, destroy_virtual_device}

-- Whether the backend holds a virtual device.
abbrev pub device_made : Daemon → Bool
device_made d = if is_functionfs d.backend_type then d.functionfs_open else is_some d.uhid_fd

-- What the check does `wait` after the drop.
abbrev Checked : ℕ → Daemon → Daemon → Type 0
Checked wait x after =
    (vdev_configured after ≡ (vdev_configured x && ltb wait disconnect_grace))
    × (device_made after ≡ (device_made x && ltb wait disconnect_grace))
    × (after.uhid_handles ≡ (
        if not (ltb wait disconnect_grace)
          && not (is_functionfs x.backend_type)
          && is_some x.uhid_fd
        then x.uhid_handles - 1
        else x.uhid_handles))

over : (now wait : ℕ) → leb disconnect_grace (now + wait - now) ≡ not (ltb wait disconnect_grace)
over now wait = ground arith

kept_device : (wait : ℕ) (x : Daemon) → ltb wait disconnect_grace ≡ true → Checked wait x x
kept_device wait x e = ground arith

gone_device :
    (wait : ℕ) (x : Daemon)
    → ltb wait disconnect_grace ≡ false
    → Checked wait x
        (record (destroy_virtual_device x) { device_open = false; pending_destroy = false })
unfolding destroy_virtual_device vdev_configured
gone_device wait x e = ground arith

on_true : (P : Daemon → Type 0) (b : Bool) (v w : Daemon) → b ≡ true → P v → P (if b then v else w)
on_true P true v w h p = p
on_true P false v w h p = absurd (ground (arith, h))

on_false :
    (P : Daemon → Type 0) (b : Bool) (v w : Daemon) → b ≡ false → P w → P (if b then v else w)
on_false P true v w h p = absurd (ground (arith, h))
on_false P false v w h p = p

check_lem :
    (now wait : ℕ) (x : Daemon)
    → x.pending_destroy ≡ true
    → x.disconnect_time ≡ now
    → Checked wait x (on_grace_check (now + wait) x)
unfolding on_grace_check
check_lem now wait x p t = elim (Bool-cases (ltb wait disconnect_grace)) [
  | inl e ↦
      on_false (Checked wait x) (due x) _ x (rw (p, t, over now wait, e) refl)
        (kept_device wait x e)
  | inr e ↦
      on_true (Checked wait x) (due x) _ x (rw (p, t, over now wait, e) refl) (gone_device wait x e)
]
  where
    due : Daemon → Bool
    due y = y.pending_destroy && leb disconnect_grace (now + wait - y.disconnect_time)

since :
    (now : ℕ) (d : Daemon)
    → controller_type_emulates d.target_type ≡ true
    → vdev_configured d ≡ true
    → let d' = on_physical_dropped now d in
      (d'.pending_destroy ≡ true)
      × (d'.disconnect_time ≡ now)
      × (vdev_configured d' ≡ true)
      × (device_made d' ≡ device_made d)
      × (d'.uhid_handles ≡ d.uhid_handles)
      × (d'.uhid_fd ≡ d.uhid_fd)
      × (d'.backend_type ≡ d.backend_type)
unfolding on_physical_dropped drop_physical release_physical_connection restore_suppressed_bluetooth
    start_grace vdev_configured
since now d e c = ground arith

-- What the wait has made of the device: the configuration, the device itself and the descriptors.
abbrev pub Outlives : ℕ → Daemon → Daemon → Type 0
Outlives wait d after =
    (vdev_configured after ≡ ltb wait disconnect_grace)
    × (device_made after ≡ (device_made d && ltb wait disconnect_grace))
    × (after.uhid_handles ≡ (
        if not (ltb wait disconnect_grace)
          && not (is_functionfs d.backend_type)
          && is_some d.uhid_fd
        then d.uhid_handles - 1
        else d.uhid_handles))

-- A device in use outlives a dropped controller for exactly the grace period, however long the wait:
-- the check after it leaves the device configured if fewer than 300 seconds have passed, and not
-- otherwise; the backend holds the device that it held if fewer have passed, and none otherwise; and a
-- descriptor of /dev/uhid is given back exactly where one was held and the period is over.
pub grace_period :
    (now wait : ℕ) (d : Daemon)
    → controller_type_emulates d.target_type ≡ true
    → vdev_configured d ≡ true
    → Outlives wait d (on_grace_check (now + wait) (on_physical_dropped now d))
grace_period now wait d e c =
    let s = since now d e c in
    let h = check_lem now wait (on_physical_dropped now d) s.0 s.1 in
    (
      h.0 ∙ ap (λ b. b && ltb wait disconnect_grace) s.2,
      h.1 ∙ ap (λ b. b && ltb wait disconnect_grace) s.3,
      h.2 ∙ rw (s.4, s.5, s.6) refl,
    )

pub dropped-waits :
    (now : ℕ) (d : Daemon)
    → controller_type_emulates d.target_type ≡ true
    → vdev_configured d ≡ true
    → let d' = on_physical_dropped now d in
      (d'.pending_destroy ≡ true) × (d'.phy_fd ≡ none) × (d'.is_unbind_transport ≡ false)
unfolding on_physical_dropped drop_physical release_physical_connection restore_suppressed_bluetooth
    start_grace vdev_configured
dropped-waits now d e c = ground arith

-- What a scan that finds the controller again leaves as it was.
abbrev pub Reused : ℕ → Daemon → Daemon → Type 0
Reused fd before after =
    (after.phy_fd ≡ some fd)
    × (after.pending_destroy ≡ false)
    × (after.backend_type ≡ before.backend_type)
    × (after.uhid_fd ≡ before.uhid_fd)
    × (after.uhid_handles ≡ before.uhid_handles)
    × (after.device_open ≡ before.device_open)
    × (after.functionfs_configured ≡ before.functionfs_configured)
    × (after.cur ≡ before.cur)

finish-Reused :
    (w : World) (fd : ℕ) (d : Daemon)
    → controller_type_emulates d.target_type ≡ true
    → d.pending_destroy ≡ true
    → d.phy_fd ≡ some fd
    → Reused fd d (finish_connection w d)
unfolding finish_connection prepare_virtual start_connection
finish-Reused w fd d e p f = ground arith

pub scan-Reused :
    (now fd : ℕ) (w : World) (d : Daemon)
    → controller_type_emulates d.target_type ≡ true
    → d.pending_destroy ≡ true
    → d.phy_fd ≡ none
    → d.standalone_virtual ≡ false
    → d.ignore_physical ≡ false
    → d.hide_method ≡ legacy
    → empty w.scan_name ≡ false
    → w.raw_open ≡ some fd
    → Reused fd d (top_of_loop now w d)
unfolding top_of_loop auto_scan connect_raw open_and_hide_physical
scan-Reused now fd w d e p n s i m found o =
    rw (n, s, i, m, found, o) (finish-Reused w fd _ e p refl)

pub dropped-kept :
    (now : ℕ) (d : Daemon)
    → let d' = on_physical_dropped now d in
      (d'.backend_type ≡ d.backend_type)
      × (d'.uhid_fd ≡ d.uhid_fd)
      × (d'.uhid_handles ≡ d.uhid_handles)
      × (d'.device_open ≡ d.device_open)
      × (d'.functionfs_configured ≡ d.functionfs_configured)
      × (d'.cur ≡ d.cur)
      × (d'.target_type ≡ d.target_type)
      × (d'.standalone_virtual ≡ d.standalone_virtual)
      × (d'.ignore_physical ≡ d.ignore_physical)
      × (d'.hide_method ≡ d.hide_method)
unfolding on_physical_dropped drop_physical release_physical_connection restore_suppressed_bluetooth
    start_grace
dropped-kept now d = ground arith
