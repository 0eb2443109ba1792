-- ===== src/HidId/Agree.antt =====
-- The events of the kernel and the scan of the bus take up the same DualShock 4 controllers.
use ds4_translator.Base.{
  ℕ, Bool, true, false, not, ◌&&◌, ◌||◌, ◌≡◌, ◌≢◌, refl, sym, ap, ◌∙◌, Option, none, some, List, [],
  ◌∷◌, ◌++◌, Bytes, All, All-append, all, if◌then◌else◌, ◌==◌, ne→==, arith,
}
use ds4_translator.Base.Text.{text, starts_with, contains, empty, ◌===◌}
use ds4_translator.HidId.Nodes.{
  HidDevice, dummy_hcd, virtual_uhid, hid_bus_scan_existing, is_bound_ds4,
}
use ds4_translator.HidId.Uevent.{
  behind_last, accept, hid_id_env_matches_ds4, hid_uevent_monitor_read,
}
use ds4_translator.HidId.Events.{
  IsField, IsValue, datagram, value_of, is_hid_field, event_round_trip,
}

-- The part of a path: no slash in it.
abbrev pub IsName : Bytes → Type 0
IsName = All (λ (c : ℕ). c ≢ 47)

abbrev pub bus_text : Bool → Bytes
bus_text true = text "0003"
bus_text false = text "0005"

abbrev pub product_text : Bool → Bytes
product_text true = text "05C4"
product_text false = text "09CC"

-- The name of a DualShock 4 on the bus, and how an event spells its ids: USB or Bluetooth, the
-- first or the second version.
abbrev pub bus_id : Bool → Bool → Bytes → Bytes
bus_id usb first instance_id =
    (bus_text usb ++ text ":054C:" ++ product_text first ++ text ".") ++ instance_id

abbrev pub env_id : Bool → Bool → Bytes
env_id usb first = bus_text usb ++ text ":0000054C:0000" ++ product_text first

behind_last-none : (s : Bytes) → IsName s → behind_last 47 s ≡ none
unfolding behind_last
behind_last-none [] h = refl
behind_last-none (c ∷ s) h = rw (behind_last-none s h.1, ne→== c 47 h.0) refl

behind_last-append : (dir s : Bytes) → IsName s → behind_last 47 (dir ++ 47 ∷ s) ≡ some s
unfolding behind_last
behind_last-append [] s h = rw (behind_last-none s h) refl
behind_last-append (c ∷ dir) s h = rw (behind_last-append dir s h) refl

to-IsName : (s : Bytes) → all (λ c. not (c == 47)) s ≡ true → IsName s
to-IsName [] h = tt
to-IsName (c ∷ s) h = ((λ e. absurd (ground arith)), to-IsName s (ground arith))

bus_id-IsName : (usb first : Bool) (s : Bytes) → IsName s → IsName (bus_id usb first s)
bus_id-IsName usb first s =
    All-append (λ (c : ℕ). c ≢ 47) (bus_text usb ++ text ":054C:" ++ product_text first ++ text ".")
      s
      (to-IsName (bus_text usb ++ text ":054C:" ++ product_text first ++ text ".")
        (plain usb first))
  where
    plain :
        (usb first : Bool)
        → all (λ c. not (c == 47)) (bus_text usb ++ text ":054C:" ++ product_text first ++ text ".")
          ≡ true
    plain true true = refl
    plain true false = refl
    plain false true = refl
    plain false false = refl

append-some : (dir s : Bytes) (c : ℕ) → empty (dir ++ c ∷ s) ≡ false
append-some [] s c = refl
append-some (x ∷ dir) s c = refl

-- The name that a scan gives, none for the empty one.
abbrev pub found : Bytes → Option Bytes
found [] = none
found (c ∷ s) = some (c ∷ s)

-- What both ask of the path.
abbrev taken : Bool → Bytes → Bytes → Option Bytes
taken usb path id =
    if contains dummy_hcd path
    then none
    else if usb && contains virtual_uhid path
    then none
    else some id

abbrev device : Bool → Bool → Bytes → Bytes → HidDevice
device usb first path instance_id = record {
  id = bus_id usb first instance_id;
  devpath = some (text "/sys" ++ path);
  has_driver = true;
}

-- What holds of the four kinds holds of each.
each {ℓ} :
    (P : Bool → Bool → Type ℓ)
    → P true true
    → P true false
    → P false true
    → P false false
    → (usb first : Bool) → P usb first
each P a b c d true true = a
each P a b c d true false = b
each P a b c d false true = c
each P a b c d false false = d

bus_id-known :
    (s : Bytes) (usb first : Bool)
    → (starts_with (text "0003:054C:05C4.") (bus_id usb first s)
        || starts_with (text "0003:054C:09CC.") (bus_id usb first s)
        || starts_with (text "0005:054C:05C4.") (bus_id usb first s)
        || starts_with (text "0005:054C:09CC.") (bus_id usb first s))
      ≡ true
unfolding starts_with
bus_id-known s =
    each
      (λ u f.
        (starts_with (text "0003:054C:05C4.") (bus_id u f s)
          || starts_with (text "0003:054C:09CC.") (bus_id u f s)
          || starts_with (text "0005:054C:05C4.") (bus_id u f s)
          || starts_with (text "0005:054C:09CC.") (bus_id u f s))
        ≡ true)
      refl refl refl refl

bus_id-usb : (s : Bytes) (usb first : Bool) → starts_with (text "0003:") (bus_id usb first s) ≡ usb
unfolding starts_with
bus_id-usb s = each (λ u f. starts_with (text "0003:") (bus_id u f s) ≡ u) refl refl refl refl

bus_id-some : (s : Bytes) (usb first : Bool) → empty (bus_id usb first s) ≡ false
bus_id-some s = each (λ u f. empty (bus_id u f s) ≡ false) refl refl refl refl

env_id-usb : (usb first : Bool) → starts_with (text "0003:") (env_id usb first) ≡ usb
unfolding starts_with
env_id-usb = each (λ u f. starts_with (text "0003:") (env_id u f) ≡ u) refl refl refl refl

env_id-matches : (usb first : Bool) → hid_id_env_matches_ds4 (env_id usb first) ≡ true
unfolding hid_id_env_matches_ds4 starts_with contains
env_id-matches = each (λ u f. hid_id_env_matches_ds4 (env_id u f) ≡ true) refl refl refl refl

env_id-some : (usb first : Bool) → empty (env_id usb first) ≡ false
env_id-some = each (λ u f. empty (env_id u f) ≡ false) refl refl refl refl

kept :
    (d usb v : Bool) (x : Bytes)
    → empty x ≡ false
    → found (if not d && not (usb && v) && true then x else [])
      ≡ (if d then none else if usb && v then none else some x)
kept d usb v [] h = ground arith
kept true usb v (c ∷ s) h = refl
kept false false v (c ∷ s) h = refl
kept false true true (c ∷ s) h = refl
kept false true false (c ∷ s) h = refl

scan_taken :
    (usb first : Bool) (path s : Bytes)
    → found (hid_bus_scan_existing (device usb first path s ∷ []))
      ≡ taken usb path (bus_id usb first s)
unfolding hid_bus_scan_existing is_bound_ds4 contains starts_with
scan_taken usb first path s =
    rw (bus_id-known s usb first, bus_id-usb s usb first, is_bound_ds4)
      (kept (contains dummy_hcd path) usb (contains virtual_uhid path) (bus_id usb first s)
        (bus_id-some s usb first))

accept-taken :
    (usb first : Bool) (dir s : Bytes)
    → IsName s
    → accept (record {
      action = text "add";
      devpath = dir ++ 47 ∷ bus_id usb first s;
      hid_id_env = env_id usb first;
    })
      ≡ taken usb (dir ++ 47 ∷ bus_id usb first s) (bus_id usb first s)
unfolding accept ◌===◌
accept-taken usb first dir s h =
    rw
      (
        append-some dir (bus_id usb first s) 47,
        behind_last-append dir (bus_id usb first s) (bus_id-IsName usb first s h),
        env_id-some usb first,
        env_id-matches usb first,
        env_id-usb usb first,
        bus_id-some s usb first,
        accept,
      )
      refl

-- Where no other device of the bus qualifies, the scan gives what the one would give alone.
scan_after :
    (after : List HidDevice)
    → All (λ other. is_bound_ds4 other ≡ false) after
    → hid_bus_scan_existing after ≡ []
unfolding hid_bus_scan_existing
scan_after [] h = refl
scan_after (other ∷ after) h = rw (h.0, scan_after after h.1) refl

scan_among :
    (device : HidDevice) (before after : List HidDevice)
    → All (λ other. is_bound_ds4 other ≡ false) before
    → All (λ other. is_bound_ds4 other ≡ false) after
    → hid_bus_scan_existing (before ++ device ∷ after) ≡ hid_bus_scan_existing (device ∷ [])
unfolding hid_bus_scan_existing
scan_among device [] after h k = rw (scan_after after k) refl
scan_among device (other ∷ before) after h k = rw (h.0, scan_among device before after h.1 k) refl

-- An event that says a DualShock 4 was added, in whatever order and with whatever other fields, gives
-- the name of the device exactly where the scan of the bus finds the device once a driver is bound:
-- over USB and Bluetooth, for both versions, at every path (which the scan sees below /sys), and among
-- whatever other devices that do not qualify.
pub uevent_agrees :
    (usb first : Bool) (header dir instance_id : Bytes) (fs : List (Bytes × Bytes))
    (before after : List HidDevice)
    → IsValue header
    → All IsField fs
    → IsName instance_id
    → all is_hid_field fs ≡ true
    → value_of (text "ACTION") fs [] ≡ text "add"
    → value_of (text "DEVPATH") fs [] ≡ dir ++ 47 ∷ bus_id usb first instance_id
    → value_of (text "HID_ID") fs [] ≡ env_id usb first
    → All (λ other. is_bound_ds4 other ≡ false) before
    → All (λ other. is_bound_ds4 other ≡ false) after
    → hid_uevent_monitor_read (datagram header fs)
      ≡ found (
          hid_bus_scan_existing (
            before
            ++ record {
              id = bus_id usb first instance_id;
              devpath = some (text "/sys" ++ (dir ++ 47 ∷ bus_id usb first instance_id));
              has_driver = true;
            }
              ∷ after))
uevent_agrees usb first header dir s fs before after h i n sub a d e hb ha =
    event_round_trip header fs h i
    ∙ rw (sub, a, d, e)
        (accept-taken usb first dir s n
          ∙ sym (scan_taken usb first (dir ++ 47 ∷ bus_id usb first s) s)
          ∙ sym (ap found (scan_among _ before after hb ha)))
