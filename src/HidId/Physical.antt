-- ===== src/HidId/Physical.antt =====
-- Which node `find_physical_ds4` chooses.
use ds4_translator.Base.{
  Bool, true, false, not, ◌&&◌, ◌||◌, ◌≡◌, refl, sym, ap, ◌∙◌, ◌⊎◌, inl, inr, Option, none, some,
  List, [], ◌∷◌, Bytes, All, if◌then◌else◌, ◌==◌, arith, Bool-cases,
}
use ds4_translator.Base.Text.{text, starts_with, empty}
use ds4_translator.HidId.Nodes.{
  DevEntry, HidrawDevinfo, is_own_virtual_hidraw, match_info, match_entry, match_entries,
  prefer_usb, find_physical_ds4,
}

-- A node of a DualShock 4 other than the daemon's own, over Bluetooth or else over USB.
abbrev has_ids : Bool → DevEntry → Option HidrawDevinfo → Bool
has_ids bluetooth entry none = false
has_ids bluetooth entry (some info) =
    info.vendor == 0x054c
    && (info.product == 0x05c4 || info.product == 0x09cc)
    && not (is_own_virtual_hidraw entry.device info.bustype)
    && (if bluetooth then info.bustype == 0x05 else not (info.bustype == 0x05))

abbrev pub is_candidate : Bool → DevEntry → Bool
is_candidate bluetooth entry =
    starts_with (text "hidraw") entry.name && entry.opens && has_ids bluetooth entry entry.info

-- The entries hold a candidate of this name.
pub data Holds (bluetooth : Bool) (name : Bytes) : List DevEntry → Type 0 where
  here :
      {entry : DevEntry} {entries : List DevEntry}
      → is_candidate bluetooth entry ≡ true
      → entry.name ≡ name
      → Holds bluetooth name (entry ∷ entries)
  there :
      {entry : DevEntry} {entries : List DevEntry}
      → Holds bluetooth name entries
      → Holds bluetooth name (entry ∷ entries)

abbrev pub Lack : Bool → List DevEntry → Type 0
Lack bluetooth = All (λ entry. is_candidate bluetooth entry ≡ false)

-- What the answer says of the entries.
abbrev pub Explains : List DevEntry → Option (Bytes × Bool) → Type 0
Explains entries none = Lack false entries × Lack true entries
Explains entries (some (name, false)) = Holds false name entries
Explains entries (some (name, true)) = Lack false entries × Holds true name entries

abbrev last_of : Bool → List DevEntry → Bytes → Bytes
last_of bluetooth [] d = d
last_of bluetooth (entry ∷ entries) d =
    last_of bluetooth entries (if is_candidate bluetooth entry then entry.name else d)

match_info-has_ids :
    (entry : DevEntry) (info : HidrawDevinfo) (u b : Bytes)
    → match_info entry info (u, b) ≡ (
      (if has_ids false entry (some info) then entry.name else u),
      (if has_ids true entry (some info) then entry.name else b),
    )
unfolding match_info
match_info-has_ids entry info u b = ground arith

match_entry-candidate :
    (entry : DevEntry) (u b : Bytes)
    → match_entry entry (u, b) ≡ (
      (if is_candidate false entry then entry.name else u),
      (if is_candidate true entry then entry.name else b),
    )
unfolding match_entry
match_entry-candidate entry u b = by_info entry.name entry.opens entry.info entry.device
  where
    by_info :
        (name : Bytes) (opens : Bool) (info : Option HidrawDevinfo) (device : Option Bytes)
        → let e : DevEntry = record { name = name; opens = opens; info = info; device = device } in
          match_entry e (u, b) ≡ (
            (if is_candidate false e then e.name else u),
            (if is_candidate true e then e.name else b),
          )
    by_info name opens none device = ground arith
    by_info name opens (some info) device = ground (
      arith,
      match_info-has_ids (record { name = name; opens = opens; info = some info; device = device })
          info u b,
    )

match_entries-last_of :
    (entries : List DevEntry) (u b : Bytes)
    → match_entries entries (u, b) ≡ (last_of false entries u, last_of true entries b)
unfolding match_entries
match_entries-last_of [] u b = refl
match_entries-last_of (entry ∷ entries) u b =
    ap (match_entries entries) (match_entry-candidate entry u b)
    ∙ match_entries-last_of entries (if is_candidate false entry then entry.name else u)
        (if is_candidate true entry then entry.name else b)

-- The last candidate has a name, or there is none and the default stays.
candidate-named :
    (bluetooth : Bool) (entry : DevEntry)
    → is_candidate bluetooth entry ≡ true
    → empty entry.name ≡ false
unfolding starts_with
candidate-named bluetooth entry h = named entry.name (ground arith)
  where
    named : (s : Bytes) → starts_with (text "hidraw") s ≡ true → empty s ≡ false
    named [] e = absurd (ground arith)
    named (c ∷ s) e = refl

last_of-cases :
    (bluetooth : Bool) (entries : List DevEntry) (d : Bytes)
    → (Lack bluetooth entries × (last_of bluetooth entries d ≡ d))
      ⊎ (Holds bluetooth (last_of bluetooth entries d) entries
          × (empty (last_of bluetooth entries d) ≡ false))
last_of-cases bluetooth [] d = inl (tt, refl)
last_of-cases bluetooth (entry ∷ entries) d = elim (Bool-cases (is_candidate bluetooth entry)) [
  | inl e ↦ rw e (elim (last_of-cases bluetooth entries entry.name) [
    | inl (lack, stays) ↦
        inr (here e (sym stays), ap empty stays ∙ candidate-named bluetooth entry e)
    | inr (holds, named) ↦ inr (there holds, named)
  ])
  | inr e ↦ rw e (elim (last_of-cases bluetooth entries d) [
    | inl (lack, stays) ↦ inl ((refl, lack), stays)
    | inr (holds, named) ↦ inr (there holds, named)
  ])
]

-- The node chosen is a DualShock 4 that opens and is not the daemon's own, and a Bluetooth one only
-- where no such node is connected over USB; where none is prefer_usb, there is none of either kind.
pub find_physical_ds4-Explains :
    (entries : List DevEntry) → Explains entries (find_physical_ds4 entries)
unfolding find_physical_ds4 prefer_usb
find_physical_ds4-Explains entries =
    rw (match_entries-last_of entries [] [], prefer_usb)
      (elim (last_of-cases false entries []) [
        | inr (usb, named) ↦ rw named usb
        | inl (no_usb, stays) ↦ rw stays (elim (last_of-cases true entries []) [
          | inr (bluetooth, named) ↦ rw named (no_usb, bluetooth)
          | inl (no_bluetooth, stays) ↦ rw stays (no_usb, no_bluetooth)
        ])
      ])
