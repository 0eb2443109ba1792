-- ===== src/Uhid/Replies.antt =====
-- What the host is told agrees with itself: replies fit their sizes, and reports have the sizes that
-- the descriptor handed over at creation declares.
use ds4_translator.Base.{
  ℕ, ◌≤◌, ◌<◌, Bool, true, ◌≡◌, refl, sym, if-both, Bool-cases, ==_iff, ◌⊎◌, inl, inr, ◌||◌, ◌==◌,
  [], Bytes, length, get_or, arith,
}
use ds4_translator.Emulation.{ControllerType, ds4, dualsense, is_ds4}
use ds4_translator.Report.{Common, Touches}
use ds4_translator.Report.Emit.{ds4_payload, dualsense_payload}
use ds4_translator.Uhid.{Reply, get_report, ds4_feature, dualsense_feature}
use ds4_translator.Uhid.Descriptors.{
  ds4_usb_rdesc, dualsense_usb_rdesc, declared_size, read_items, item, input_item, feature_item,
}

-- A reply is empty, or holds its report number and no more bytes than its size.
abbrev pub WellFormed : ℕ → Reply → Type 0
WellFormed rnum r =
    ((r.size ≡ 0) × (r.contents ≡ []))
    ⊎ ((0 < length r.contents) × (length r.contents ≤ r.size) × (get_or r.contents 0 0 ≡ rnum))

ds4_feature-WellFormed : (id rnum : ℕ) → WellFormed rnum (ds4_feature id rnum)
unfolding ds4_feature
ds4_feature-WellFormed id rnum =
    if-both (WellFormed rnum) (rnum == 0x02 || rnum == 0x25) (inr (omega arith, omega arith, refl))
      (if-both (WellFormed rnum) (rnum == 0x10 || rnum == 0x12)
        (inr (omega arith, omega arith, refl))
        (if-both (WellFormed rnum) (rnum == 0x31 || rnum == 0xa3)
          (inr (omega arith, omega arith, refl)) (inl (refl, refl))))

dualsense_feature-WellFormed : (id rnum : ℕ) → WellFormed rnum (dualsense_feature id rnum)
unfolding dualsense_feature
dualsense_feature-WellFormed id rnum = elim (Bool-cases (rnum == 0x05)) [
  | inl e ↦ rw e (inr (omega arith, omega arith, sym ((==_iff rnum 0x05).0 e)))
  | inr e5 ↦ elim (Bool-cases (rnum == 0x20)) [
    | inl e ↦ rw (e5, e) (inr (omega arith, omega arith, sym ((==_iff rnum 0x20).0 e)))
    | inr e20 ↦ elim (Bool-cases (rnum == 0x09)) [
      | inl e ↦ rw (e5, e20, e) (inr (omega arith, omega arith, sym ((==_iff rnum 0x09).0 e)))
      | inr e ↦ rw (e5, e20, e) (inl (refl, refl))
    ]
  ]
]

-- The members that do not depend on the report.
abbrev pub Echoes : ℕ → Reply → Type 0
Echoes id r = (r.id ≡ id) × (r.err ≡ 0)

ds4_feature-Echoes : (id rnum : ℕ) → Echoes id (ds4_feature id rnum)
unfolding ds4_feature
ds4_feature-Echoes id rnum =
    if-both (Echoes id) (rnum == 0x02 || rnum == 0x25) (refl, refl)
      (if-both (Echoes id) (rnum == 0x10 || rnum == 0x12) (refl, refl)
        (if-both (Echoes id) (rnum == 0x31 || rnum == 0xa3) (refl, refl) (refl, refl)))

dualsense_feature-Echoes : (id rnum : ℕ) → Echoes id (dualsense_feature id rnum)
unfolding dualsense_feature
dualsense_feature-Echoes id rnum =
    if-both (Echoes id) (rnum == 0x05) (refl, refl)
      (if-both (Echoes id) (rnum == 0x20) (refl, refl)
        (if-both (Echoes id) (rnum == 0x09) (refl, refl) (refl, refl)))

-- Whatever type is emulated and whatever report is asked for, the reply bears the number of its
-- request, no error, and is either empty or holds the report number first and no more bytes than its
-- size.
pub get_report-WellFormed :
    (type : ControllerType) (id rnum : ℕ) (feature : Bool)
    → Echoes id (get_report type id rnum feature)
      × WellFormed rnum (get_report type id rnum feature)
unfolding get_report
get_report-WellFormed type id rnum feature =
    if-both (λ r. Echoes id r × WellFormed rnum r) feature
      (if-both (λ r. Echoes id r × WellFormed rnum r) (is_ds4 type)
        (ds4_feature-Echoes id rnum, ds4_feature-WellFormed id rnum)
        (dualsense_feature-Echoes id rnum, dualsense_feature-WellFormed id rnum))
      ((refl, refl), inl (refl, refl))

-- The sizes of one type's reports against its descriptor.
pub record Sizes (type : ControllerType) (payload rdesc : Bytes) (a b c : ℕ) (id : ℕ) : Type 0 where
  input_size : length payload ≡ declared_size input_item 1 rdesc
  feature_a : (get_report type id a true).size ≡ declared_size feature_item a rdesc
  feature_b : (get_report type id b true).size ≡ declared_size feature_item b rdesc
  feature_c : (get_report type id c true).size ≡ declared_size feature_item c rdesc

-- Every input report that is emitted, whatever its contents, and the replies with calibration,
-- pairing and version data (feature reports 0x02, 0x12 and 0xa3 of a DualShock 4; 0x05, 0x09 and 0x20
-- of a DualSense) have exactly the length that the descriptor handed over at creation declares.
pub reports-Sizes :
    (sequence : ℕ) (c : Common) (n : ℕ) (ts : Touches) (real : Bool) (id : ℕ)
    → Sizes ds4 (ds4_payload c n ts real) ds4_usb_rdesc 0x02 0x12 0xa3 id
      × Sizes dualsense
          (dualsense_payload sequence c n ts real)
          dualsense_usb_rdesc
          0x05
          0x09
          0x20
          id
unfolding ds4_payload dualsense_payload get_report declared_size read_items item
reports-Sizes sequence c n ts real id = (
  record { input_size = refl; feature_a = refl; feature_b = refl; feature_c = refl },
  record { input_size = refl; feature_a = refl; feature_b = refl; feature_c = refl },
)
