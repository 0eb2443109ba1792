-- ===== src/HidId/Events.antt =====
-- Events of the kernel about devices on the HID bus: how they are read, and that they are taken up
-- where the scan of the bus takes up the same device.
use ds4_translator.Base.{
  ℕ, Bool, true, false, not, ◌&&◌, ◌||◌, ◌≡◌, ◌≢◌, refl, sym, ap, ◌∙◌, inl, inr, Option, none, some,
  List, [], ◌∷◌, ◌++◌, Bytes, All, All-append, all, map, if◌then◌else◌, ◌==◌, ne→==, arith,
  Bool-cases,
}
use mathlib.Core.Path.{subst}
use ds4_translator.Base.Text.{text, starts_with, empty, ◌===◌, ===_iff}
use ds4_translator.HidId.Uevent.{
  Uevent, c_strings, on_token, on_tokens, accept, without_header, judged, hid_uevent_monitor_read,
}

-- A field `KEY=VALUE`: neither part holds a zero byte, and the key no `=`.
abbrev pub IsKey : Bytes → Type 0
IsKey = All (λ (c : ℕ). (c ≢ 0) × (c ≢ 61))

abbrev pub IsValue : Bytes → Type 0
IsValue = All (λ (c : ℕ). c ≢ 0)

abbrev pub IsField : Bytes × Bytes → Type 0
IsField f = IsKey f.0 × IsValue f.1

abbrev pub field_text : Bytes × Bytes → Bytes
field_text f = f.0 ++ 61 ∷ f.1

abbrev pub fields_text : List (Bytes × Bytes) → Bytes
fields_text [] = []
fields_text (f ∷ fs) = field_text f ++ 0 ∷ fields_text fs

-- What the kernel sends.
abbrev pub datagram : Bytes → List (Bytes × Bytes) → Bytes
datagram header fs = header ++ 0 ∷ fields_text fs

-- The value of the last field with a key, or the default.
abbrev pub value_of : Bytes → List (Bytes × Bytes) → Bytes → Bytes
value_of key [] d = d
value_of key (f ∷ fs) d = value_of key fs (if key === f.0 then f.1 else d)

abbrev pub is_hid_field : Bytes × Bytes → Bool
is_hid_field f = not (text "SUBSYSTEM" === f.0) || f.1 === text "hid"

abbrev pub event_of : List (Bytes × Bytes) → Uevent → Uevent
event_of fs u = record {
  action = value_of (text "ACTION") fs u.action;
  devpath = value_of (text "DEVPATH") fs u.devpath;
  hid_id_env = value_of (text "HID_ID") fs u.hid_id_env;
}

abbrev pub no_event : Uevent
no_event = record { action = []; devpath = []; hid_id_env = [] }

c_strings-line : (t rest : Bytes) → IsValue t → c_strings (t ++ 0 ∷ rest) ≡ t ∷ c_strings rest
unfolding c_strings
c_strings-line [] rest h = refl
c_strings-line (c ∷ t) rest h = rw (ne→== c 0 h.0, c_strings-line t rest h.1) refl

key-IsValue : (k : Bytes) → IsKey k → IsValue k
key-IsValue [] h = tt
key-IsValue (c ∷ k) h = (h.0.0, key-IsValue k h.1)

field_text-IsValue : (f : Bytes × Bytes) → IsField f → IsValue (field_text f)
field_text-IsValue (k, v) h =
    All-append (λ (c : ℕ). c ≢ 0) k (61 ∷ v) (key-IsValue k h.0) ((λ p. absurd (omega arith)), h.1)

c_strings-fields :
    (fs : List (Bytes × Bytes)) → All IsField fs → c_strings (fields_text fs) ≡ map field_text fs
unfolding c_strings
c_strings-fields [] h = refl
c_strings-fields (f ∷ fs) h =
    c_strings-line (field_text f) (fields_text fs) (field_text-IsValue f h.0)
    ∙ ap (λ ts. field_text f ∷ ts) (c_strings-fields fs h.1)

-- A prefix that ends in `=` is the key.
starts_with-field :
    (p k v : Bytes)
    → all (λ c. not (c == 61)) p ≡ true
    → IsKey k
    → starts_with (p ++ 61 ∷ []) (k ++ 61 ∷ v) ≡ (p === k)
unfolding starts_with ◌===◌
starts_with-field [] [] v h i = refl
starts_with-field [] (c ∷ k) v h i = rw (ne→== 61 c (λ e. i.0.1 (sym e))) refl
starts_with-field (q ∷ p) [] v h i = ground arith
starts_with-field (q ∷ p) (c ∷ k) v h i =
    ap (λ b. (q == c) && b) (starts_with-field p k v (ground arith) i.1)

-- What a token does, told by its key.
abbrev by_field : Bytes × Bytes → Uevent → Option Uevent
by_field f u = if is_hid_field f then some (event_of (f ∷ []) u) else none

at_key :
    (key k : Bytes) (v : Bytes) (u : Uevent)
    → (key === k) ≡ true
    → on_token (field_text (key, v)) u ≡ by_field (key, v) u
    → on_token (field_text (k, v)) u ≡ by_field (k, v) u
at_key key k v u e =
    subst (λ w. on_token (field_text (w, v)) u ≡ by_field (w, v) u) ((===_iff key k).0 e)

module _ (k v : Bytes) (u : Uevent) (h : IsKey k) where
  prefix_false :
      (p : Bytes)
      → all (λ c. not (c == 61)) p ≡ true
      → (p === k) ≡ false
      → starts_with (p ++ 61 ∷ []) (field_text (k, v)) ≡ false
  prefix_false p q e = starts_with-field p k v q h ∙ e

  other_key :
      (text "ACTION" === k) ≡ false
      → (text "SUBSYSTEM" === k) ≡ false
      → (text "DEVPATH" === k) ≡ false
      → (text "HID_ID" === k) ≡ false
      → starts_with (text "ACTION=") (field_text (k, v)) ≡ false
      → starts_with (text "SUBSYSTEM=") (field_text (k, v)) ≡ false
      → starts_with (text "DEVPATH=") (field_text (k, v)) ≡ false
      → starts_with (text "HID_ID=") (field_text (k, v)) ≡ false
      → on_token (field_text (k, v)) u ≡ by_field (k, v) u
  unfolding on_token
  other_key a s d i a' s' d' i' = rw (a', s', d', i', a, s, d, i, on_token) refl

on_token-field :
    (k v : Bytes) (u : Uevent) → IsKey k → on_token (field_text (k, v)) u ≡ by_field (k, v) u
unfolding on_token starts_with ◌===◌
on_token-field k v u h = elim (Bool-cases (text "ACTION" === k)) [
  | inl e ↦ at_key (text "ACTION") k v u e refl
  | inr a ↦ elim (Bool-cases (text "SUBSYSTEM" === k)) [
    | inl e ↦
        at_key (text "SUBSYSTEM") k v u e
          (elim (Bool-cases (v === text "hid")) [ inl e ↦ rw e refl | inr e ↦ rw e refl ])
    | inr s ↦ elim (Bool-cases (text "DEVPATH" === k)) [
      | inl e ↦ at_key (text "DEVPATH") k v u e refl
      | inr d ↦ elim (Bool-cases (text "HID_ID" === k)) [
        | inl e ↦ at_key (text "HID_ID") k v u e refl
        | inr i ↦
            other_key k v u h a s d i (prefix_false k v u h (text "ACTION") refl a)
              (prefix_false k v u h (text "SUBSYSTEM") refl s)
              (prefix_false k v u h (text "DEVPATH") refl d)
              (prefix_false k v u h (text "HID_ID") refl i)
      ]
    ]
  ]
]

field_text-some : (f : Bytes × Bytes) → empty (field_text f) ≡ false
field_text-some ([], v) = refl
field_text-some (c ∷ k, v) = refl

on_tokens-fields :
    (fs : List (Bytes × Bytes)) (u : Uevent)
    → All IsField fs
    → on_tokens (map field_text fs) u ≡ (if all is_hid_field fs then some (event_of fs u) else none)
unfolding on_tokens
on_tokens-fields [] u h = refl
on_tokens-fields (f ∷ fs) u h =
    rw (on_token-field f.0 f.1 u h.0.0, on_tokens)
      (elim (Bool-cases (is_hid_field f)) [
        | inl e ↦ rw (e, field_text-some f, on_tokens-fields fs (event_of (f ∷ []) u) h.1) refl
        | inr e ↦ rw e refl
      ])

judged-if :
    (b : Bool) (u : Uevent) → judged (if b then some u else none) ≡ (if b then accept u else none)
unfolding judged
judged-if true u = refl
judged-if false u = refl

-- An event whose fields come in any order is read by their keys, the last one counting: it is
-- refused where a field names another subsystem, and else judged by its action, path and id alone.
pub event_round_trip :
    (header : Bytes) (fs : List (Bytes × Bytes))
    → IsValue header
    → All IsField fs
    → hid_uevent_monitor_read (datagram header fs)
      ≡ (if all is_hid_field fs then accept (event_of fs no_event) else none)
unfolding hid_uevent_monitor_read without_header judged
event_round_trip header fs h i =
    ap (λ ts. judged (on_tokens (without_header ts) no_event))
      (c_strings-line header (fields_text fs) h ∙ ap (λ ts. header ∷ ts) (c_strings-fields fs i))
    ∙ ap judged (on_tokens-fields fs no_event i)
    ∙ judged-if (all is_hid_field fs) (event_of fs no_event)
