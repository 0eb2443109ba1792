-- ===== src/HidId/Uevent.antt =====
-- src/hid-unbind-detect.cpp, `hid_uevent_monitor_read`: one event of the kernel about a device on
-- the HID bus, a header and fields `KEY=VALUE` that end in a zero byte each.
use ds4_translator.Base.{
  ℕ, Bool, true, false, not, ◌&&◌, ◌||◌, Option, none, some, List, [], ◌∷◌, Bytes, drop,
  if◌then◌else◌, ◌==◌,
}
use ds4_translator.Base.Text.{text, starts_with, contains, empty, ◌===◌}
use ds4_translator.HidId.Nodes.{dummy_hcd, virtual_uhid}

unfoldable pub hid_id_env_matches_ds4 : Bytes → Bool
hid_id_env_matches_ds4 val =
    if not (starts_with (text "0003:") val) && not (starts_with (text "0005:") val)
    then false
    else if not (contains (text "0000054C") val) && not (contains (text "0000054c") val)
    then false
    else contains (text "000005C4") val
      || contains (text "000005c4") val
      || contains (text "000009CC") val
      || contains (text "000009cc") val

-- The texts that the loop reads at `buf + pos` while `pos < n`, with a zero byte behind the buffer.
abbrev pub prepend : ℕ → List Bytes → List Bytes
prepend c [] = (c ∷ []) ∷ []
prepend c (token ∷ tokens) = (c ∷ token) ∷ tokens

unfoldable pub c_strings : Bytes → List Bytes
c_strings [] = []
c_strings (c ∷ s) = let rest = c_strings s in if c == 0 then [] ∷ rest else prepend c rest

pub record Uevent : Type 0 where
  pub action : Bytes
  pub devpath : Bytes
  pub hid_id_env : Bytes

-- One token, `none` where the function returns false at once.
unfoldable pub on_token : Bytes → Uevent → Option Uevent
on_token token u =
    if starts_with (text "ACTION=") token
    then some (record u { action = drop 7 token })
    else if starts_with (text "SUBSYSTEM=") token
    then (if not (drop 10 token === text "hid") then none else some u)
    else if starts_with (text "DEVPATH=") token
    then some (record u { devpath = drop 8 token })
    else if starts_with (text "HID_ID=") token
    then some (record u { hid_id_env = drop 7 token })
    else some u

unfoldable pub on_tokens : List Bytes → Uevent → Option Uevent
unfolding on_token
on_tokens [] u = some u
on_tokens (token ∷ tokens) u = elim (on_token token u) [
  | none ↦ none
  | some v ↦ elim (empty token) [ true ↦ some v | false ↦ on_tokens tokens v ]
]

-- The text behind the last byte `c`, `none` for `npos`.
unfoldable pub behind_last : ℕ → Bytes → Option Bytes
behind_last c [] = none
behind_last c (x ∷ s) = elim (behind_last c s) [
  | some tail ↦ some tail
  | none ↦ if x == c then some s else none
]

abbrev pub or_all : Bytes → Option Bytes → Bytes
or_all s none = s
or_all s (some tail) = tail

unfoldable pub accept : Uevent → Option Bytes
unfolding hid_id_env_matches_ds4 behind_last
accept u =
    if not (u.action === text "add") || empty u.devpath || empty u.hid_id_env
    then none
    else if not (hid_id_env_matches_ds4 u.hid_id_env)
    then none
    else if contains dummy_hcd u.devpath
    then none
    else if starts_with (text "0003:") u.hid_id_env && contains virtual_uhid u.devpath
    then none
    else let out_hid_id = or_all u.devpath (behind_last 47 u.devpath) in
      if empty out_hid_id then none else some out_hid_id

-- The first token is the header, which is passed over.
unfoldable pub without_header : List Bytes → List Bytes
without_header [] = []
without_header (header ∷ tokens) = tokens

unfoldable pub judged : Option Uevent → Option Bytes
judged none = none
judged (some u) = accept u

-- What `recv` has put into the buffer, empty for an error, gives the id of the device that was
-- added, or `none` for false.
unfoldable pub hid_uevent_monitor_read : Bytes → Option Bytes
unfolding c_strings without_header on_tokens judged
hid_uevent_monitor_read received = judged (
    on_tokens (without_header (c_strings received))
      (record { action = []; devpath = []; hid_id_env = [] }))
