-- ===== src/FunctionFs/Outputs.antt =====
-- src/functionfs-backend.c, `out_loop`: what a rumble and light bar report of the host does, and that
-- it does what the uhid device makes of the same report.
use ds4_translator.Base.{
  ℕ, Bool, true, false, not, ◌&&◌, ◌≡◌, ◌≢◌, refl, [], ◌∷◌, ◌++◌, Bytes, has, leb, ◌==◌,
  if◌then◌else◌, Bool-cases, inl, inr, ne→==, arith,
}
use ds4_translator.Emulation.{ControllerType, is_ds4}
use ds4_translator.Report.Layout.{byte_at}
use ds4_translator.Output.{
  Decoded, take_motors, take_led, quiet_left, decode_output, same_motors, same_led,
}
use ds4_translator.Output.Handler.{OutputGlobals, apply_output, start, uhid_output}
use ds4_translator.FunctionFs.{FunctionFsDevice}
use ds4_translator.FunctionFs.Replies.{target_of}

-- What a read of the endpoint gives: an error, or the number of bytes, with the buffer after it.
pub data OutRead : Type 0 where
  failed : OutRead
  got : ℕ → Bytes → OutRead

-- The reports that are understood; there is none in the Bluetooth format.
unfoldable pub decode_ffs : ℕ → ℕ → Bytes → Decoded → Decoded
unfolding take_motors take_led quiet_left
decode_ffs target_type rv report d =
    if target_type == 1
    then (if byte_at report 0 == 0x05 && leb 9 rv
        then (let flags = byte_at report 1 in
            take_led (has flags 0x02) report 6 (take_motors (has flags 0x01) report 4 d))
        else d)
    else (if byte_at report 0 == 0x02 && leb 48 rv
        then (let vf0 = byte_at report 1 in
            let vf1 = byte_at report 2 in
            let motors = take_motors (has vf0 0x01) report 3 d in
            take_led (has vf1 0x04) report 45
              (if has vf0 0x01 then quiet_left (has vf0 0x02) motors else motors))
        else d)

-- The globals are written, and the report sent on, only while a physical controller is connected;
-- nothing is logged.
unfoldable pub apply_ffs : Bool → Decoded → OutputGlobals → OutputGlobals
apply_ffs connected d s =
    if (d.update && connected && not (same_motors d.output s.cur && same_led d.output s.cur))
    then record {
      cur = d.output;
      suppress_next_led_update = d.suppress;
      events = s.events;
      sent = s.sent ++ (d.output ∷ []);
    }
    else record s { suppress_next_led_update = d.suppress }

-- One round of `out_loop` while the device is open.
unfoldable pub out_round : Bool → OutRead → FunctionFsDevice → OutputGlobals → OutputGlobals
unfolding decode_ffs apply_ffs
out_round connected failed dev s = s
out_round connected (got rv report) dev s =
    if not dev.configured
    then s
    else if rv == 0
    then s
    else apply_ffs connected (decode_ffs dev.target_type rv report (start s)) s

-- What both backends share of the globals: all but the log.
abbrev pub Same : OutputGlobals → OutputGlobals → Type 0
Same a b =
    (a.cur ≡ b.cur) × (a.suppress_next_led_update ≡ b.suppress_next_led_update) × (a.sent ≡ b.sent)

decode_agrees :
    (type : ControllerType) (rv : ℕ) (report : Bytes) (d : Decoded)
    → (byte_at report 0 == 0x11) ≡ false
    → decode_ffs (target_of type) rv report d ≡ decode_output type rv report d
unfolding decode_ffs decode_output
decode_agrees type rv report d h = elim (Bool-cases (is_ds4 type)) [
  | inl e ↦ rw (e, h) refl
  | inr e ↦ rw e refl
]

apply_agrees : (d : Decoded) (s : OutputGlobals) → Same (apply_ffs true d s) (apply_output true d s)
unfolding apply_ffs apply_output
apply_agrees d s = elim (Bool-cases d.update) [
  | inl u ↦ elim (Bool-cases (same_motors d.output s.cur && same_led d.output s.cur)) [
    | inl e ↦ rw (u, e) (refl, refl, refl)
    | inr e ↦ rw (u, e) (refl, refl, refl)
  ]
  | inr u ↦ rw u (refl, refl, refl)
]

-- While a physical controller is connected and the host has configured the gadget, a report of the
-- host that is not in the Bluetooth format leaves the remembered output, the suppression and the
-- reports sent on as the uhid device leaves them, for both types and every length.
pub out_round_agrees :
    (type : ControllerType) (dev : FunctionFsDevice) (rv : ℕ) (report : Bytes) (s : OutputGlobals)
    → dev.configured ≡ true
    → dev.target_type ≡ target_of type
    → rv ≢ 0
    → byte_at report 0 ≢ 0x11
    → Same (out_round true (got rv report) dev s) (uhid_output type true rv report s)
unfolding out_round uhid_output
out_round_agrees type dev rv report s c t n b =
    rw
      (c, t, ne→== rv 0 n, decode_agrees type rv report (start s) (ne→== (byte_at report 0) 0x11 b))
      (apply_agrees (decode_output type rv report (start s)) s)

-- With no physical controller a report may end the suppression, and changes nothing else.
pub out_round_disconnected :
    (dev : FunctionFsDevice) (r : OutRead) (s : OutputGlobals)
    → (let after = out_round false r dev s in
        (after.cur ≡ s.cur) × (after.sent ≡ s.sent) × (after.events ≡ s.events))
unfolding out_round apply_ffs
out_round_disconnected dev failed s = (refl, refl, refl)
out_round_disconnected dev (got rv report) s = ground arith
