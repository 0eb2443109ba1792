-- ===== src/Output/Laws.antt =====
-- What the `UHID_OUTPUT` case guarantees, for every report that a host may send.
use ds4_translator.Base.{
  ℕ, Bool, true, false, not, ◌&&◌, [], ◌∷◌, ◌++◌, Bytes, ◌≡◌, ◌≢◌, sym, ap, ap₂, ◌∙◌, arith, has,
  leb, ◌==◌, if◌then◌else◌,
}
use ds4_translator.Emulation.{ControllerType, is_ds4, ds4, dualsense, none as none_type, hidden}
use ds4_translator.Report.Layout.{byte_at}
use ds4_translator.Output.{OutputState, Decoded, decode_output, same_motors, same_led}
use ds4_translator.Output.Handler.{OutputGlobals, apply_output, start, uhid_output}

-- Decoding marks an update wherever it changes the output.
decode_output_update :
    (type : ControllerType) (size : ℕ) (report : Bytes) (s : OutputGlobals)
    → (decode_output type size report (start s)).update ≡ false
    → (decode_output type size report (start s)).output ≡ s.cur
unfolding decode_output
decode_output_update type size report s h = ground arith

same_iff : (a b : OutputState) → (same_motors a b && same_led a b) ≡ true → a ≡ b
unfolding same_motors same_led
same_iff a b h = ground arith

same_refl : (a : OutputState) → (same_motors a a && same_led a a) ≡ true
unfolding same_motors same_led
same_refl a = ground arith

-- The case after the decoding, for a decoding that marks its changes.
module _ (connected : Bool) (d : Decoded) (s : OutputGlobals)
    (marked : d.update ≡ false → d.output ≡ s.cur) where
  apply_output-cur : (apply_output connected d s).cur ≡ d.output
  unfolding apply_output
  apply_output-cur = ground (arith, same_iff d.output s.cur)

  apply_output_same :
      d.output ≡ s.cur
      → apply_output connected d s ≡ record s { suppress_next_led_update = d.suppress }
  unfolding apply_output
  apply_output_same e =
      let same : (same_motors d.output s.cur && same_led d.output s.cur) ≡ true =
        rw e (same_refl s.cur) in
      ground arith

  apply_output_changed :
      d.output ≢ s.cur
      → (apply_output connected d s).sent
        ≡ (if connected then s.sent ++ (d.output ∷ []) else s.sent)
  unfolding apply_output
  apply_output_changed ne = ground (arith, same_iff d.output s.cur)

pub suppress-uhid_output :
    (type : ControllerType) (connected : Bool) (size : ℕ) (report : Bytes) (s : OutputGlobals)
    → (uhid_output type connected size report s).suppress_next_led_update
      ≡ (decode_output type size report (start s)).suppress
unfolding uhid_output
suppress-uhid_output type connected size report s = ground arith

-- All that the comparison with the remembered state decides.
uhid_output_lem :
    (type : ControllerType) (connected : Bool) (size : ℕ) (report : Bytes) (s : OutputGlobals)
    → let s' = uhid_output type connected size report s in
      let new = (decode_output type size report (start s)).output in
      (s'.cur ≡ new)
      × (new ≡ s.cur → (s'.events ≡ s.events) × (s'.sent ≡ s.sent))
      × (new ≢ s.cur → s'.sent ≡ (if connected then s.sent ++ (new ∷ []) else s.sent))
unfolding uhid_output
uhid_output_lem type connected size report s =
    let d = decode_output type size report (start s) in
    let marked = decode_output_update type size report s in
    (
      apply_output-cur connected d s marked,
      (λ e.
          let same = apply_output_same connected d s marked e in
          (ap (λ (t : OutputGlobals). t.events) same, ap (λ (t : OutputGlobals). t.sent) same)),
      apply_output_changed connected d s marked,
    )

-- A report that decodes to other motors or another colour than the remembered ones: the decoded
-- state is remembered, and sent exactly once, to a connected physical controller, or to none.
pub uhid_output_change :
    (type : ControllerType) (connected : Bool) (size : ℕ) (report : Bytes) (s : OutputGlobals)
    → (decode_output type size report (start s)).output ≢ s.cur
    → let s' = uhid_output type connected size report s in
      let new = (decode_output type size report (start s)).output in
      (s'.cur ≡ new) × (s'.sent ≡ (if connected then s.sent ++ (new ∷ []) else s.sent))
uhid_output_change type connected size report s h =
    let laws = uhid_output_lem type connected size report s in (laws.0, laws.2 h)

-- A report that decodes to the remembered motors and colour: nothing is logged, nothing is sent and
-- the remembered state stays.
pub uhid_output_same :
    (type : ControllerType) (connected : Bool) (size : ℕ) (report : Bytes) (s : OutputGlobals)
    → (decode_output type size report (start s)).output ≡ s.cur
    → let s' = uhid_output type connected size report s in
      (s'.cur ≡ s.cur) × (s'.events ≡ s.events) × (s'.sent ≡ s.sent)
uhid_output_same type connected size report s h =
    let laws = uhid_output_lem type connected size report s in
    (laws.0 ∙ h, (laws.1 h).0, (laws.1 h).1)

-- Does the emulated type take a light bar colour from the report?
pub sets_led : ControllerType → ℕ → Bytes → Bool
sets_led type size report =
    if is_ds4 type
    then (if byte_at report 0 == 0x05
        then leb 9 size && has (byte_at report 1) 0x02
        else byte_at report 0 == 0x11 && leb 11 size && has (byte_at report 3) 0x02)
    else byte_at report 0 == 0x02 && leb 48 size && has (byte_at report 2) 0x04

abbrev LedKept : ControllerType → ℕ → Bytes → OutputState → Decoded → Type 0
LedKept type size report o d =
    (d.output.r ≡ o.r)
    × (d.output.g ≡ o.g)
    × (d.output.b ≡ o.b)
    × (d.suppress ≡ not (sets_led type size report))

decode_output_suppress :
    (type : ControllerType) (size : ℕ) (report : Bytes) (o : OutputState)
    → LedKept type size report o
        (decode_output type size report (record { output = o; update = false; suppress = true }))
unfolding decode_output sets_led
decode_output_suppress ds4 size report o = ground arith
decode_output_suppress dualsense size report o = ground arith
decode_output_suppress none_type size report o = ground arith
decode_output_suppress hidden size report o = ground arith

-- While the kernel's default colour is still awaited, no report moves the light bar, and the flag
-- stays up exactly until a report that sets the light bar has come: that one is swallowed.
pub uhid_output_suppress :
    (type : ControllerType) (connected : Bool) (size : ℕ) (report : Bytes) (s : OutputGlobals)
    → s.suppress_next_led_update ≡ true
    → let s' = uhid_output type connected size report s in
      (s'.cur.r ≡ s.cur.r)
      × (s'.cur.g ≡ s.cur.g)
      × (s'.cur.b ≡ s.cur.b)
      × (s'.suppress_next_led_update ≡ not (sets_led type size report))
uhid_output_suppress type connected size report s h =
    let kept = decode_output_suppress type size report s.cur in
    let cur = (uhid_output_lem type connected size report s).0 in
    let flag = suppress-uhid_output type connected size report s in rw (cur, flag, h) kept

decode_output_again :
    (type : ControllerType) (size : ℕ) (report : Bytes) (o : OutputState)
    → let d =
        decode_output type size report (record { output = o; update = false; suppress = false }) in
      let e =
        decode_output type size report
          (record { output = d.output; update = false; suppress = false }) in
      (e.output ≡ d.output) × (d.suppress ≡ false) × (e.suppress ≡ false)
unfolding decode_output
decode_output_again ds4 size report o = ground arith
decode_output_again dualsense size report o = ground arith
decode_output_again none_type size report o = ground arith
decode_output_again hidden size report o = ground arith

decode_from : ControllerType → ℕ → Bytes → OutputState → Bool → Decoded
decode_from type size report o f =
    decode_output type size report (record { output = o; update = false; suppress = f })

settled :
    (type : ControllerType) (connected : Bool) (size : ℕ) (report : Bytes) (s : OutputGlobals)
    → (decode_output type size report (start s)).output ≡ s.cur
    → (decode_output type size report (start s)).suppress ≡ s.suppress_next_led_update
    → uhid_output type connected size report s ≡ s
unfolding uhid_output
settled type connected size report s cur flag =
    let d = decode_output type size report (start s) in
    apply_output_same connected d s (decode_output_update type size report s) cur
    ∙ (λ i. record s { suppress_next_led_update = flag i })

-- Once the default colour has been swallowed, a report that the host repeats has no further effect.
pub uhid_output_repeat :
    (type : ControllerType) (connected : Bool) (size : ℕ) (report : Bytes) (s : OutputGlobals)
    → s.suppress_next_led_update ≡ false
    → let s' = uhid_output type connected size report s in
      uhid_output type connected size report s' ≡ s'
unfolding decode_from
uhid_output_repeat type connected size report s h =
    let s' = uhid_output type connected size report s in
    let again = decode_output_again type size report s.cur in
    let first : decode_output type size report (start s)
        ≡ decode_from type size report s.cur false =
      ap (decode_from type size report s.cur) h in
    let cur : s'.cur ≡ (decode_from type size report s.cur false).output =
      (uhid_output_lem type connected size report s).0 ∙ ap (λ (d : Decoded). d.output) first in
    let flag : s'.suppress_next_led_update ≡ false =
      suppress-uhid_output type connected size report s
      ∙ ap (λ (d : Decoded). d.suppress) first
      ∙ again.1 in
    let second : decode_output type size report (start s')
        ≡ decode_from type size report (decode_from type size report s.cur false).output false =
      ap₂ (decode_from type size report) cur flag in
    settled type connected size report s'
      (ap (λ (d : Decoded). d.output) second ∙ again.0 ∙ sym cur)
      (ap (λ (d : Decoded). d.suppress) second ∙ again.2 ∙ sym flag)
