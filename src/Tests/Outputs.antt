-- ===== src/Tests/Outputs.antt =====
-- The theorems at concrete inputs: the reports to the physical controller, and their pace.
use ds4_translator.Base.{
  ◌+◌, ◌*◌, ◌^◌, ◌≤◌, true, false, ◌≡◌, ◌≢◌, refl, ap, some, [], ◌∷◌, ◌++◌, Bytes, arith, replicate,
  length,
}
use ds4_translator.Emulation.{ds4, dualsense}
use ds4_translator.Output.{
  OutputState, physical_output_report, decode_output, take_motors, take_led, quiet_left,
}
use ds4_translator.Output.Handler.{OutputGlobals, start, uhid_output}
use ds4_translator.Output.Laws.{uhid_output_change}
use ds4_translator.Output.RoundTrip.{FitsOutput, physical_output_report_round_trip}
use ds4_translator.Pacer.{
  initial, min_interval, send, flush, Schedule, run, step, flush_round, send_physical_output_report,
  submit, write_locked, ensure_thread_locked,
}
use ds4_translator.Pacer.Rate.{Spaced, run-Spaced}
use ds4_translator.Pacer.Newest.{NewestIs, newest_written}

abbrev rumbling : OutputState
rumbling = record { motor_left = 160; motor_right = 10; r = 255; g = 128; b = 0 }

abbrev at_rest : OutputState
at_rest = record { motor_left = 0; motor_right = 0; r = 0; g = 0; b = 255 }

rumbling-FitsOutput : FitsOutput rumbling
rumbling-FitsOutput = record {
  motor_left_fits = omega arith;
  motor_right_fits = omega arith;
  r_fits = omega arith;
  g_fits = omega arith;
  b_fits = omega arith;
}

physical_output_report_round_trip_example :
    decode_output ds4
      (length (physical_output_report true rumbling))
      (physical_output_report true rumbling)
      (record { output = at_rest; update = false; suppress = true })
    ≡ record {
      output = record rumbling { r = at_rest.r; g = at_rest.g; b = at_rest.b };
      update = true;
      suppress = false;
    }
physical_output_report_round_trip_example =
    physical_output_report_round_trip true true rumbling at_rest

-- The daemon at rest, before and after the kernel's default colour.
abbrev fresh : OutputGlobals
fresh = record { cur = at_rest; suppress_next_led_update = true; events = []; sent = [] }

abbrev settled : OutputGlobals
settled = record { cur = at_rest; suppress_next_led_update = false; events = []; sent = [] }

-- A report of 48 bytes from a DualSense host: motors 10 and 160, colour 255, 128, 0.
abbrev report : Bytes
report = (0x02 ∷ 0x01 ∷ 0x04 ∷ 10 ∷ 160 ∷ []) ++ replicate 40 0 ++ (255 ∷ 128 ∷ 0 ∷ [])

-- A report that asks for nothing.
abbrev blank : Bytes
blank = 0x02 ∷ replicate 47 0

decoded_report : (decode_output dualsense 48 report (start settled)).output ≡ rumbling
unfolding decode_output take_motors take_led quiet_left
decoded_report = refl

decoded_blank : (decode_output dualsense 48 blank (start settled)).output ≡ at_rest
unfolding decode_output take_motors take_led quiet_left
decoded_blank = refl

report_differs : (decode_output dualsense 48 report (start settled)).output ≢ at_rest
unfolding decode_output take_motors take_led quiet_left
report_differs e = absurd (omega (arith, ap (λ (o : OutputState). o.motor_left) e))

uhid_output_change_example :
    ((uhid_output dualsense true 48 report settled).cur
      ≡ (decode_output dualsense 48 report (start settled)).output)
    × ((uhid_output dualsense true 48 report settled).sent
        ≡ (decode_output dualsense 48 report (start settled)).output ∷ [])
uhid_output_change_example = uhid_output_change dualsense true 48 report settled report_differs

-- A report at once, one that must wait, and its flush.
abbrev burst : Schedule
burst = (0, send (some 5) true rumbling) ∷ (1000, send (some 5) true at_rest) ∷ []

run-Spaced_example : Spaced (run (10 ^ 9) (burst ++ ((25000000, flush 10) ∷ [])) initial).written
run-Spaced_example = run-Spaced (10 ^ 9) (burst ++ ((25000000, flush 10) ∷ []))

burst-running : (run (10 ^ 9) burst initial).stopping ≡ false
unfolding run step send_physical_output_report submit write_locked ensure_thread_locked
burst-running = refl

burst-waited : (run (10 ^ 9) burst initial).last_write + min_interval ≤ 2 * 10 ^ 9
unfolding run step send_physical_output_report submit write_locked ensure_thread_locked
burst-waited = omega arith

newest_written_example :
    ((flush_round (2 * 10 ^ 9) (2 * 10 ^ 9) (run (10 ^ 9) burst initial)).pending ≡ false)
    × NewestIs
        (some 5)
        at_rest
        (flush_round (2 * 10 ^ 9) (2 * 10 ^ 9) (run (10 ^ 9) burst initial)).written
newest_written_example =
    newest_written (10 ^ 9) burst (2 * 10 ^ 9) (2 * 10 ^ 9) (some 5) at_rest refl burst-running
      burst-waited
