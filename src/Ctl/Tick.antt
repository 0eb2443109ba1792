-- ===== src/Ctl/Tick.antt =====
-- From the report to the terminal: what one tick of the daemon sends is what the live monitor shows.
use ds4_translator.Base.{
  ℕ, ◌-◌, ◌<◌, ◌^◌, true, not, ◌||◌, ◌≡◌, refl, sym, ap, ◌∙◌, [], ◌++◌, Bytes, append-nil, if-both,
  arith, leb,
}
use mathlib.Core.Path.{subst}
use ds4_translator.Base.Text.{text}
use ds4_translator.Broadcast.{
  Watch, output_line, active_line, virtual_line, vdev_exists, current_output, same_output, changes,
  single_payload, state_line,
}
use ds4_translator.Broadcast.Timing.{
  Measurement, TimingWindow, window_line, line_of_window, timing_window, microseconds, mean,
}
use ds4_translator.Broadcast.Shown.{reading, state_line_read}
use ds4_translator.Client.Lines.{TimingStats}
use ds4_translator.Client.Lines.Numbers.{FitsTiming, format_timing}
use ds4_translator.Client.State.RoundTrip.{IsSource}
use ds4_translator.Client.Stream.{drained, receive}
use ds4_translator.Ctl.Monitor.{TestState, on_data}
use ds4_translator.Ctl.Shows.{shown, state_shown, output_shown, timing_shown}
use ds4_translator.Daemon.{Daemon}
use ds4_translator.Emulation.{controller_type_emulates}
use ds4_translator.Output
use ds4_translator.Report.{FitsCommon, FitsTouch}
use ds4_translator.Report.Emit.{Emitter}

-- The widths of the remembered output and of a window.
pub record FitsCur (s : Output.OutputState) : Type 0 where
  pub r : s.r < 256
  pub g : s.g < 256
  pub b : s.b < 256
  pub left : s.motor_left < 256
  pub right : s.motor_right < 256

pub record FitsWindow (w : TimingWindow) : Type 0 where
  pub reports : w.reports < 2 ^ 32
  pub interval_min : w.interval_min_us < 2 ^ 32
  pub interval_max : w.interval_max_us < 2 ^ 32
  pub latency_max : w.latency_max_us < 2 ^ 32

-- The state shown stays, and all that has arrived is worked off.
record Keeps (st : TestState) (r : TestState × Bytes) : Type 0 where
  same_have : r.0.have_state ≡ st.have_state
  same_input : r.0.input ≡ st.input
  all_read : r.1 ≡ []

abbrev stats_of : ℕ → TimingWindow → TimingStats
stats_of elapsed_us w = record {
  reports = w.reports;
  window_us = elapsed_us;
  interval_mean_us = mean w.interval_sum_us w.reports;
  interval_min_us = w.interval_min_us;
  interval_max_us = w.interval_max_us;
  latency_mean_us = mean w.latency_sum_us w.latency_samples;
  latency_max_us = w.latency_max_us;
}

mean-lt : (sum count : ℕ) → mean sum count < 2 ^ 32
mean-lt sum count = ground arith

module _ (stamp : Bytes) where
  nothing_left : (st : TestState) → Keeps st (shown stamp [] st)
  unfolding shown drained
  nothing_left st = record { same_have = refl; same_input = refl; all_read = refl }

  line_kept :
      (t : TimingStats) (st : TestState)
      → FitsTiming t
      → Keeps st (shown stamp (format_timing t) st)
  line_kept t st f =
      let whole =
        ap (λ u. shown stamp u st) (sym (append-nil (format_timing t)))
        ∙ timing_shown stamp [] t st f in
      rw whole (still st (nothing_left (record st { timing = t; have_timing = true })))
    where
      still :
          {t : TimingStats} (st : TestState) {r : TestState × Bytes}
          → Keeps (record st { timing = t; have_timing = true }) r
          → Keeps st r
      still st k = record {
        same_have = k.same_have;
        same_input = k.same_input;
        all_read = k.all_read;
      }

  window_kept :
      (now : ℕ) (w : Watch) (st : TestState)
      → FitsWindow w.timing.window
      → microseconds w.timing.window_start now < 2 ^ 64
      → Keeps st (shown stamp (window_line now w.timing).1 st)
  unfolding window_line line_of_window
  window_kept now w st f elapsed =
      let us = microseconds w.timing.window_start now in
      if-both (λ (p : Measurement × Bytes). Keeps st (shown stamp p.1 st))
        (leb timing_window (now - w.timing.window_start))
        (line_kept (stats_of us w.timing.window) st (
          ground (
            arith,
            f.reports,
            f.interval_min,
            f.interval_max,
            f.latency_max,
            mean-lt w.timing.window.interval_sum_us w.timing.window.reports,
            mean-lt w.timing.window.latency_sum_us w.timing.window.latency_samples,
          )))
        (nothing_left st)

  output_kept :
      (cur : Output.OutputState) (w : Watch) (rest : Bytes) (st : TestState)
      → FitsCur cur
      → Keeps st (shown stamp rest st)
      → Keeps st (shown stamp ((output_line cur w).1 ++ rest) st)
  unfolding output_line
  output_kept cur w rest st f k =
      if-both (λ (p : Watch × Bytes). Keeps st (shown stamp (p.1 ++ rest) st))
        (not w.broadcast_output_valid || not (same_output (current_output cur) w.broadcast_output))
        (rw
          (output_shown stamp rest (current_output cur) st
            (ground (arith, f.r, f.g, f.b, f.left, f.right)))
          k)
        k

is_virtual : IsSource (text "VIRTUAL")
is_virtual = record { one_word = ground arith; some_byte = omega arith; at_most_15 = omega arith }

module _ (d : Daemon) (e : Emitter) (emulated : controller_type_emulates d.target_type ≡ true)
    (exists : vdev_exists d ≡ true) (valid : e.last_virtual_valid ≡ true) where
  active_state :
      (w : Watch)
      → active_line d e w ≡ state_line (text "VIRTUAL") e.last_virtual_common e.last_virtual_touch
  unfolding active_line virtual_line
  active_state w = rw (emulated, exists, valid) refl

  tick_kept :
      (stamp : Bytes) (now : ℕ) (w : Watch) (st : TestState)
      → FitsCommon e.last_virtual_common
      → FitsTouch e.last_virtual_touch
      → FitsCur d.cur
      → FitsWindow w.timing.window
      → microseconds w.timing.window_start now < 2 ^ 64
      → Keeps
          (record st {
            have_state = true;
            input = reading (text "VIRTUAL") e.last_virtual_common e.last_virtual_touch;
          })
          (shown stamp (single_payload now d e w) st)
  unfolding single_payload changes
  tick_kept stamp now w st fc ft cur win elapsed =
      let (line, written, one, read) =
        state_line_read (text "VIRTUAL") e.last_virtual_common e.last_virtual_touch is_virtual fc
          ft in
      let seen = record st {
        have_state = true;
        input = reading (text "VIRTUAL") e.last_virtual_common e.last_virtual_touch;
      } in
      let path =
        ap (λ a. shown stamp (a ++ changes now d w) st) (active_state w)
        ∙ state_shown stamp (state_line (text "VIRTUAL") e.last_virtual_common e.last_virtual_touch)
            line (changes now d w)
            (reading (text "VIRTUAL") e.last_virtual_common e.last_virtual_touch) st written one
            read in
      subst (Keeps seen) (sym path) (
        output_kept stamp d.cur w (window_line now w.timing).1 seen cur
          (window_kept stamp now w seen win elapsed))

-- While a type is emulated whose virtual device exists and has been fed a report, one tick of the
-- daemon, sent to a plain subscriber and received whole by the live monitor of `ds4-ctl test`, leaves
-- the monitor with a state to show, which is the reading of that report, and with an empty buffer;
-- light bar, motors and timing may be in the same payload or not.
pub tick_shown :
    (stamp : Bytes) (now : ℕ) (d : Daemon) (e : Emitter) (w : Watch) (st : TestState)
    → controller_type_emulates d.target_type ≡ true
    → vdev_exists d ≡ true
    → e.last_virtual_valid ≡ true
    → FitsCommon e.last_virtual_common
    → FitsTouch e.last_virtual_touch
    → FitsCur d.cur
    → FitsWindow w.timing.window
    → microseconds w.timing.window_start now < 2 ^ 64
    → let after = on_data stamp (single_payload now d e w) (st, []) in
      (after.0.have_state ≡ true)
      × (after.0.input ≡ reading (text "VIRTUAL") e.last_virtual_common e.last_virtual_touch)
      × (after.1 ≡ [])
unfolding on_data receive drained shown
tick_shown stamp now d e w st emulated exists valid fc ft cur win elapsed =
    let k = tick_kept d e emulated exists valid stamp now w st fc ft cur win elapsed in
    (k.same_have, k.same_input, k.all_read)
