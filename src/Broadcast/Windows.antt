-- ===== src/Broadcast/Windows.antt =====
-- The numbers of a timing line are those of the gaps measured.
use ds4_translator.Base.{
  ℕ, ◌*◌, ◌≤◌, ◌<◌, Bool, false, ◌||◌, ◌==◌, ◌≡◌, ◌⊎◌, List, [], ◌∷◌, ltb, if◌then◌else◌,
}
use ds4_translator.Broadcast.Timing.{
  TimingWindow, fresh_window, Measurement, note_report, note_latency, mean, window_line,
}

-- What a pass of the loop does to the measurement.
pub data Happening : Type 0 where
  report : Bool → ℕ → Happening
  written : Bool → ℕ → ℕ → Happening
  tick : ℕ → Happening

unfoldable pub happen : Happening → Measurement → Measurement
unfolding note_report note_latency window_line
happen (report watched now) t = note_report watched now t
happen (written watched from now) t = note_latency watched from now t
happen (tick now) t = (window_line now t).0

unfoldable pub happen_all : List Happening → Measurement → Measurement
unfolding happen
happen_all [] t = t
happen_all (h ∷ hs) t = happen_all hs (happen h t)

-- At most `k` gaps and `k` latencies are in the window, and the sums did not wrap.
record Sound (k : ℕ) (w : TimingWindow) : Type 0 where
  few_reports : w.reports ≤ k
  few_samples : w.latency_samples ≤ k
  unmeasured_zero : w.reports ≡ 0 → (w.interval_min_us ≡ 0) × (w.interval_max_us ≡ 0)
  low : w.interval_min_us * w.reports ≤ w.interval_sum_us
  high : w.interval_sum_us ≤ w.interval_max_us * w.reports
  narrow : w.interval_max_us < 4294967296
  latency_high : w.latency_sum_us ≤ w.latency_max_us * w.latency_samples
  latency_narrow : w.latency_max_us < 4294967296

-- The new least and greatest gap, as `add_gap` computes them.
abbrev lower : ℕ → ℕ → ℕ → ℕ
lower n g old = if n == 0 || ltb g old then g else old

abbrev upper : ℕ → ℕ → ℕ
upper old g = if ltb old g then g else old

abbrev WindowSound : ℕ → Measurement → Type 0
WindowSound k t = Sound k t.window

-- The measurement before anything has happened.
abbrev pub unmeasured : ℕ → Measurement
unmeasured now = record {
  window = fresh_window;
  window_start = now;
  last_report_time = 0;
  have_last_report_time = false;
}

-- What the line says of a window.
abbrev pub Bounds : TimingWindow → Type 0
Bounds w =
    (mean w.latency_sum_us w.latency_samples ≤ w.latency_max_us)
    × (((w.reports ≡ 0)
          × (mean w.interval_sum_us w.reports ≡ 0)
          × (w.interval_min_us ≡ 0)
          × (w.interval_max_us ≡ 0))
        ⊎ ((0 < w.reports)
            × (w.interval_min_us ≤ mean w.interval_sum_us w.reports)
            × (mean w.interval_sum_us w.reports ≤ w.interval_max_us)))
