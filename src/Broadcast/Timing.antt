-- ===== src/Broadcast/Timing.antt =====
-- src/main.cpp, `TimingWindow`: the gaps between physical reports and the time spent on them, over
-- one second, with the clock in nanoseconds.
use ds4_translator.Base.{
  ℕ, ◌+◌, ◌/◌, ◌%◌, ◌-◌, ◌^◌, Bool, true, false, ◌||◌, ◌==◌, [], Bytes, ltb, leb, u32,
  if◌then◌else◌,
}
use ds4_translator.Client.Lines.{format_timing_line}

pub record TimingWindow : Type 0 where
  pub reports : ℕ
  pub interval_sum_us : ℕ
  pub interval_min_us : ℕ
  pub interval_max_us : ℕ
  pub latency_sum_us : ℕ
  pub latency_max_us : ℕ
  pub latency_samples : ℕ

-- `TimingWindow()`
abbrev pub fresh_window : TimingWindow
fresh_window = record {
  reports = 0;
  interval_sum_us = 0;
  interval_min_us = 0;
  interval_max_us = 0;
  latency_sum_us = 0;
  latency_max_us = 0;
  latency_samples = 0;
}

-- `timing`, `timing_window_start`, `last_report_time`, `have_last_report_time`
pub record Measurement : Type 0 where
  pub window : TimingWindow
  pub window_start : ℕ
  pub last_report_time : ℕ
  pub have_last_report_time : Bool

-- Whole microseconds between two times.
abbrev pub microseconds : ℕ → ℕ → ℕ
microseconds from to = (to - from) / 1000

abbrev u64 : ℕ → ℕ
u64 n = n % 2 ^ 64

-- The effect of one gap.
unfoldable pub add_gap : ℕ → TimingWindow → TimingWindow
add_gap gap_us w = record w {
  interval_min_us =
      if w.reports == 0 || ltb gap_us w.interval_min_us then gap_us else w.interval_min_us;
  interval_max_us = if ltb w.interval_max_us gap_us then gap_us else w.interval_max_us;
  interval_sum_us = u64 (w.interval_sum_us + gap_us);
  reports = u32 (w.reports + 1);
}

-- A physical report that arrives at `now`; `watched` is `g_has_test_subscribers`.
unfoldable pub note_report : Bool → ℕ → Measurement → Measurement
unfolding add_gap
note_report watched now t =
    if watched
    then record {
      window =
          if t.have_last_report_time
          then add_gap (u32 (microseconds t.last_report_time now)) t.window
          else t.window;
      window_start = t.window_start;
      last_report_time = now;
      have_last_report_time = true;
    }
    else record t { have_last_report_time = false }

-- The time from `report_time` until the emulated report is written.
unfoldable pub add_latency : ℕ → TimingWindow → TimingWindow
add_latency spent_us w = record w {
  latency_sum_us = u64 (w.latency_sum_us + spent_us);
  latency_max_us = if ltb w.latency_max_us spent_us then spent_us else w.latency_max_us;
  latency_samples = u32 (w.latency_samples + 1);
}

unfoldable pub note_latency : Bool → ℕ → ℕ → Measurement → Measurement
unfolding add_latency
note_latency watched report_time now t =
    if watched
    then record t { window = add_latency (u32 (microseconds report_time now)) t.window }
    else t

-- `TIMING_WINDOW`, one second.
abbrev pub timing_window : ℕ
timing_window = 10 ^ 9

-- The mean of a sum, 0 where there is nothing to divide by.
abbrev pub mean : ℕ → ℕ → ℕ
mean sum count = if ltb 0 count then u32 (sum / count) else 0

unfoldable pub line_of_window : ℕ → TimingWindow → Bytes
unfolding format_timing_line
line_of_window elapsed_us w =
    format_timing_line w.reports elapsed_us (mean w.interval_sum_us w.reports) w.interval_min_us
      w.interval_max_us (mean w.latency_sum_us w.latency_samples) w.latency_max_us

-- Once a second the line of the window, which then starts anew.
unfoldable pub window_line : ℕ → Measurement → Measurement × Bytes
unfolding line_of_window
window_line now t =
    if leb timing_window (now - t.window_start)
    then (
      record t { window = fresh_window; window_start = now },
      line_of_window (microseconds t.window_start now) t.window,
    )
    else (t, [])
