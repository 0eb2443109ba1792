-- ===== src/Pacer.antt =====
-- src/main.cpp, `BtOutputPacer` and `send_physical_output_report`: rumble and light bar reports to a
-- Bluetooth controller, at most one in 25 ms. Every method runs under the mutex, so an execution is
-- a sequence of whole steps, with the clock's value at each.
pub mod Rate
pub mod Newest
use ds4_translator.Base.{
  ℕ, ◌+◌, ◌-◌, ◌*◌, ◌^◌, Bool, true, false, not, ◌&&◌, ◌||◌, Option, none, some, List, [], ◌∷◌, ltb,
  leb, if◌then◌else◌,
}
use ds4_translator.Output.{OutputState}

-- A file descriptor; `none` is -1.
abbrev pub Fd : Type 0
Fd = Option ℕ

-- A report written to the controller, with the value of the clock in nanoseconds.
pub record Write : Type 0 where
  pub time : ℕ
  pub fd : Fd
  pub state : OutputState

-- The fields, `thread_.joinable()`, and the writes so far, the newest first: `written` over
-- Bluetooth and `direct` over USB. `last_write_{}` is time 0 of the steady clock.
pub record Pacer : Type 0 where
  pub stopping : Bool
  pub pending : Bool
  pub pending_fd : Fd
  pub pending_state : OutputState
  pub last_write : ℕ
  pub thread : Bool
  pub written : List Write
  pub direct : List Write

abbrev pub zero_state : OutputState
zero_state = record { motor_left = 0; motor_right = 0; r = 0; g = 0; b = 0 }

abbrev pub initial : Pacer
initial = record {
  stopping = false;
  pending = false;
  pending_fd = none;
  pending_state = zero_state;
  last_write = 0;
  thread = false;
  written = [];
  direct = [];
}

-- `kMinInterval`, 25 ms in nanoseconds
abbrev pub min_interval : ℕ
min_interval = 25 * 10 ^ 6

unfoldable pub write_locked : ℕ → Fd → OutputState → Pacer → Pacer
write_locked now fd state p = record p {
  written = record { time = now; fd = fd; state = state } ∷ p.written;
}

unfoldable pub ensure_thread_locked : Pacer → Pacer
ensure_thread_locked p = if p.thread || p.stopping then p else record p { thread = true }

-- A clock that stands behind `last_write` would give a negative difference, which is below the
-- interval, as the truncated one is.
unfoldable pub submit : ℕ → Fd → OutputState → Pacer → Pacer
unfolding write_locked ensure_thread_locked
submit now fd state p =
    if not p.pending && leb min_interval (now - p.last_write)
    then write_locked now fd state (record p { last_write = now })
    else ensure_thread_locked (record p { pending = true; pending_fd = fd; pending_state = state })

unfoldable pub discard_pending : Pacer → Pacer
discard_pending p = record p { pending = false; pending_fd = none }

-- The flush thread ends at its next look at `stopping`, and is joined.
unfoldable pub stop : Pacer → Pacer
stop p = record p { pending = false; stopping = true; thread = false }

-- One round of `flush_loop`. It reads the clock twice; where it would wait, it changes nothing.
unfoldable pub flush_round : ℕ → ℕ → Pacer → Pacer
unfolding write_locked
flush_round now write_time p =
    if not p.thread || p.stopping
    then p
    else if not p.pending
    then p
    else if ltb now (p.last_write + min_interval)
    then p
    else write_locked write_time p.pending_fd p.pending_state
        (record p { pending = false; last_write = write_time })

unfoldable pub send_physical_output_report : ℕ → Fd → Bool → OutputState → Pacer → Pacer
unfolding submit
send_physical_output_report now fd is_bluetooth state p =
    if not is_bluetooth
    then record p { direct = record { time = now; fd = fd; state = state } ∷ p.direct }
    else submit now fd state p

pub data Action : Type 0 where
  send : Fd → Bool → OutputState → Action
  discard : Action
  halt : Action
  -- the flush thread's round, with how much later it reads the clock again
  flush : ℕ → Action

unfoldable pub step : ℕ → Action → Pacer → Pacer
unfolding send_physical_output_report discard_pending stop flush_round
step now (send fd bt state) p = send_physical_output_report now fd bt state p
step now discard p = discard_pending p
step now halt p = stop p
step now (flush later) p = flush_round now (now + later) p

-- A schedule: what happens, and how long after the step before it.
abbrev pub Schedule : Type 0
Schedule = List (ℕ × Action)

-- The clock after a step: a flush ends later than it begins.
abbrev pub after : ℕ → Action → ℕ
after now (flush later) = now + later
after now (send fd bt state) = now
after now discard = now
after now halt = now

unfoldable pub run : ℕ → Schedule → Pacer → Pacer
unfolding step
run clock [] p = p
run clock ((wait, a) ∷ rest) p = run (after (clock + wait) a) rest (step (clock + wait) a p)
