-- ===== src/Pacer/Rate.antt =====
-- No two Bluetooth reports are closer than the interval.
use ds4_translator.Base.{ℕ, ◌+◌, ◌≤◌, ◌≡◌, List, [], ◌∷◌, arith}
use ds4_translator.Pacer.{
  Write, Pacer, initial, min_interval, Action, send, discard, halt, flush, step, Schedule, after,
  run,
}

-- Each write is at least the interval after the one before it (the newest stands first).
abbrev pub Spaced : List Write → Type 0
Spaced [] = Unit
Spaced (w ∷ []) = Unit
Spaced (w ∷ (v ∷ rest)) = (v.time + min_interval ≤ w.time) × Spaced (v ∷ rest)

-- The newest write, if there is one, was at the remembered time.
abbrev Latest : ℕ → List Write → Type 0
Latest t [] = Unit
Latest t (w ∷ rest) = w.time ≡ t

record IsPaced (clock : ℕ) (p : Pacer) : Type 0 where
  spaced : Spaced p.written
  latest : Latest p.last_write p.written
  past : p.last_write ≤ clock

Spaced-cons :
    (ws : List Write) (w : Write) (t : ℕ)
    → Spaced ws
    → Latest t ws
    → t + min_interval ≤ w.time
    → Spaced (w ∷ ws)
Spaced-cons [] w t s l h = tt
Spaced-cons (v ∷ ws) w t s l h = (omega arith, s)

step-IsPaced :
    (clock wait : ℕ) (a : Action) {p : Pacer}
    → IsPaced clock p
    → IsPaced (after (clock + wait) a) (step (clock + wait) a p)
unfolding step
step-IsPaced clock wait (send fd bt state) {p} i =
    let now = clock + wait in
    ground (
      arith,
      Spaced-cons p.written (record { time = now; fd = fd; state = state }) p.last_write i.spaced
          i.latest,
    )
step-IsPaced clock wait discard i = ground arith
step-IsPaced clock wait halt i = ground arith
step-IsPaced clock wait (flush later) {p} i =
    let now = clock + wait + later in
    ground (
      arith,
      Spaced-cons p.written (record { time = now; fd = p.pending_fd; state = p.pending_state })
          p.last_write i.spaced i.latest,
    )

run-IsPaced :
    (clock : ℕ) (sched : Schedule) {p : Pacer}
    → IsPaced clock p
    → Spaced (run clock sched p).written
unfolding run
run-IsPaced clock [] i = i.spaced
run-IsPaced clock ((wait, a) ∷ rest) i =
    run-IsPaced (after (clock + wait) a) rest (step-IsPaced clock wait a i)

-- From the start of the daemon, whatever is sent, discarded or flushed, and whenever: any two
-- consecutive reports written to a Bluetooth controller are at least 25 ms apart.
pub run-Spaced : (clock : ℕ) (sched : Schedule) → Spaced (run clock sched initial).written
run-Spaced clock sched = run-IsPaced clock sched start
  where
    start : IsPaced clock initial
    start = record { spaced = tt; latest = tt; past = omega arith }
