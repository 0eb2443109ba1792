-- ===== src/Pacer/Newest.antt =====
-- The newest state wins: what was asked for last is written, now or by the flush thread, and nothing
-- older comes after it.
use ds4_translator.Base.{
  ℕ, ◌+◌, ◌≤◌, true, false, ◌≡◌, ◌⊎◌, refl, Option, none, some, List, [], ◌∷◌, arith, if◌then◌else◌,
}
use ds4_translator.Output.{OutputState}
use ds4_translator.Pacer.{
  Fd, Write, Pacer, initial, min_interval, Action, send, discard, halt, flush, step, Schedule, run,
  flush_round, discard_pending,
}

-- The Bluetooth report asked for last, unless it was taken back since.
abbrev pub demand : Option (Fd × OutputState) → Schedule → Option (Fd × OutputState)
demand d [] = d
demand d ((wait, send fd bt state) ∷ rest) = demand (if bt then some (fd, state) else d) rest
demand d ((wait, discard) ∷ rest) = demand none rest
demand d ((wait, halt) ∷ rest) = demand none rest
demand d ((wait, flush later) ∷ rest) = demand d rest

-- The newest Bluetooth write is of this state to this descriptor.
abbrev pub NewestIs : Fd → OutputState → List Write → Type 0
NewestIs fd state [] = ⊥
NewestIs fd state (w ∷ rest) = (w.fd ≡ fd) × (w.state ≡ state)

-- The demand is met, or waits in the queue with a thread to write it.
abbrev pub IsServed : Option (Fd × OutputState) → Pacer → Type 0
IsServed none p = p.pending ≡ false
IsServed (some (fd, state)) p =
    ((p.pending ≡ false) × NewestIs fd state p.written)
    ⊎ ((p.pending ≡ true)
        × (p.pending_fd ≡ fd)
        × (p.pending_state ≡ state)
        × ((p.thread ≡ true) ⊎ (p.stopping ≡ true)))

abbrev next_demand : Option (Fd × OutputState) → Action → Option (Fd × OutputState)
next_demand d (send fd bt state) = if bt then some (fd, state) else d
next_demand d discard = none
next_demand d halt = none
next_demand d (flush later) = d

step-IsServed :
    (now : ℕ) (a : Action) (d : Option (Fd × OutputState)) (p : Pacer)
    → IsServed d p
    → IsServed (next_demand d a) (step now a p)
unfolding step
step-IsServed now (send fd true state) none p i = ground arith
step-IsServed now (send fd true state) (some (f, s)) p i = ground arith
step-IsServed now (send fd false state) none p i = i
step-IsServed now (send fd false state) (some (f, s)) p i = i
step-IsServed now discard d p i = refl
step-IsServed now halt d p i = refl
step-IsServed now (flush later) none p i = ground arith
step-IsServed now (flush later) (some (fd, state)) p i = ground arith

run-IsServed :
    (clock : ℕ) (sched : Schedule) (d : Option (Fd × OutputState)) (p : Pacer)
    → IsServed d p
    → IsServed (demand d sched) (run clock sched p)
unfolding run
run-IsServed clock [] d p i = i
run-IsServed clock ((wait, send fd bt state) ∷ rest) d p i =
    run-IsServed (clock + wait) rest _ _ (step-IsServed (clock + wait) (send fd bt state) d p i)
run-IsServed clock ((wait, discard) ∷ rest) d p i =
    run-IsServed (clock + wait) rest _ _ (step-IsServed (clock + wait) discard d p i)
run-IsServed clock ((wait, halt) ∷ rest) d p i =
    run-IsServed (clock + wait) rest _ _ (step-IsServed (clock + wait) halt d p i)
run-IsServed clock ((wait, flush later) ∷ rest) d p i =
    run-IsServed (clock + wait + later) rest _ _ (step-IsServed (clock + wait) (flush later) d p i)

-- A pending report goes out at the first round of the flush thread that starts late enough.
flush_served :
    (now later : ℕ) (fd : Fd) (state : OutputState) (p : Pacer)
    → IsServed (some (fd, state)) p
    → p.stopping ≡ false
    → p.last_write + min_interval ≤ now
    → ((flush_round now later p).pending ≡ false)
      × NewestIs fd state (flush_round now later p).written
unfolding flush_round
flush_served now later fd state p i s h = ground arith

-- After any sequence of sends, flushes and discards since the start, let the Bluetooth report asked
-- for last (and not discarded since) be `state` for `fd`, and the pacer not be stopped. Then the next
-- round of the flush thread that starts 25 ms or more after the last write leaves nothing pending,
-- and the newest write is exactly that report: a throttled "rumble off" is never lost or overtaken.
pub newest_written :
    (clock : ℕ) (sched : Schedule) (now later : ℕ) (fd : Fd) (state : OutputState)
    → demand none sched ≡ some (fd, state)
    → (run clock sched initial).stopping ≡ false
    → (run clock sched initial).last_write + min_interval ≤ now
    → let p = flush_round now later (run clock sched initial) in
      (p.pending ≡ false) × NewestIs fd state p.written
newest_written clock sched now later fd state h s t =
    let served = run-IsServed clock sched none initial refl in
    flush_served now later fd state (run clock sched initial) (rw h at served) s t

-- No Bluetooth report is asked for.
abbrev pub IsQuiet : Schedule → Type 0
IsQuiet [] = Unit
IsQuiet ((wait, send fd bt state) ∷ rest) = (bt ≡ false) × IsQuiet rest
IsQuiet ((wait, discard) ∷ rest) = IsQuiet rest
IsQuiet ((wait, halt) ∷ rest) = IsQuiet rest
IsQuiet ((wait, flush later) ∷ rest) = IsQuiet rest

quiet_run :
    (clock : ℕ) (sched : Schedule) (p : Pacer)
    → IsQuiet sched
    → p.pending ≡ false
    → (run clock sched p).written ≡ p.written
unfolding run step
quiet_run clock [] p q h = refl
quiet_run clock ((wait, send fd true state) ∷ rest) p q h = cc
quiet_run clock ((wait, send fd false state) ∷ rest) p q h = quiet_run (clock + wait) rest _ q.1 h
quiet_run clock ((wait, discard) ∷ rest) p q h = quiet_run (clock + wait) rest _ q refl
quiet_run clock ((wait, halt) ∷ rest) p q h = quiet_run (clock + wait) rest _ q refl
quiet_run clock ((wait, flush later) ∷ rest) p q h =
    ground (arith, quiet_run (clock + wait + later) rest p q h)

-- Once the queue is discarded, as it is before a connection's descriptor is closed, nothing is
-- written to a Bluetooth controller until a new report is asked for, whatever the flush thread does.
pub discard-quiet :
    (clock : ℕ) (sched : Schedule) (p : Pacer)
    → IsQuiet sched
    → (run clock ((0, discard) ∷ sched) p).written ≡ p.written
unfolding run step
discard-quiet clock sched p q = quiet_run (clock + 0) sched (discard_pending p) q refl
