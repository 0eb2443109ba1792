-- ===== src/HidBpf/Pump.antt =====
-- src/hid-bpf-transport.cpp, the thread between the daemon and the controller (`pump_thread_fn`), and
-- the log of writes that failed (`log_write_error`).
use ds4_translator.Base.{
  ℕ, ◌+◌, ◌≤◌, ◌<◌, Bool, true, false, ◌≡◌, refl, ap, ◌∙◌, ◌⊎◌, Option, none, some, List, [], ◌∷◌,
  ◌++◌, Bytes, All, length, leb, if◌then◌else◌, arith, Bool-cases, inl, inr,
}
use ds4_translator.Base.Text.{empty}
use ds4_translator.Output.Errors.{ErrorLog, log_physical_write_error}

-- The same text as the log of the daemon.
unfoldable pub log_write_error : ℕ → ErrorLog → ErrorLog × Option ℕ
unfolding log_physical_write_error
log_write_error now log = log_physical_write_error now log

-- What `ring_buffer__poll` does: it hands over reports, is broken off by a signal, or fails.
pub data Polled : Type 0 where
  reports : List Bytes → Polled
  interrupted failed : Polled

-- What a round meets: the reads of the socket until nothing is left (empty for an error or the end),
-- whether the write to the controller works, the time, the ring buffer, and whether the path in sysfs
-- is still there.
pub record Round : Type 0 where
  pub reads : List Bytes
  pub write_works : Bool
  pub now : ℕ
  pub polled : Polled
  pub exists : Bool

-- The thread, what it has sent to the controller and handed to the daemon, the newest last, and the
-- lines of the log.
pub record Thread : Type 0 where
  pub running : Bool
  pub liveness_check_counter : ℕ
  pub sent : List Bytes
  pub delivered : List Bytes
  pub log : ErrorLog
  pub lines : List ℕ

-- The last report that was read before an end.
unfoldable pub newest : List Bytes → Bytes → Bytes
newest [] report = report
newest (r ∷ rs) report = let rest = newest rs r in if empty r then report else rest

abbrev pub add_line : Option ℕ → List ℕ → List ℕ
add_line none lines = lines
add_line (some n) lines = n ∷ lines

unfoldable pub forward : Round → Thread → Thread
unfolding newest log_write_error
forward round t =
    let report = newest round.reads [] in
    let logged = log_write_error round.now t.log in
    if empty report
    then t
    else if round.write_works
    then record t { sent = t.sent ++ (report ∷ []) }
    else record t { log = logged.0; lines = add_line logged.1 t.lines }

-- The path is looked at once in 125 rounds.
unfoldable pub check_liveness : Bool → Thread → Thread
check_liveness exists t =
    if leb 125 (t.liveness_check_counter + 1)
    then record t { liveness_check_counter = 0; running = exists }
    else record t { liveness_check_counter = t.liveness_check_counter + 1 }

unfoldable pub receive_reports : Round → Thread → Thread
unfolding check_liveness
receive_reports round t = elim round.polled [
  | reports rs ↦ check_liveness round.exists (record t { delivered = t.delivered ++ rs })
  | interrupted ↦ check_liveness round.exists t
  | failed ↦ record t { running = false }
]

unfoldable pub pump_round : Round → Thread → Thread
unfolding forward receive_reports
pump_round round t = if t.running then receive_reports round (forward round t) else t

unfoldable pub pump : List Round → Thread → Thread
unfolding pump_round
pump [] t = t
pump (round ∷ rounds) t = pump rounds (pump_round round t)

-- What a round does to the liveness check, whatever else it does.
forward-keeps :
    (round : Round) (t : Thread)
    → ((forward round t).running ≡ t.running)
      × ((forward round t).liveness_check_counter ≡ t.liveness_check_counter)
unfolding forward
forward-keeps round t = ground arith

-- A round that finds the path gone ends the thread, or brings the next look nearer.
abbrev Nearer : ℕ → Thread → Type 0
Nearer counter t' =
    (t'.running ≡ false) ⊎ ((t'.liveness_check_counter ≡ counter + 1) × (counter + 1 < 125))

check_liveness-Nearer : (t : Thread) → Nearer t.liveness_check_counter (check_liveness false t)
unfolding check_liveness
check_liveness-Nearer t = elim (Bool-cases (leb 125 (t.liveness_check_counter + 1))) [
  | inl e ↦ rw e (inl refl)
  | inr e ↦ rw e (inr (refl, ground arith))
]

receive_reports-Nearer :
    (round : Round) (t : Thread)
    → round.exists ≡ false
    → Nearer t.liveness_check_counter (receive_reports round t)
unfolding receive_reports
receive_reports-Nearer round t gone = at round.polled
  where
    at :
        (polled : Polled)
        → Nearer t.liveness_check_counter (receive_reports (record round { polled = polled }) t)
    at (reports rs) = rw gone (check_liveness-Nearer (record t { delivered = t.delivered ++ rs }))
    at interrupted = rw gone (check_liveness-Nearer t)
    at failed = inl refl

pump_round-stopped : (round : Round) (t : Thread) → t.running ≡ false → pump_round round t ≡ t
unfolding pump_round
pump_round-stopped round t h = ground arith

pump_round-running :
    (round : Round) (t : Thread)
    → t.running ≡ true
    → pump_round round t ≡ receive_reports round (forward round t)
unfolding pump_round
pump_round-running round t h = ground arith

pump-stopped :
    (rounds : List Round) (t : Thread) → t.running ≡ false → (pump rounds t).running ≡ false
unfolding pump
pump-stopped [] t h = h
pump-stopped (round ∷ rounds) t h =
    ap (λ u. (pump rounds u).running) (pump_round-stopped round t h) ∙ pump-stopped rounds t h

-- Once the path in sysfs is gone, the thread ends within 125 rounds, whatever arrives meanwhile and
-- though the ring buffer reports no error.
pub pump_ends :
    (rounds : List Round) (t : Thread)
    → All (λ round. round.exists ≡ false) rounds
    → t.liveness_check_counter < 125
    → 125 ≤ length rounds + t.liveness_check_counter
    → (pump rounds t).running ≡ false
unfolding pump
pump_ends [] t gone small enough = absurd (omega arith)
pump_ends (round ∷ rounds) t gone small enough = elim (Bool-cases t.running) [
  | inr e ↦ pump-stopped (round ∷ rounds) t e
  | inl e ↦
      let after = receive_reports round (forward round t) in
      let same = (forward-keeps round t).1 in
      ap (λ u. (pump rounds u).running) (pump_round-running round t e)
      ∙ elim (receive_reports-Nearer round (forward round t) gone.0) [
        | inl stopped ↦ pump-stopped rounds after stopped
        | inr (next, below) ↦ pump_ends rounds after gone.1 (omega arith) (omega arith)
      ]
]
