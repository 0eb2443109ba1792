-- ===== src/Output/Errors.antt =====
-- src/main.cpp, `log_physical_write_error`: failed writes to the controller are logged once in 5 s.
use ds4_translator.Base.{
  ℕ, ◌+◌, ◌-◌, ◌*◌, ◌^◌, ◌≤◌, ◌<◌, false, not, ◌&&◌, ◌≡◌, refl, Option, none, some, List, [], ◌∷◌,
  All, length, ltb, ◌==◌, if◌then◌else◌, arith, Bool-cases, inl, inr,
}

-- `now - last_logged`, in nanoseconds of the steady clock; 0 stands for nothing logged yet.
pub record ErrorLog : Type 0 where
  pub last_logged : ℕ
  pub suppressed : ℕ

-- `kQuietPeriod`, 5 s
abbrev pub quiet_period : ℕ
quiet_period = 5 * 10 ^ 9

-- The log after a failure, and the line it writes, told by the failures that it says it suppressed.
unfoldable pub log_physical_write_error : ℕ → ErrorLog → ErrorLog × Option ℕ
log_physical_write_error now log =
    if not (log.last_logged == 0) && ltb (now - log.last_logged) quiet_period
    then (record log { suppressed = log.suppressed + 1 }, none)
    else (record { last_logged = now; suppressed = 0 }, some log.suppressed)

-- The lines written for failures at these times, the oldest first: when, and how many failures it
-- says it suppressed.
pub record Line : Type 0 where
  pub time : ℕ
  pub count : ℕ

abbrev add_line : ℕ → Option ℕ → List Line → List Line
add_line now none lines = lines
add_line now (some n) lines = record { time = now; count = n } ∷ lines

unfoldable pub log_all : List ℕ → ErrorLog → List Line × ErrorLog
unfolding log_physical_write_error
log_all [] log = ([], log)
log_all (now ∷ times) log =
    let logged = log_physical_write_error now log in
    let rest = log_all times logged.0 in (add_line now logged.1 rest.0, rest.1)

-- The failures that the lines account for: their own and the suppressed ones.
abbrev pub told : List Line → ℕ
told [] = 0
told (line ∷ lines) = (1 + line.count) + told lines

-- Each line stands a quiet period or more behind the one before it, the first one behind `last`.
abbrev pub Apart : ℕ → List Line → Type 0
Apart last [] = Unit
Apart last (line ∷ lines) = (last + quiet_period ≤ line.time) × Apart line.time lines

abbrev pub ApartFirst : List Line → Type 0
ApartFirst [] = Unit
ApartFirst (line ∷ lines) = Apart line.time lines

-- What one failure does to the count.
log_all-told :
    (times : List ℕ) (log : ErrorLog)
    → told (log_all times log).0 + (log_all times log).1.suppressed ≡ length times + log.suppressed
unfolding log_all log_physical_write_error
log_all-told [] log = refl
log_all-told (now ∷ times) log =
    elim (Bool-cases (not (log.last_logged == 0) && ltb (now - log.last_logged) quiet_period)) [
      | inl e ↦
          rw (e, log_physical_write_error)
            (omega (arith, log_all-told times (record log { suppressed = log.suppressed + 1 })))
      | inr e ↦
          rw (e, log_physical_write_error)
            (omega (arith, log_all-told times (record { last_logged = now; suppressed = 0 })))
    ]

quiet_over :
    (last now : ℕ)
    → 0 < last
    → (not (last == 0) && ltb (now - last) quiet_period) ≡ false
    → last + quiet_period ≤ now
quiet_over last now h e = ground arith

log_all-Apart :
    (times : List ℕ) (log : ErrorLog)
    → All (λ (now : ℕ). 0 < now) times
    → 0 < log.last_logged
    → Apart log.last_logged (log_all times log).0
unfolding log_all log_physical_write_error
log_all-Apart [] log p h = tt
log_all-Apart (now ∷ times) log p h =
    elim (Bool-cases (not (log.last_logged == 0) && ltb (now - log.last_logged) quiet_period)) [
      | inl e ↦
          rw (e, log_physical_write_error)
            (log_all-Apart times (record log { suppressed = log.suppressed + 1 }) p.1 h)
      | inr e ↦
          rw (e, log_physical_write_error)
            (
              quiet_over log.last_logged now h e,
              log_all-Apart times (record { last_logged = now; suppressed = 0 }) p.1 p.0,
            )
    ]

-- Failed writes at any times behind the start of the clock: the first is logged, two lines stand five
-- seconds apart at least, and every failure is told, as a line, by the number in a later line, or by
-- the number that waits for the next one.
pub log_physical_write_error_lem :
    (now : ℕ) (times : List ℕ)
    → All (λ (now : ℕ). 0 < now) (now ∷ times)
    → (let (lines, log) = log_all (now ∷ times) (record { last_logged = 0; suppressed = 0 }) in
        ApartFirst lines × (told lines + log.suppressed ≡ length (now ∷ times)))
unfolding log_all log_physical_write_error
log_physical_write_error_lem now times p = (
  log_all-Apart times (record { last_logged = now; suppressed = 0 }) p.1 p.0,
  omega (arith, log_all-told (now ∷ times) (record { last_logged = 0; suppressed = 0 })),
)
