-- ===== src/Broadcast/Sends.antt =====
-- Who is sent what: a tick reaches every subscriber whose descriptor accepts a write and drops the
-- others, the event log keeps its bound, and light bar and motors are sent on change only.
use ds4_translator.Base.{
  ℕ, ◌-◌, ◌≤◌, Bool, true, not, ◌||◌, ◌≡◌, refl, sym, ap, ap₂, ◌∙◌, false, if-both, List, [], ◌∷◌,
  ◌++◌, Bytes, length, length-append, drop, arith, if◌then◌else◌, Bool-cases, inl, inr,
}
use ds4_translator.Broadcast.{
  TestSubscriber, Watch, Delivery, deliver, broadcast_to, push_event, log_event, output_line,
  current_output, test_broadcast_state, same_output, subscribe, some_left, payload, both_lines,
  virtual_line, physical_line, active_line, changes, single_payload,
}
use ds4_translator.Output.{OutputState}
use ds4_translator.Daemon.{Daemon}
use ds4_translator.Emulation.{controller_type_emulates}
use ds4_translator.Report.Emit.{Emitter}

drop_one : (A : Type 0) (xs : List A) → length (drop 1 xs) ≤ length xs - 1
drop_one A [] = omega arith
drop_one A (x ∷ xs) = omega arith

push_event-bound :
    (line : Bytes) (log : List Bytes) → length log ≤ 20 → length (push_event line log) ≤ 20
unfolding push_event
push_event-bound line log h =
    ground (arith, length-append log (line ∷ []), drop_one Bytes (log ++ (line ∷ [])))

-- The subscribers whose descriptor accepts a write, and the others.
unfoldable pub accepting : (ℕ → Bool) → List TestSubscriber → List TestSubscriber
accepting accepts [] = []
accepting accepts (t ∷ ts) =
    let rest = accepting accepts ts in if accepts t.fd then t ∷ rest else rest

unfoldable pub refusing : (ℕ → Bool) → List TestSubscriber → List ℕ
refusing accepts [] = []
refusing accepts (t ∷ ts) =
    let rest = refusing accepts ts in if accepts t.fd then rest else t.fd ∷ rest

unfoldable pub addressed : (TestSubscriber → Bytes) → List TestSubscriber → List (ℕ × Bytes)
addressed payload [] = []
addressed payload (t ∷ ts) = (t.fd, payload t) ∷ addressed payload ts

-- A round of writes in terms of who accepts.
abbrev delivered : (ℕ → Bool) → (TestSubscriber → Bytes) → List TestSubscriber → Delivery
delivered accepts payload ts = record {
  kept = accepting accepts ts;
  sent = addressed payload (accepting accepts ts);
  closed = refusing accepts ts;
}

deliver_lem :
    (accepts : ℕ → Bool) (payload : TestSubscriber → Bytes) (ts : List TestSubscriber)
    → deliver accepts payload ts ≡ delivered accepts payload ts
unfolding deliver accepting refusing addressed
deliver_lem accepts payload [] = refl
deliver_lem accepts payload (t ∷ ts) = elim (Bool-cases (accepts t.fd)) [
  | inl e ↦ rw (e, deliver_lem accepts payload ts) refl
  | inr e ↦ rw (e, deliver_lem accepts payload ts) refl
]

-- What happens to the stream: a tick, a line of the event log, a new subscriber.
pub data Action : Type 0 where
  tick : (ℕ → Bool) → ℕ → Daemon → Emitter → Action
  event : (ℕ → Bool) → Bytes → Action
  join : (ℕ → Bool) → ℕ → Bool → Daemon → Action

unfoldable pub act : Action → Watch → Watch
unfolding test_broadcast_state log_event subscribe
act (tick accepts now d e) w = (test_broadcast_state accepts now d e w).0
act (event accepts line) w = (log_event accepts line w).0
act (join works fd all d) w = (subscribe works fd all d w).0

unfoldable pub act_all : List Action → Watch → Watch
unfolding act
act_all [] w = w
act_all (a ∷ rest) w = act_all rest (act a w)

-- The flag says whether anyone watches, and the log holds at most 20 lines.
pub record WatchCoherent (w : Watch) : Type 0 where
  pub flag_agrees : w.has_test_subscribers ≡ some_left w.test_subscribers
  pub log_bounded : length w.test_event_log ≤ 20

output_line-keeps :
    (cur : OutputState) (w : Watch) → ((output_line cur w).0.test_event_log ≡ w.test_event_log)
unfolding output_line
output_line-keeps cur w =
    if-both (λ (p : Watch × Bytes). p.0.test_event_log ≡ w.test_event_log)
      (not w.broadcast_output_valid || not (same_output (current_output cur) w.broadcast_output))
      refl refl

some_left-append :
    (ts : List TestSubscriber) (t : TestSubscriber) → some_left (ts ++ (t ∷ [])) ≡ true
some_left-append [] t = refl
some_left-append (x ∷ ts) t = refl

broadcast_to-Coherent :
    (accepts : ℕ → Bool) (now : ℕ) (d : Daemon) (e : Emitter) (w : Watch) (ts : List TestSubscriber)
    → WatchCoherent w
    → WatchCoherent (broadcast_to accepts now d e w ts).0
unfolding broadcast_to
broadcast_to-Coherent accepts now d e w [] c = c
broadcast_to-Coherent accepts now d e w (t ∷ ts) c = record {
  flag_agrees = refl;
  log_bounded = rw (output_line-keeps d.cur w) (c.log_bounded);
}

act-Coherent : (a : Action) (w : Watch) → WatchCoherent w → WatchCoherent (act a w)
unfolding act test_broadcast_state log_event subscribe
act-Coherent (tick accepts now d e) w c =
    broadcast_to-Coherent accepts now d e w w.test_subscribers c
act-Coherent (event accepts line) w c = record {
  flag_agrees = refl;
  log_bounded = push_event-bound line w.test_event_log c.log_bounded;
}
act-Coherent (join works fd all d) w c =
    if-both (λ (p : Watch × List Bytes × Bool). WatchCoherent p.0) (works 0)
      (record {
        flag_agrees = sym (some_left-append w.test_subscribers (record { fd = fd; all = all }));
        log_bounded = c.log_bounded;
      })
      c

-- Whatever sequence of ticks, logged lines and new subscribers happens, with any writes failing, the
-- flag that the input path tests says whether anyone watches, and the event log that a new subscriber
-- is given holds at most 20 lines.
pub act_all-Coherent :
    (actions : List Action) (w : Watch) → WatchCoherent w → WatchCoherent (act_all actions w)
unfolding act_all
act_all-Coherent [] w c = c
act_all-Coherent (a ∷ rest) w c = act_all-Coherent rest (act a w) (act-Coherent a w c)

kept_lem :
    (accepts : ℕ → Bool) (f : TestSubscriber → Bytes) (ts : List TestSubscriber)
    → (deliver accepts f ts).kept ≡ accepting accepts ts
kept_lem accepts f ts = ap (λ (r : Delivery). r.kept) (deliver_lem accepts f ts)

module _ (accepts : ℕ → Bool) (now : ℕ) (d : Daemon) (e : Emitter) (w : Watch) where
  abbrev what : TestSubscriber → Bytes
  what = payload (both_lines now d e w) (single_payload now d e w)

  kept_subscribers :
      (ts : List TestSubscriber)
      → w.test_subscribers ≡ ts
      → (broadcast_to accepts now d e w ts).0.test_subscribers ≡ accepting accepts ts
  unfolding broadcast_to accepting
  kept_subscribers [] h = h
  kept_subscribers (t ∷ ts) h = kept_lem accepts what (t ∷ ts)

  delivery_lem :
      (ts : List TestSubscriber) → (broadcast_to accepts now d e w ts).1 ≡ delivered accepts what ts
  unfolding broadcast_to accepting refusing addressed
  delivery_lem [] = refl
  delivery_lem (t ∷ ts) = deliver_lem accepts what (t ∷ ts)

-- What a subscriber is promised: both sources for `test all`, the active one otherwise, which is the
-- virtual device for an emulating type and the physical controller for the others; then what changed.
abbrev chosen : Bool → Bool → Bytes → Bytes → Bytes
chosen true emulates virtual physical = virtual ++ physical
chosen false true virtual physical = virtual
chosen false false virtual physical = physical

abbrev pub promised : ℕ → Daemon → Emitter → Watch → TestSubscriber → Bytes
promised now d e w t =
    chosen t.all (controller_type_emulates d.target_type) (virtual_line d e) (physical_line d w)
    ++ changes now d w

chosen_lem :
    (all emulates : Bool) (virtual physical rest : Bytes)
    → (if all
        then (virtual ++ physical) ++ rest
        else (if emulates then virtual else physical) ++ rest)
      ≡ chosen all emulates virtual physical ++ rest
chosen_lem true emulates virtual physical rest = refl
chosen_lem false true virtual physical rest = refl
chosen_lem false false virtual physical rest = refl

module _ (now : ℕ) (d : Daemon) (e : Emitter) (w : Watch) where
  promised_lem :
      (ts : List TestSubscriber)
      → addressed (payload (both_lines now d e w) (single_payload now d e w)) ts
        ≡ addressed (promised now d e w) ts
  unfolding addressed both_lines single_payload active_line
  promised_lem [] = refl
  promised_lem (t ∷ ts) =
      ap₂ (λ p rest. (t.fd, p) ∷ rest)
        (chosen_lem t.all (controller_type_emulates d.target_type) (virtual_line d e)
          (physical_line d w) (changes now d w))
        (promised_lem ts)

-- A tick writes to exactly the subscribers whose descriptor accepts it, both sources to those of
-- `test all` and the active one to the others, keeps them in their order, and closes the descriptors
-- of the rest.
pub test_broadcast_state_delivers :
    (accepts : ℕ → Bool) (now : ℕ) (d : Daemon) (e : Emitter) (w : Watch)
    → let after = test_broadcast_state accepts now d e w in
      let reached = accepting accepts w.test_subscribers in
      (after.0.test_subscribers ≡ reached)
      × (after.1.sent ≡ addressed (promised now d e w) reached)
      × (after.1.closed ≡ refusing accepts w.test_subscribers)
unfolding test_broadcast_state
test_broadcast_state_delivers accepts now d e w =
    let whole = delivery_lem accepts now d e w w.test_subscribers in
    (
      kept_subscribers accepts now d e w w.test_subscribers refl,
      ap (λ (r : Delivery). r.sent) whole
          ∙ promised_lem now d e w (accepting accepts w.test_subscribers),
      ap (λ (r : Delivery). r.closed) whole,
    )
