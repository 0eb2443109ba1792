-- ===== src/Ui/Replies.antt =====
-- Every command of the window gets one reply, in the order in which the commands were sent.
use ds4_translator.Base.{
  ℕ, suc, Bool, true, false, not, ◌≡◌, refl, sym, ap, ◌∙◌, List, [], ◌∷◌, ◌++◌, Bytes, Bool-cases,
  inl, inr, arith, append_assoc, ltb, if◌then◌else◌,
}
use ds4_translator.Base.Text.{empty}
use ds4_translator.Ui.{
  Attempt, Reply, Ui, status_command, is_counted, set_message, note_reply, asks_status, settle,
  reply_to, start_from, start_next, send, send_command, finish,
}
use ds4_translator.Ui.Between.{
  answered, waiting, count, Sound, Between, settle-Between, branch, if_true, resting-Between,
  start_from-Sound,
}
use ds4_translator.Ui.{
  Event, asks, readable, times_out, poll, interaction_begins, interaction_ends, Read, chunk, again,
  eof, error, on_readable, on_timeout, refresh_status, send_built_command, line_of, on_event, run,
  start, fresh,
}
use ds4_translator.Client.{Built, built, failed}

swap :
    (a b : Bool) (n : ℕ)
    → (if a then suc (if b then suc n else n) else (if b then suc n else n))
      ≡ (if b then suc (if a then suc n else n) else (if a then suc n else n))
swap true true n = refl
swap true false n = refl
swap false true n = refl
swap false false n = refl

count-push :
    (xs : List Bytes) (c : Bytes)
    → count (xs ++ c ∷ []) ≡ (if is_counted c then suc (count xs) else count xs)
count-push [] c = refl
count-push (x ∷ xs) c = rw (count-push xs c) (swap (is_counted x) (is_counted c) (count xs))

pushed :
    (c : Bytes) (xs : List Bytes) (n : ℕ)
    → n ≡ count xs
    → (if is_counted c then suc n else n) ≡ count (xs ++ c ∷ [])
pushed c xs n h = ap (λ m. if is_counted c then suc m else m) h ∙ sym (count-push xs c)

waiting-push :
    (b : Bool) (x : Bytes) (q : List Bytes) (c : Bytes)
    → (if b then x ∷ (q ++ c ∷ []) else q ++ c ∷ []) ≡ (if b then x ∷ q else q) ++ c ∷ []
waiting-push true x q c = refl
waiting-push false x q c = refl

module _ (world : ℕ → Attempt) where
  start_next-Sound : (u : Ui) → Between u.queue u → Sound (start_next world u)
  unfolding start_next
  start_next-Sound u b =
      branch Sound u.in_flight u (start_from world u.queue u)
        (λ e. absurd (ground (arith, b.at_rest, e))) (λ e. start_from-Sound world u.queue u b)

  again-Sound : (u : Ui) → Sound u → Sound (start_next world u)
  unfolding start_next
  again-Sound u s =
      branch Sound u.in_flight u (start_from world u.queue u) (λ e. s)
        (λ e. start_from-Sound world u.queue u (resting-Between u s e))

  -- The command joins the queue.
  joined-Sound : (c : Bytes) (u : Ui) → Between u.queue u → Sound (send_command world c u)
  unfolding send_command send
  joined-Sound c u b = start_next-Sound _ (record {
    in_order =
        ap (λ xs. xs ++ c ∷ []) b.in_order ∙ append_assoc (answered u.replies) u.queue (c ∷ []);
    counted = pushed c u.queue u.pending_commands b.counted;
    released = b.released;
    no_fd = b.no_fd;
    at_rest = b.at_rest;
    queued = refl;
  })

  behind-Sound :
      (c : Bytes) (u : Ui) → Sound u → u.in_flight ≡ true → Sound (send_command world c u)
  unfolding send_command send
  behind-Sound c u s e = again-Sound _ (record {
    in_order =
        ap (λ xs. xs ++ c ∷ []) s.in_order
        ∙ append_assoc (answered u.replies) (waiting u) (c ∷ [])
        ∙ ap (λ w. answered u.replies ++ w) (sym (waiting-push u.in_flight u.current u.queue c));
    counted =
        pushed c (waiting u) u.pending_commands s.counted
        ∙ ap count (sym (waiting-push u.in_flight u.current u.queue c));
    idle = λ h. absurd (ground (arith, h, e));
    released = s.released;
    in_use = s.in_use;
  })

  send_command-Sound : (c : Bytes) (u : Ui) → Sound u → Sound (send_command world c u)
  send_command-Sound c u s = elim (Bool-cases u.in_flight) [
    | inl e ↦ behind-Sound c u s e
    | inr e ↦ joined-Sound c u (resting-Between u s e)
  ]

  settled-Between :
      (r : Reply) (u : Ui)
      → r.command ≡ u.current
      → Sound u
      → u.in_flight ≡ true
      → Between u.queue (settle r u)
  settled-Between r u same s e =
      let kept : waiting u ≡ r.command ∷ u.queue =
        if_true u.in_flight (u.current ∷ u.queue) u.queue e ∙ ap (λ c. c ∷ u.queue) (sym same) in
      settle-Between r u.queue u (s.in_order ∙ ap (λ w. answered u.replies ++ w) kept)
        (s.counted ∙ ap count kept) s.released refl

  finish-Sound :
      (ok : Bool) (response : Bytes) (u : Ui)
      → Sound u
      → u.in_flight ≡ true
      → Sound (finish world ok response u)
  unfolding finish settle note_reply
  finish-Sound ok response u s e =
      let r : Reply = reply_to u ok response in
      let b = settled-Between r u refl s e in
      branch (λ v. Sound (start_next world v)) (asks_status r)
        (send_command world status_command (settle r u)) (settle r u)
        (λ _. again-Sound _ (joined-Sound status_command (settle r u) b))
        (λ _. start_next-Sound (settle r u) b)

  on_readable-Sound : (reads : List Read) (u : Ui) → Sound u → Sound (on_readable world reads u)
  unfolding on_readable
  on_readable-Sound [] u s = s
  on_readable-Sound (chunk bytes ∷ reads) u s =
      branch Sound (not u.in_flight) u
        (on_readable world reads (record u { buffer = u.buffer ++ bytes })) (λ _. s)
        (λ _. on_readable-Sound reads _ (buffered bytes u s))
    where
      buffered :
          (bytes : Bytes) (u : Ui) → Sound u → Sound (record u { buffer = u.buffer ++ bytes })
      buffered bytes u s = record {
        in_order = s.in_order;
        counted = s.counted;
        idle = s.idle;
        released = s.released;
        in_use = s.in_use;
      }
  on_readable-Sound (again ∷ reads) u s = s
  on_readable-Sound (error e ∷ reads) u s =
      branch Sound (not u.in_flight) u (finish world false e u) (λ _. s)
        (λ h. finish-Sound false e u s (ground (arith, h)))
  on_readable-Sound (eof ∷ reads) u s =
      branch Sound (not u.in_flight) u _ (λ _. s)
        (λ h.
          branch Sound (empty u.buffer) _ _ (λ _. finish-Sound false _ u s (ground (arith, h)))
            (λ _. finish-Sound true _ u s (ground (arith, h))))

  on_timeout-Sound : (m : Bytes) (u : Ui) → Sound u → Sound (on_timeout world m u)
  unfolding on_timeout
  on_timeout-Sound m u s =
      branch Sound (not u.in_flight) u (finish world false m u) (λ _. s)
        (λ h. finish-Sound false m u s (ground (arith, h)))

  refresh_status-Sound : (u : Ui) → Sound u → Sound (refresh_status world u)
  unfolding refresh_status
  refresh_status-Sound u s =
      branch Sound _ u _ (λ _. s)
        (λ _.
          branch Sound (ltb 0 u.interactions) u _ (λ _. s)
            (λ _. send_command-Sound status_command u s))

  shown-Sound :
      (m : Bytes) (u : Ui) → Sound u → Sound (record u { view = set_message m true u.view })
  shown-Sound m u s = record {
    in_order = s.in_order;
    counted = s.counted;
    idle = s.idle;
    released = s.released;
    in_use = s.in_use;
  }

  interactions-Sound : (n : ℕ) (u : Ui) → Sound u → Sound (record u { interactions = n })
  interactions-Sound n u s = record {
    in_order = s.in_order;
    counted = s.counted;
    idle = s.idle;
    released = s.released;
    in_use = s.in_use;
  }

  send_built_command-Sound : (c : Built) (u : Ui) → Sound u → Sound (send_built_command world c u)
  unfolding send_built_command
  send_built_command-Sound (failed m) u s = shown-Sound m u s
  send_built_command-Sound (built c) u s =
      branch Sound (empty c) _ _ (λ _. shown-Sound [] u s) (λ _. send_command-Sound c u s)

  on_event-Sound : (e : Event) (u : Ui) → Sound u → Sound (on_event world e u)
  unfolding on_event
  on_event-Sound (asks request) u s = send_built_command-Sound (line_of request) u s
  on_event-Sound (readable reads) u s = on_readable-Sound reads u s
  on_event-Sound (times_out m) u s = on_timeout-Sound m u s
  on_event-Sound poll u s = refresh_status-Sound u s
  on_event-Sound interaction_begins u s = interactions-Sound _ u s
  on_event-Sound interaction_ends u s = interactions-Sound _ u s

  run-Kept : (es : List Event) (u : Ui) → Sound u → Sound (run world es u)
  run-Kept [] u s = s
  run-Kept (e ∷ es) u s = run-Kept es _ (on_event-Sound e u s)

-- Whatever the connections come to and whatever events reach the window from its start on: the
-- replies are those to the first of the commands that were sent, one each and in their order; the
-- pending commands are as many as those counted that have no reply yet; no command waits while none
-- is in flight; and of the descriptors opened all have been closed once, in their order, but one that
-- is there exactly while a command is in flight.
pub run-Sound : (world : ℕ → Attempt) (es : List Event) → Sound (run world es (start world))
run-Sound world es = run-Kept world es (start world) (refresh_status-Sound world fresh fresh-Sound)
  where
    fresh-Sound : Sound fresh
    fresh-Sound = record {
      in_order = refl;
      counted = refl;
      idle = λ _. refl;
      released = refl;
      in_use = refl;
    }
