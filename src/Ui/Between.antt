-- ===== src/Ui/Between.antt =====
-- The state between two commands, and `startNext`.
use ds4_translator.Base.{
  ℕ, suc, ◌-◌, Bool, true, false, ◌≡◌, refl, sym, ap, ◌∙◌, Option, none, some, List, [], ◌∷◌, ◌++◌,
  Bytes, ◌⊎◌, inl, inr, arith, append-nil, is_some, if◌then◌else◌,
}
use ds4_translator.Ui.{
  Attempt, no_socket, not_ready, connected, Reply, Ui, is_counted, note_reply, held, settle,
  reply_to, begin, take_first, start_from,
}

abbrev pub answered : List Reply → List Bytes
answered [] = []
answered (r ∷ rs) = r.command ∷ answered rs

-- The commands that were sent and have no reply yet.
abbrev pub waiting : Ui → List Bytes
waiting u = if u.in_flight then u.current ∷ u.queue else u.queue

abbrev pub count : List Bytes → ℕ
count [] = 0
count (c ∷ cs) = if is_counted c then suc (count cs) else count cs

-- The replies are those of the first commands sent, in order; what is counted as pending is what has
-- no reply; nothing waits while nothing is in flight; and every descriptor opened has been closed,
-- once and in order, but the one in use.
pub record Sound (u : Ui) : Type 0 where
  pub in_order : u.sent ≡ answered u.replies ++ waiting u
  pub counted : u.pending_commands ≡ count (waiting u)
  pub idle : u.in_flight ≡ false → u.queue ≡ []
  pub released : u.opened ≡ u.closed ++ held u.fd
  pub in_use : is_some u.fd ≡ u.in_flight

-- Between two commands: those of `q` have no reply.
pub record Between (q : List Bytes) (u : Ui) : Type 0 where
  pub in_order : u.sent ≡ answered u.replies ++ q
  pub counted : u.pending_commands ≡ count q
  pub released : u.opened ≡ u.closed
  pub no_fd : u.fd ≡ none
  pub at_rest : u.in_flight ≡ false
  pub queued : u.queue ≡ q

answered-push :
    (rs : List Reply) (r : Reply) (q : List Bytes)
    → answered (rs ++ r ∷ []) ++ q ≡ answered rs ++ r.command ∷ q
answered-push [] r q = refl
answered-push (s ∷ rs) r q = ap (λ cs. s.command ∷ cs) (answered-push rs r q)

uncounted : (b : Bool) (n m : ℕ) → n ≡ (if b then suc m else m) → (if b then n - 1 else n) ≡ m
uncounted true n m h = omega arith
uncounted false n m h = h

-- The reply to the first of the commands that wait.
pub settle-Between :
    (r : Reply) (q : List Bytes) (u : Ui)
    → u.sent ≡ answered u.replies ++ r.command ∷ q
    → u.pending_commands ≡ count (r.command ∷ q)
    → u.opened ≡ u.closed ++ held u.fd
    → u.queue ≡ q
    → Between q (settle r u)
unfolding settle note_reply
settle-Between r q u so c o w = record {
  in_order = so ∙ sym (answered-push u.replies r q);
  counted = uncounted (is_counted r.command) u.pending_commands (count q) c;
  released = o;
  no_fd = refl;
  at_rest = refl;
  queued = w;
}

Attempt-cases :
    (a : Attempt)
    → ((fd : ℕ) × (a ≡ connected fd))
      ⊎ (((fd : ℕ) × (e : Bytes) × (a ≡ not_ready fd e)) ⊎ ((e : Bytes) × (a ≡ no_socket e)))
Attempt-cases (connected fd) = inl (fd, refl)
Attempt-cases (not_ready fd e) = inr (inl (fd, e, refl))
Attempt-cases (no_socket e) = inr (inr (e, refl))

none_held : (u : Ui) (q : List Bytes) → Between q u → u.opened ≡ u.closed ++ held u.fd
none_held u q b = rw b.no_fd (b.released ∙ sym (append-nil u.closed))

module _ (world : ℕ → Attempt) (c : Bytes) (q : List Bytes) (u : Ui) (b : Between (c ∷ q) u)
    (rest : (v : Ui) → Between q v → Sound (start_from world q v)) where
  abbrev begun : Attempt → Ui × Option Bytes
  begun a = begin a (take_first c q u)

  attempt-Sound :
      (a : Attempt)
      → Sound (elim (begun a).1 [
        | none ↦ (begun a).0
        | some e ↦ start_from world q (settle (reply_to (begun a).0 false e) (begun a).0)
      ])
  attempt-Sound (connected fd) = record {
    in_order = b.in_order;
    counted = b.counted;
    idle = λ h. absurd (ground (arith, h));
    released = ap (λ xs. xs ++ fd ∷ []) b.released;
    in_use = refl;
  }
  attempt-Sound (not_ready fd error) =
      rest _ (settle-Between _ q _ b.in_order b.counted (ap (λ xs. xs ++ fd ∷ []) b.released) refl)
  attempt-Sound (no_socket error) =
      rest _ (settle-Between _ q _ b.in_order b.counted (none_held u (c ∷ q) b) refl)

-- One branch of a test on the state has what both have.
pub branch :
    (P : Ui → Type 0) (b : Bool) (v w : Ui)
    → (b ≡ true → P v)
    → (b ≡ false → P w)
    → P (if b then v else w)
branch P true v w p q = p refl
branch P false v w p q = q refl

pub if_true : (b : Bool) (v w : List Bytes) → b ≡ true → (if b then v else w) ≡ v
if_true true v w h = refl
if_true false v w h = absurd (ground (arith, h))

if_false : (b : Bool) (v w : List Bytes) → b ≡ false → (if b then v else w) ≡ w
if_false true v w h = absurd (ground (arith, h))
if_false false v w h = refl

pub resting-Between : (u : Ui) → Sound u → u.in_flight ≡ false → Between u.queue u
resting-Between u s e =
    let kept : waiting u ≡ u.queue = if_false u.in_flight (u.current ∷ u.queue) u.queue e in
    let unused : u.fd ≡ none = no_value u.fd (s.in_use ∙ e) in
    record {
      in_order = s.in_order ∙ ap (λ w. answered u.replies ++ w) kept;
      counted = s.counted ∙ ap count kept;
      released = s.released ∙ ap (λ f. u.closed ++ held f) unused ∙ append-nil u.closed;
      no_fd = unused;
      at_rest = e;
      queued = refl;
    }
  where
    no_value : (o : Option ℕ) → is_some o ≡ false → o ≡ none
    no_value none h = refl
    no_value (some fd) h = absurd (ground (arith, h))

module _ (world : ℕ → Attempt) where
  pub start_from-Sound : (q : List Bytes) (u : Ui) → Between q u → Sound (start_from world q u)
  unfolding start_from
  start_from-Sound [] u b = record {
    in_order = rw b.at_rest b.in_order;
    counted = rw b.at_rest b.counted;
    idle = λ _. refl;
    released = none_held u [] b;
    in_use = rw (b.no_fd, b.at_rest) refl;
  }
  start_from-Sound (c ∷ q) u b =
      attempt-Sound world c q u b (λ v. start_from-Sound q v) (world u.attempts)
