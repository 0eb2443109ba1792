-- ===== src/FunctionFs/Mailbox.antt =====
-- src/functionfs-backend.c, the mailbox of one report between `functionfs_send_input_report` and
-- `in_loop`. Both work on it under the mutex; the write itself is outside, so the thread takes a
-- report in one step and has written it in a later one.
use ds4_translator.Base.{
  ℕ, Bool, true, false, not, ◌||◌, ◌≡◌, refl, sym, ap, ◌∙◌, Option, none, some, List, [], ◌∷◌, ◌++◌,
  Bytes, length, ltb, is_some, if◌then◌else◌, arith, append-nil, append_assoc, Bool-cases, inl, inr,
}
use mathlib.Core.Path.{subst}
use ds4_translator.FunctionFs.{FunctionFsDevice}

abbrev pub report_size : ℕ
report_size = 64

unfoldable pub functionfs_send_input_report : Bytes → FunctionFsDevice → FunctionFsDevice × Bool
functionfs_send_input_report report dev =
    if not dev.configured || not (is_some dev.ep_in_fd)
    then (dev, false)
    else if ltb report_size (length report)
    then (dev, false)
    else (record dev { pending_report = report; report_pending = true }, true)

-- The thread with the report that it has taken out, and what it has written so far, the newest last.
pub record InThread : Type 0 where
  pub dev : FunctionFsDevice
  pub local_buf : Option Bytes
  pub written : List Bytes

-- The part under the mutex: it waits while nothing is pending.
unfoldable pub take_report : InThread → InThread
take_report t =
    if not t.dev.device_open || not t.dev.report_pending || is_some t.local_buf
    then t
    else if not t.dev.configured || not (is_some t.dev.ep_in_fd)
    then record t { dev = record t.dev { report_pending = false } }
    else record t {
      dev = record t.dev { report_pending = false };
      local_buf = some t.dev.pending_report;
    }

-- The write, and whether the host has taken it.
unfoldable pub write_report : Bool → InThread → InThread
write_report works t = elim t.local_buf [
  | none ↦ t
  | some report ↦ record t {
    local_buf = none;
    written = if works then t.written ++ (report ∷ []) else t.written;
  }
]

-- The steps of the threads, in any order: the daemon sends a report, endpoint 0 brings an event, the
-- thread takes and writes.
pub data Step : Type 0 where
  send : Bytes → Step
  configure : Bool → Step
  take_step : Step
  write_step : Bool → Step

unfoldable pub step : Step → InThread → InThread
unfolding functionfs_send_input_report take_report write_report
step (send report) t = record t { dev = (functionfs_send_input_report report t.dev).0 }
step (configure c) t = record t { dev = record t.dev { configured = c } }
step take_step t = take_report t
step (write_step works) t = write_report works t

unfoldable pub run : List Step → InThread → InThread
unfolding step
run [] t = t
run (s ∷ ss) t = run ss (step s t)

-- The reports that the daemon was told were accepted, in their order.
unfoldable pub accepts : Step → InThread → List Bytes
unfolding functionfs_send_input_report
accepts (send report) t = if (functionfs_send_input_report report t.dev).1 then report ∷ [] else []
accepts (configure c) t = []
accepts take_step t = []
accepts (write_step works) t = []

unfoldable pub accepted : List Step → InThread → List Bytes
unfolding step accepts
accepted [] t = []
accepted (s ∷ ss) t = accepts s t ++ accepted ss (step s t)

-- The first list is the second with some elements left out.
pub data Within {A : Type 0} : List A → List A → Type 0 where
  done : Within [] []
  keep : {x : A} {xs ys : List A} → Within xs ys → Within (x ∷ xs) (x ∷ ys)
  skip : {y : A} {xs ys : List A} → Within xs ys → Within xs (y ∷ ys)

-- What is still under way: the report taken out, then the one in the mailbox.
abbrev pub taken : Option Bytes → List Bytes
taken none = []
taken (some report) = report ∷ []

abbrev pub pending : FunctionFsDevice → List Bytes
pending dev = if dev.report_pending then dev.pending_report ∷ [] else []

abbrev pub under_way : InThread → List Bytes
under_way t = taken t.local_buf ++ pending t.dev

module _ {A : Type 0} where
  Within-refl : (xs : List A) → Within xs xs
  Within-refl [] = done
  Within-refl (x ∷ xs) = keep (Within-refl xs)

  Within-trans : {ys zs : List A} → Within ys zs → (xs : List A) → Within xs ys → Within xs zs
  Within-trans (skip w) xs v = skip (Within-trans w xs v)
  Within-trans done xs v = v
  Within-trans (keep w) _ (keep {xs = xs} v) = keep (Within-trans w xs v)
  Within-trans (keep w) xs (skip v) = skip (Within-trans w xs v)

  Within-right : {xs ys : List A} (zs : List A) → Within xs ys → Within (xs ++ zs) (ys ++ zs)
  Within-right zs done = Within-refl zs
  Within-right zs (keep w) = keep (Within-right zs w)
  Within-right zs (skip w) = skip (Within-right zs w)

  Within-left : (zs : List A) {xs ys : List A} → Within xs ys → Within (zs ++ xs) (zs ++ ys)
  Within-left [] w = w
  Within-left (z ∷ zs) w = keep (Within-left zs w)

-- What some steps did: what was written, and that nothing came in but what was accepted.
abbrev pub Does : InThread → List Bytes → InThread → Type 0
Does t reports t' =
    (new : List Bytes) × (t'.written ≡ t.written ++ new)
    × Within (new ++ under_way t') (under_way t ++ reports)

Within-nil : (xs : List Bytes) → Within xs (xs ++ [])
Within-nil xs = same xs (xs ++ []) (sym (append-nil xs))
  where
    same : (xs ys : List Bytes) → xs ≡ ys → Within xs ys
    same xs ys e = subst (Within xs) e (Within-refl xs)

-- Nothing is written, and what is under way stays.
quiet : (t t' : InThread) → t'.written ≡ t.written → under_way t' ≡ under_way t → Does t [] t'
quiet t t' w u = (
  [],
  w ∙ sym (append-nil t.written),
  subst (λ xs. Within xs (under_way t ++ [])) (sym u) (Within-nil (under_way t)),
)

-- A report put into the mailbox takes the place of the one in it.
replaced :
    (l : Option Bytes) (b : Bool) (old report : Bytes)
    → Within (taken l ++ (report ∷ [])) ((taken l ++ (if b then old ∷ [] else [])) ++ (report ∷ []))
replaced none true old report = skip (keep done)
replaced none false old report = keep done
replaced (some r) true old report = keep (skip (keep done))
replaced (some r) false old report = keep (keep done)

send-Does :
    (report : Bytes) (t : InThread) → Does t (accepts (send report) t) (step (send report) t)
unfolding step accepts functionfs_send_input_report
send-Does report t = elim (Bool-cases (not t.dev.configured || not (is_some t.dev.ep_in_fd))) [
  | inl e ↦ rw e (quiet t t refl refl)
  | inr e ↦ elim (Bool-cases (ltb report_size (length report))) [
    | inl f ↦ rw (e, f) (quiet t t refl refl)
    | inr f ↦
        rw (e, f)
          (
            [],
            sym (append-nil t.written),
            replaced t.local_buf t.dev.report_pending t.dev.pending_report report,
          )
  ]
]

-- Nothing is written and nothing moves.
stays : (w xs : List Bytes) → (new : List Bytes) × (w ≡ w ++ new) × Within (new ++ xs) (xs ++ [])
stays w xs = ([], sym (append-nil w), Within-nil xs)

take-Does :
    (dev : FunctionFsDevice) (l : Option Bytes) (w : List Bytes)
    → (let t : InThread = record { dev = dev; local_buf = l; written = w } in
        Does t [] (take_report t))
unfolding take_report
take-Does dev l w = elim (Bool-cases (not dev.device_open || not dev.report_pending || is_some l)) [
  | inl e ↦ rw e (stays w (taken l ++ pending dev))
  | inr e ↦ ready l e (ground arith)
]
  where
    ready :
        (l : Option Bytes)
        → (not dev.device_open || not dev.report_pending || is_some l) ≡ false
        → dev.report_pending ≡ true
        → (let t : InThread = record { dev = dev; local_buf = l; written = w } in
            Does t [] (take_report t))
    ready (some r) e p = absurd (ground arith)
    ready none e p = elim (Bool-cases (not dev.configured || not (is_some dev.ep_in_fd))) [
      | inl c ↦ rw (e, c, p) ([], sym (append-nil w), skip done)
      | inr c ↦ rw (e, c, p) ([], sym (append-nil w), keep done)
    ]

write-Does :
    (works : Bool) (dev : FunctionFsDevice) (l : Option Bytes) (w : List Bytes)
    → (let t : InThread = record { dev = dev; local_buf = l; written = w } in
        Does t [] (write_report works t))
unfolding write_report
write-Does works dev none w = stays w (pending dev)
write-Does true dev (some r) w = (r ∷ [], refl, Within-nil (r ∷ pending dev))
write-Does false dev (some r) w = ([], sym (append-nil w), skip (Within-nil (pending dev)))

step-Does : (s : Step) (t : InThread) → Does t (accepts s t) (step s t)
unfolding step accepts
step-Does (send report) t = send-Does report t
step-Does (configure c) t = quiet t (step (configure c) t) refl refl
step-Does take_step t = take-Does t.dev t.local_buf t.written
step-Does (write_step works) t = write-Does works t.dev t.local_buf t.written

then_Does :
    (a b c : InThread) (xs ys : List Bytes) → Does a xs b → Does b ys c → Does a (xs ++ ys) c
then_Does a b c xs ys (m, e, v) (n, f, w) = (
  m ++ n,
  f ∙ ap (λ zs. zs ++ n) e ∙ append_assoc a.written m n,
  Within-trans
      (subst (λ zs. Within zs (under_way a ++ (xs ++ ys))) (append_assoc m (under_way b) ys)
        (subst (Within ((m ++ under_way b) ++ ys)) (append_assoc (under_way a) xs ys)
          (Within-right ys v)))
      ((m ++ n) ++ under_way c)
      (subst (λ zs. Within zs (m ++ (under_way b ++ ys))) (sym (append_assoc m n (under_way c)))
        (Within-left m w)),
)

-- In whatever order the threads take their steps, the reports written to the host, then the one taken
-- out and the one in the mailbox, are reports that were there before or were accepted since, each once
-- at most and in their order: no report is written twice, invented or overtaken.
pub run-Does : (ss : List Step) (t : InThread) → Does t (accepted ss t) (run ss t)
unfolding run accepted
run-Does [] t = quiet t t refl refl
run-Does (s ∷ ss) t =
    then_Does t (step s t) (run ss (step s t)) (accepts s t) (accepted ss (step s t))
      (step-Does s t) (run-Does ss (step s t))
