-- ===== src/Client/Stream.antt =====
-- The loop that takes whole lines out of what has arrived, in src/ctl.cpp (`run_test_ui`) and
-- ui/src/inputmonitor.cpp (`onReadable`): each line is handed on, and the rest waits in the buffer.
use ds4_translator.Base.{
  ℕ, zero, suc, ◌+◌, ◌≤◌, ◌≡◌, ◌≢◌, refl, sym, ap, ◌∙◌, inl, inr, none, some, [], ◌∷◌, ◌++◌, Bytes,
  length, length-append, take, drop, take-append, append_assoc, arith, ◌==◌, Bool-cases, ==_iff,
  ne→==,
}
use mathlib.Core.Path.{subst}
use ds4_translator.Base.Text.{find}
use ds4_translator.Base.Scanf.Fits.{IsLine}

module _ {ℓ} {V : Type ℓ} (handle : Bytes → V → V) where
  -- What the lines do to the view, and what is left in the buffer. Each round takes a byte at least.
  unfoldable pub drain : ℕ → Bytes → V → V × Bytes
  unfolding find
  drain zero s v = (v, s)
  drain (suc fuel) s v = elim (find 10 s) [
    | none ↦ (v, s)
    | some i ↦ drain fuel (drop (i + 1) s) (handle (take i s) v)
  ]

  -- `read_available` appends to the buffer, then the loop runs.
  unfoldable pub receive : Bytes → V × Bytes → V × Bytes
  unfolding drain
  receive chunk (v, buffer) = drain (length (buffer ++ chunk)) (buffer ++ chunk) v

find-line : (l rest : Bytes) → IsLine l → find 10 (l ++ 10 ∷ rest) ≡ some (length l)
unfolding find
find-line [] rest h = refl
find-line (c ∷ l) rest h = rw (ne→== c 10 h.0, find-line l rest h.1) refl

find-none : (l : Bytes) → IsLine l → find 10 l ≡ none
unfolding find
find-none [] h = refl
find-none (c ∷ l) h = rw (ne→== c 10 h.0, find-none l h.1) refl

-- A text is one unfinished line, or a line, a newline and the rest.
data Split : Bytes → Type 0 where
  unfinished : {s : Bytes} → IsLine s → Split s
  finished : (l rest : Bytes) → IsLine l → Split (l ++ 10 ∷ rest)

to-Split : (s : Bytes) → Split s
to-Split [] = unfinished tt
to-Split (c ∷ s) = elim (Bool-cases (c == 10)) [
  | inl e ↦ subst (λ k. Split (k ∷ s)) (sym ((==_iff c 10).0 e)) (finished [] s tt)
  | inr e ↦ longer c s (λ p. absurd (ground arith)) (to-Split s)
]
  where
    longer : (c : ℕ) (s : Bytes) → c ≢ 10 → Split s → Split (c ∷ s)
    longer c s n (unfinished h) = unfinished (n, h)
    longer c s n (finished l rest h) = finished (c ∷ l) rest (n, h)

drop_line : (n : ℕ) (l rest : Bytes) → n ≡ length l + 1 → drop n (l ++ 10 ∷ rest) ≡ rest
drop_line zero l rest e = absurd (omega arith)
drop_line (suc zero) [] rest e = refl
drop_line (suc (suc n)) [] rest e = absurd (omega arith)
drop_line (suc n) (c ∷ l) rest e = drop_line n l rest (omega arith)

module _ {ℓ} {V : Type ℓ} (handle : Bytes → V → V) where
  drain-line :
      (fuel : ℕ) (l rest : Bytes) (v : V)
      → IsLine l
      → drain handle (suc fuel) (l ++ 10 ∷ rest) v ≡ drain handle fuel rest (handle l v)
  unfolding drain
  drain-line fuel l rest v h =
      rw (find-line l rest h, drain)
        (rw (drop_line (length l + 1) l rest refl, take-append l (10 ∷ rest)) refl)

  drain-unfinished : (fuel : ℕ) (s : Bytes) (v : V) → IsLine s → drain handle fuel s v ≡ (v, s)
  unfolding drain
  drain-unfinished zero s v h = refl
  drain-unfinished (suc fuel) s v h = rw (find-none s h, drain) refl

  -- More fuel than bytes changes nothing.
  same_fuel :
      (fuel more : ℕ) (s : Bytes) (v : V)
      → length s ≤ fuel
      → length s ≤ more
      → Split s
      → drain handle fuel s v ≡ drain handle more s v
  same_fuel fuel more s v le le' (unfinished h) =
      drain-unfinished fuel s v h ∙ sym (drain-unfinished more s v h)
  same_fuel zero more s v le le' (finished l rest h) =
      absurd (omega (arith, length-append l (10 ∷ rest)))
  same_fuel (suc fuel) zero s v le le' (finished l rest h) =
      absurd (omega (arith, length-append l (10 ∷ rest)))
  same_fuel (suc fuel) (suc more) s v le le' (finished l rest h) =
      drain-line fuel l rest v h
      ∙ same_fuel fuel more rest (handle l v) (omega (arith, length-append l (10 ∷ rest)))
          (omega (arith, length-append l (10 ∷ rest))) (to-Split rest)
      ∙ sym (drain-line more l rest v h)

  -- A buffer that holds every byte of the text is worked off line by line.
  unfoldable pub drained : Bytes → V → V × Bytes
  unfolding drain
  drained s v = drain handle (length s) s v

  pub drained-line :
      (l rest : Bytes) (v : V) → IsLine l → drained (l ++ 10 ∷ rest) v ≡ drained rest (handle l v)
  unfolding drained
  drained-line l rest v h =
      let long = length-append l (10 ∷ rest) in
      same_fuel (length (l ++ 10 ∷ rest)) (suc (length l + length rest)) (l ++ 10 ∷ rest) v
        (omega arith) (omega (arith, long)) (finished l rest h)
      ∙ drain-line (length l + length rest) l rest v h
      ∙ same_fuel (length l + length rest) (length rest) rest (handle l v) (omega arith)
          (omega arith) (to-Split rest)

  drained-append :
      (n : ℕ) (a b : Bytes) (v : V)
      → length a ≤ n
      → Split a
      → drained (a ++ b) v ≡ receive handle b (drained a v)
  unfolding drained receive
  drained-append n a b v le (unfinished h) = rw (drain-unfinished (length a) a v h) refl
  drained-append zero a b v le (finished l rest h) =
      absurd (omega (arith, length-append l (10 ∷ rest)))
  drained-append (suc n) a b v le (finished l rest h) =
      ap (λ s. drained s v) (append_assoc l (10 ∷ rest) b)
      ∙ drained-line l (rest ++ b) v h
      ∙ drained-append n rest b (handle l v) (omega (arith, length-append l (10 ∷ rest)))
          (to-Split rest)
      ∙ ap (receive handle b) (sym (drained-line l rest v h))

-- What has arrived in two pieces is worked off as if it had arrived in one: cutting the stream
-- anywhere, inside a line too, changes neither the view nor what waits in the buffer.
pub receive-append {ℓ} :
    {V : Type ℓ} (handle : Bytes → V → V) (a b : Bytes) (before : V × Bytes)
    → receive handle (a ++ b) before ≡ receive handle b (receive handle a before)
unfolding receive drained
receive-append handle a b (v, buffer) =
    ap (λ s. drained handle s v) (sym (append_assoc buffer a b))
    ∙ drained-append handle (length (buffer ++ a)) (buffer ++ a) b v (omega arith)
        (to-Split (buffer ++ a))

module _ {ℓ} {V : Type ℓ} (handle : Bytes → V → V) where
  left_over :
      (fuel : ℕ) (s : Bytes) (v : V) → length s ≤ fuel → Split s → IsLine (drain handle fuel s v).1
  left_over fuel s v le (unfinished h) = rw (drain-unfinished handle fuel s v h) h
  left_over zero s v le (finished l rest h) = absurd (omega (arith, length-append l (10 ∷ rest)))
  left_over (suc fuel) s v le (finished l rest h) = rw (drain-line handle fuel l rest v h) (
      left_over fuel rest (handle l v) (omega (arith, length-append l (10 ∷ rest))) (to-Split rest))

-- After any arrival the buffer holds no whole line: the loop has ended by its own test and not by
-- its fuel.
pub receive-IsLine {ℓ} :
    {V : Type ℓ} (handle : Bytes → V → V) (chunk : Bytes) (before : V × Bytes)
    → IsLine (receive handle chunk before).1
unfolding receive
receive-IsLine handle chunk (v, buffer) =
    left_over handle (length (buffer ++ chunk)) (buffer ++ chunk) v (omega arith)
      (to-Split (buffer ++ chunk))
