-- ===== src/Config/Lines.antt =====
-- Lines of a text file: `std::getline` in a loop, and its inverse.
use ds4_translator.Base.{
  ℕ, Bool, false, ◌≡◌, ◌≢◌, refl, ap, ◌∙◌, List, [], ◌∷◌, ◌++◌, Bytes, All, All-append, ◌==◌,
  if◌then◌else◌, ne→==,
}
use ds4_translator.Base.Text.{trim_front, trim_back}
use mathlib.Core.List.{reverse, reverse-reverse, reverse-append}

-- Puts a byte in front of the first line.
abbrev pub onto_first : ℕ → List Bytes → List Bytes
onto_first c [] = (c ∷ []) ∷ []
onto_first c (l ∷ ls) = (c ∷ l) ∷ ls

-- The lines that the loop sees: none after the last newline, if nothing stands there.
unfoldable pub lines : Bytes → List Bytes
lines [] = []
lines (c ∷ s) = let rest = lines s in if c == 10 then [] ∷ rest else onto_first c rest

unfoldable pub unlines : List Bytes → Bytes
unlines [] = []
unlines (l ∷ ls) = l ++ 10 ∷ unlines ls

-- A text of one line.
abbrev pub IsLine : Bytes → Type 0
IsLine = All (λ (c : ℕ). c ≢ 10)

lines-line : (l rest : Bytes) → IsLine l → lines (l ++ 10 ∷ rest) ≡ l ∷ lines rest
unfolding lines
lines-line [] rest h = refl
lines-line (c ∷ l) rest h = rw (ne→== c 10 h.0) (ap (onto_first c) (lines-line l rest h.1))

-- Lines that are written are read back.
pub lines-unlines : (ls : List Bytes) → All IsLine ls → lines (unlines ls) ≡ ls
unfolding unlines lines
lines-unlines [] h = refl
lines-unlines (l ∷ ls) h = lines-line l (unlines ls) h.0 ∙ ap (λ t. l ∷ t) (lines-unlines ls h.1)

-- Trimming leaves alone a text none of whose bytes is trimmed.
All-reverse : (P : ℕ → Type 0) (xs : Bytes) → All P xs → All P (reverse xs)
All-reverse P [] p = tt
All-reverse P (x ∷ xs) p =
    rw (reverse-append (x ∷ []) xs)
      (All-append P (reverse xs) (x ∷ []) (All-reverse P xs p.1) (p.0, tt))

trim_front-kept : (p : ℕ → Bool) (s : Bytes) → All (λ c. p c ≡ false) s → trim_front p s ≡ s
unfolding trim_front
trim_front-kept p [] h = refl
trim_front-kept p (c ∷ s) h = rw (h.0)

pub trim_back-kept : (p : ℕ → Bool) (s : Bytes) → All (λ c. p c ≡ false) s → trim_back p s ≡ s
unfolding trim_back
trim_back-kept p s h =
    ap reverse (trim_front-kept p (reverse s) (All-reverse (λ c. p c ≡ false) s h))
    ∙ reverse-reverse s
