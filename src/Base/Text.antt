-- ===== src/Base/Text.antt =====
-- Texts as lists of bytes, with what the code uses of `std::string`.
use Prim.Native.Char.{code}
use Prim.Native.Nat.{ℕ, suc}
use Prim.Native.String.{String}
use mathlib.Core.Path.{◌≡◌, refl}
use mathlib.Core.Logic.{◌↔◌}
use mathlib.Core.Bool.{Bool, true, false, ◌&&◌, ◌||◌}
use mathlib.Core.List.{[], ◌∷◌, reverse}
use mathlib.Core.Option.{Option, none, some}
use native.Mathlib.Omega.{arith}
use ds4_translator.Base.Logic.{◌==◌, if◌then◌else◌}
use ds4_translator.Base.Lists.{Bytes}

-- The bytes of an ASCII literal.
abbrev pub text : String → Bytes
text String.[] = []
text (String.◌∷◌ c s) = code c ∷ text s

-- `a == b`
infix 50 ◌===◌
unfoldable pub ◌===◌ : Bytes → Bytes → Bool
[] === [] = true
[] === (y ∷ ys) = false
(x ∷ xs) === [] = false
(x ∷ xs) === (y ∷ ys) = x == y && xs === ys

-- `s.rfind(prefix, 0) == 0`
unfoldable pub starts_with : Bytes → Bytes → Bool
starts_with [] s = true
starts_with (p ∷ ps) [] = false
starts_with (p ∷ ps) (c ∷ s) = p == c && starts_with ps s

-- `s.find(part) != std::string::npos`
unfoldable pub contains : Bytes → Bytes → Bool
unfolding starts_with
contains part [] = starts_with part []
contains part (c ∷ s) = starts_with part (c ∷ s) || contains part s

-- The index of the first byte `c`, `none` for `npos`.
unfoldable pub find : ℕ → Bytes → Option ℕ
find c [] = none
find c (x ∷ s) = let rest = find c s in if x == c then some 0 else later rest
  where
    later : Option ℕ → Option ℕ
    later none = none
    later (some i) = some (suc i)

abbrev pub empty : Bytes → Bool
empty [] = true
empty (_ ∷ _) = false

-- Drops the bytes at the front, while they satisfy the test.
unfoldable pub trim_front : (ℕ → Bool) → Bytes → Bytes
trim_front p [] = []
trim_front p (c ∷ s) = let rest = trim_front p s in if p c then rest else c ∷ s

-- `while (!s.empty() && p(s.back())) s.pop_back();`
unfoldable pub trim_back : (ℕ → Bool) → Bytes → Bytes
trim_back p s = reverse (trim_front p (reverse s))

pub ===_iff : (a b : Bytes) → ((a === b) ≡ true) ↔ (a ≡ b)
unfolding ◌===◌
===_iff [] [] = ground arith
===_iff [] (y ∷ ys) = ground arith
===_iff (x ∷ xs) [] = ground arith
===_iff (x ∷ xs) (y ∷ ys) = ground (arith, ===_iff xs ys)

pub ===_refl : (a : Bytes) → (a === a) ≡ true
===_refl a = (===_iff a a).1 refl
