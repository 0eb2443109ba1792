-- ===== src/Base/Resources.antt =====
-- What code acquires of the system and gives back: descriptors, handles and the like.
use ds4_translator.Base.Logic.{◌==◌, ==_refl, if◌then◌else◌}
use ds4_translator.Base.Lists.{Bytes}
use ds4_translator.Base.Text.{◌===◌, ===_refl}
use Prim.Native.Nat.{ℕ, ◌+◌, ◌<◌}
use mathlib.Core.Path.{◌≡◌, refl}
use mathlib.Core.Bool.{Bool, true, false}
use mathlib.Core.List.{List, [], ◌∷◌, ◌++◌}
use native.Mathlib.Omega.{arith}

pub data Resource : Type 0 where
  descriptor : ℕ → Resource
  named : Bytes → Resource

unfoldable pub same_resource : Resource → Resource → Bool
unfolding ◌===◌
same_resource (descriptor a) (descriptor b) = a == b
same_resource (named a) (named b) = a === b
same_resource (descriptor a) (named b) = false
same_resource (named a) (descriptor b) = false

pub data Act : Type 0 where
  acquire release : Resource → Act

-- How often a resource was acquired and released. Acts stand the newest first.
unfoldable pub acquired : Resource → List Act → ℕ
unfolding same_resource
acquired r [] = 0
acquired r (acquire s ∷ acts) = (if same_resource r s then 1 else 0) + acquired r acts
acquired r (release s ∷ acts) = acquired r acts

unfoldable pub released : Resource → List Act → ℕ
unfolding same_resource
released r [] = 0
released r (acquire s ∷ acts) = released r acts
released r (release s ∷ acts) = (if same_resource r s then 1 else 0) + released r acts

-- Nothing is released that is not held at that time.
abbrev pub Sound : List Act → Type 0
Sound [] = Unit
Sound (acquire r ∷ acts) = Sound acts
Sound (release r ∷ acts) = (released r acts < acquired r acts) × Sound acts

-- Every resource was given back as often as it was acquired, and never before.
abbrev pub Clean : List Act → Type 0
Clean acts = Sound acts × ((r : Resource) → acquired r acts ≡ released r acts)

unfoldable pub count : Resource → List Resource → ℕ
unfolding same_resource
count r [] = 0
count r (s ∷ ss) = (if same_resource r s then 1 else 0) + count r ss

-- The acts leave these resources held.
pub record Holds (held : List Resource) (acts : List Act) : Type 0 where
  pub sound : Sound acts
  pub balance : (r : Resource) → acquired r acts ≡ released r acts + count r held

same_resource_refl : (r : Resource) → same_resource r r ≡ true
unfolding same_resource
same_resource_refl (descriptor a) = ==_refl a
same_resource_refl (named a) = ===_refl a

count-append : (r : Resource) (xs ys : List Resource) → count r (xs ++ ys) ≡ count r xs + count r ys
unfolding count
count-append r [] ys = omega arith
count-append r (x ∷ xs) ys = omega (arith, count-append r xs ys)

pub nothing_held : Holds [] []
unfolding acquired released count
nothing_held = record { sound = tt; balance = λ r. refl }

pub take_up :
    {held : List Resource} {acts : List Act} (r : Resource)
    → Holds held acts
    → Holds (r ∷ held) (acquire r ∷ acts)
unfolding acquired released count
take_up r h = record { sound = h.sound; balance = λ s. omega (arith, h.balance s) }

-- What is held behind the first ones may be given back too.
pub give_back :
    (xs ys : List Resource) {acts : List Act} (r : Resource)
    → Holds (xs ++ r ∷ ys) acts
    → Holds (xs ++ ys) (release r ∷ acts)
unfolding acquired released count
give_back xs ys r h = record {
  sound = (
    (let one : count r (r ∷ ys) ≡ 1 + count r ys = rw (same_resource_refl r) refl in
        omega (arith, h.balance r, count-append r xs (r ∷ ys), one)),
    h.sound,
  );
  balance = λ s. omega (arith, h.balance s, count-append s xs (r ∷ ys), count-append s xs ys);
}

pub give_first :
    {held : List Resource} {acts : List Act} (r : Resource)
    → Holds (r ∷ held) acts
    → Holds held (release r ∷ acts)
give_first {held} r h = give_back [] held r h

pub Holds-Clean : {acts : List Act} → Holds [] acts → Clean acts
unfolding count
Holds-Clean h = (h.sound, λ r. omega (arith, h.balance r))
