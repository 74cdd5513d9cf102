-- ===== src/Js/Text/Order.antt =====
-- The order of strings is a strict total order.
use mathlib.Core.Path.{◌≡◌, refl}
use mathlib.Core.Logic.{◌⊎◌, inl, inr}
use mathlib.Core.Bool.{true, false}
use mathlib.Core.List.{[], ◌∷◌}
use native.Mathlib.Omega.{arith}
use sahel.Js.Text.{Text, before}

pub before_irrefl : (a : Text) → before a a ≡ false
unfolding before
before_irrefl [] = refl
before_irrefl (c ∷ s) = ground (arith, before_irrefl s)

pub before_asym : (a b : Text) → before a b ≡ true → before b a ≡ false
unfolding before
before_asym [] [] h = refl
before_asym [] (d ∷ t) h = refl
before_asym (c ∷ s) [] h = cc
before_asym (c ∷ s) (d ∷ t) h = ground (arith, before_asym s t)

pub before_trans : (a b c : Text) → before a b ≡ true → before b c ≡ true → before a c ≡ true
unfolding before
before_trans [] [] c h k = k
before_trans [] (d ∷ t) [] h k = cc
before_trans [] (d ∷ t) (e ∷ u) h k = refl
before_trans (c ∷ s) [] u h k = cc
before_trans (c ∷ s) (d ∷ t) [] h k = cc
before_trans (c ∷ s) (d ∷ t) (e ∷ u) h k = ground (arith, before_trans s t u)

-- Two strings, neither before the other, are equal.
pub before_total : (a b : Text) → before a b ≡ false → before b a ≡ false → a ≡ b
unfolding before
before_total [] [] h k = refl
before_total [] (d ∷ t) h k = cc
before_total (c ∷ s) [] h k = cc
before_total (c ∷ s) (d ∷ t) h k = ground (arith, before_total s t)

at_most_cases : (a b : Text) → before b a ≡ false → (before a b ≡ true) ⊎ (a ≡ b)
at_most_cases a b h = ground (arith, before_total a b)

-- a <= b and b < c
pub before_le_trans : (a b c : Text) → before b a ≡ false → before b c ≡ true → before a c ≡ true
before_le_trans a b c h k = elim (at_most_cases a b h) [
  | inl lt ↦ before_trans a b c lt k
  | inr e ↦ rw e k
]

-- a < b and b <= c
pub before_trans_le : (a b c : Text) → before a b ≡ true → before c b ≡ false → before a c ≡ true
before_trans_le a b c h k = elim (at_most_cases b c k) [
  | inl lt ↦ before_trans a b c h lt
  | inr e ↦ rw (← e) h
]

-- a <= b and b <= c
pub at_most_trans : (a b c : Text) → before b a ≡ false → before c b ≡ false → before c a ≡ false
at_most_trans a b c h k = elim (at_most_cases a b h) [
  | inl lt ↦ before_asym a c (before_trans_le a b c lt k)
  | inr e ↦ rw e k
]
