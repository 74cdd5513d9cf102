-- ===== src/Js/Date/Order.antt =====
-- The order of printed days as strings is their order in time.
use Prim.Native.Nat.{ℕ, ◌-◌, ◌<◌}
use mathlib.Core.Path.{◌≡◌, refl}
use mathlib.Core.Logic.{inl, inr}
use mathlib.Core.Bool.{◌&&◌, ◌||◌}
use mathlib.Core.List.{◌∷◌, ◌++◌}
use native.Mathlib.Omega.{arith}
use sahel.Common.{ltb, ◌==◌, Bool-cases}
use sahel.Js.Text.{Text, before}
use sahel.Js.Digits.{pad2, pad4}
use sahel.Js.Civil.{Civil, day_number, earlier}
use sahel.Js.Civil.Order.{earlier-lt, earlier-le}
use sahel.Js.Date.{year_shift, dash, plain_iso}
use sahel.Js.Date.Iso.{IsPlain, day-le_31}

-- One code unit at a time.
before-cons :
    (c d : ℕ) (s t : Text) → before (c ∷ s) (d ∷ t) ≡ (ltb c d || ((c == d) && before s t))
unfolding before
before-cons c d s t = refl

before-pad2 :
    (x y : ℕ) (s t : Text)
    → x < 100
    → y < 100
    → before (pad2 x ++ s) (pad2 y ++ t) ≡ (ltb x y || ((x == y) && before s t))
unfolding pad2 before
before-pad2 x y s t h k = ground arith

before-pad4 :
    (x y : ℕ) (s t : Text)
    → x < 10000
    → y < 10000
    → before (pad4 x ++ s) (pad4 y ++ t) ≡ (ltb x y || ((x == y) && before s t))
unfolding pad4 before
before-pad4 x y s t h k = ground arith

before-dash : (s t : Text) → before (dash ∷ s) (dash ∷ t) ≡ before s t
unfolding before
before-dash s t = refl

before-pad2_last : (x y : ℕ) → x < 100 → y < 100 → before (pad2 x) (pad2 y) ≡ ltb x y
unfolding pad2 before
before-pad2_last x y h k = ground arith

module _ (a b : Civil) (va : IsPlain a) (vb : IsPlain b) where
  before-plain_iso : before (plain_iso a) (plain_iso b) ≡ earlier a b
  unfolding plain_iso earlier
  before-plain_iso =
      rw
        (
          before-pad4 (a.year - year_shift) (b.year - year_shift) _ _ (omega (arith, va.last_year))
              (omega (arith, vb.last_year)),
          before-dash,
          before-pad2 a.month b.month _ _ (omega (arith, va.valid.month_in))
              (omega (arith, vb.valid.month_in)),
          before-dash,
          before-pad2_last a.day b.day (omega (arith, day-le_31 a va.valid))
              (omega (arith, day-le_31 b vb.valid)),
        )
        (ground (arith, va.first_year, vb.first_year))

  -- `<` on the printed days is `<` on the day numbers.
  pub before-ltb : before (plain_iso a) (plain_iso b) ≡ ltb (day_number a) (day_number b)
  before-ltb = elim (Bool-cases (earlier a b)) [
    | inl e ↦ rw (before-plain_iso, e) (ground (arith, earlier-lt a b va.valid vb.valid e))
    | inr e ↦ rw (before-plain_iso, e) (ground (arith, earlier-le a b va.valid vb.valid e))
  ]
