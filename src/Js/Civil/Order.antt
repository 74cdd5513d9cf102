-- ===== src/Js/Civil/Order.antt =====
-- Calendar order is the order of day numbers.
use Prim.Native.Nat.{ℕ, zero, suc, ◌+◌, ◌-◌, ◌≤◌, ◌<◌}
use mathlib.Core.Path.{◌≡◌}
use mathlib.Core.Logic.{◌⊎◌, inl, inr}
use mathlib.Core.Bool.{true, false}
use mathlib.Core.List.{List, [], ◌∷◌}
use native.Mathlib.Omega.{arith}
use sahel.Common.Lists.{length, get_or}
use sahel.Js.Civil.{
  leap_days, month_lengths, start_of, Civil, days_in_month, IsValid, day_number, earlier,
}
use sahel.Js.Civil.Years.{later_year}
use sahel.Js.Civil.Months.{day_in_year, length-month_lengths}

-- A month starts after the end of each month before it.
start_of_mono :
    (ls : List ℕ) (i j : ℕ) → i < j → j < length ls → start_of ls i + get_or ls i 0 ≤ start_of ls j
unfolding start_of
start_of_mono [] i j h k = absurd (omega arith)
start_of_mono (n ∷ ls) i zero h k = absurd (omega arith)
start_of_mono (n ∷ ls) zero (suc j) h k = omega arith
start_of_mono (n ∷ ls) (suc i) (suc j) h k = omega (arith, start_of_mono ls i j)

module _ (a b : Civil) (va : IsValid a) (vb : IsValid b) where
  by_year : a.year < b.year → day_number a < day_number b
  by_year h = omega (arith, day_in_year a va, day_in_year b vb, later_year a.year b.year h)

  by_month : a.year ≡ b.year → a.month < b.month → day_number a < day_number b
  unfolding day_number days_in_month
  by_month e h =
      let ls = month_lengths (leap_days b.year) in
      let sooner : start_of ls (a.month - 1) + get_or ls (a.month - 1) 0
          ≤ start_of ls (b.month - 1) =
        start_of_mono ls (a.month - 1) (b.month - 1) (omega (arith, va.month_in))
          (omega (arith, vb.month_in, length-month_lengths (leap_days b.year))) in
      let short : a.day ≤ get_or ls (a.month - 1) 0 = simp (← e) va.day_in.1 in
      rw e (omega (arith, va.day_in, vb.day_in))

  by_day : a.year ≡ b.year → a.month ≡ b.month → a.day < b.day → day_number a < day_number b
  unfolding day_number
  by_day e f h = rw (e, f) (omega (arith, va.day_in))

  pub earlier-lt : earlier a b ≡ true → day_number a < day_number b
  unfolding earlier
  earlier-lt h = ground (arith, by_year, by_month, by_day)

  same_day : a.year ≡ b.year → a.month ≡ b.month → a.day ≡ b.day → day_number a ≡ day_number b
  unfolding day_number
  same_day e f g = rw (e, f, g)

  later_cases :
      earlier a b ≡ false
      → (earlier b a ≡ true) ⊎ ((a.year ≡ b.year) × (a.month ≡ b.month) × (a.day ≡ b.day))
  unfolding earlier
  later_cases h = ground arith

-- And what is not earlier is not smaller.
pub earlier-le :
    (a b : Civil) → IsValid a → IsValid b → earlier a b ≡ false → day_number b ≤ day_number a
earlier-le a b va vb h = elim (later_cases a b va vb h) [
  | inl late ↦ omega (arith, earlier-lt b a vb va late)
  | inr (e, f, g) ↦ omega (arith, same_day a b va vb e f g)
]
