-- ===== src/Js/Civil/Years.antt =====
-- Every day lies in exactly one year, which `year_of` finds.
use Prim.Native.Nat.{ℕ, zero, suc, ◌+◌, ◌-◌, ◌*◌, ◌/◌, ◌≤◌, ◌<◌}
use mathlib.Core.Path.{◌≡◌, refl}
use native.Mathlib.Omega.{arith}
use mathlib.Core.Logic.{◌⊎◌, inl, inr}
use sahel.Js.Civil.{leap_days, day_from_year, year_of}

pub leap_days-le : (y : ℕ) → leap_days y ≤ 1
unfolding leap_days
leap_days-le y = ground arith

-- The closed form of the first day agrees with the leap-year rule.
pub day_from_year-suc : (y : ℕ) → day_from_year (suc y) ≡ day_from_year y + 365 + leap_days y
unfolding day_from_year leap_days
day_from_year-suc y = ground arith

pub day_from_year-add_one : (y : ℕ) → day_from_year (y + 1) ≡ day_from_year y + 365 + leap_days y
unfolding day_from_year leap_days
day_from_year-add_one y = ground arith

pub day_from_year_mono : (k y : ℕ) → day_from_year y + 365 * k ≤ day_from_year (y + k)
unfolding day_from_year
day_from_year_mono k y = omega arith

-- The next year starts no later than any later year.
pub later_year : (y z : ℕ) → y < z → day_from_year (y + 1) ≤ day_from_year z
later_year y z lt =
    let k = z - suc y in
    let e : y + 1 + k ≡ z = omega arith in
    let h : day_from_year (y + 1) ≤ day_from_year (y + 1 + k) =
      omega (arith, day_from_year_mono k (y + 1)) in
    rw e at h

compare_years : (y z : ℕ) → ((y < z) ⊎ (z < y)) ⊎ (y ≡ z)
compare_years y z = grind arith

-- The first day of a year against the average length of the years before.
day_from_year_bounds :
    (y : ℕ)
    → (146097 * y ≤ 400 * day_from_year y + 1000) × (400 * day_from_year y ≤ 146097 * y + 1000)
unfolding day_from_year
day_from_year_bounds y = omega arith

-- The quotient by the average length of a year is off by at most one.
quotient_bounds :
    (d y : ℕ) → y ≡ d * 400 / 146097 → (day_from_year (y - 1) ≤ d) × (d < day_from_year (y + 2))
unfolding day_from_year
quotient_bounds d zero e = omega arith
quotient_bounds d (suc y) e =
    let below : day_from_year (suc y - 1) ≤ d = omega arith in
    let above : d < day_from_year (suc y + 2) = omega arith in (below, above)

-- The day lies in the year that `year_of` gives.
pub year_of_lem : (d : ℕ) → (day_from_year (year_of d) ≤ d) × (d < day_from_year (year_of d + 1))
unfolding year_of
year_of_lem d = ground (arith, quotient_bounds d (d * 400 / 146097) refl)

-- It lies in no other.
pub year_of_unique : (d y : ℕ) → day_from_year y ≤ d → d < day_from_year (y + 1) → year_of d ≡ y
year_of_unique d y lo hi = elim (compare_years (year_of d) y) [
  | inl (inl lt) ↦ absurd (omega (arith, year_of_lem d, later_year (year_of d) y lt))
  | inl (inr gt) ↦ absurd (omega (arith, year_of_lem d, later_year y (year_of d) gt))
  | inr e ↦ e
]
