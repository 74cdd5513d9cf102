-- ===== src/Calendar/Weeks.antt =====
-- The grid of a month as a whole.
use Prim.Native.Nat.{zero}
use mathlib.Core.List.{flatten}
use native.Mathlib.Nat.{le_refl}
use sahel.Common.{
  ◌⊎◌, ℕ, suc, ◌+◌, ◌-◌, ◌*◌, ◌/◌, ◌%◌, ◌≤◌, ◌<◌, ◌≡◌, refl, ap, ◌∙◌, Option, none, some, List, [],
  ◌∷◌, ◌++◌, arith,
}
use sahel.Common.Int.{pos, sub_ℕ}
use sahel.Common.Lists.{length, get_or, take, drop, replicate, All, length-append, length-replicate}
use sahel.Js.Text.{Text}
use sahel.Js.Civil.{Civil, civil, day_number, civil_of, days_in_month, IsValid}
use sahel.Js.Civil.Months.{civil_of-day_number}
use sahel.Js.Date.{ms_per_day, year_shift, weekday_of}
use sahel.Js.Date.Shift.{InRange, day_number-InRange}
use sahel.Js.Date.Days.{day_text, iso_time-day_text}
use sahel.Calendar.{
  weekday_order, index_of, utc, utc_date, day_cells, fill_week, slices, month_grid,
}
use sahel.Calendar.Months.{
  first_of, first_of-IsPlain, count_time_lem, month_count_lem, sub_ℕ-pos, first_of_month,
}
use sahel.Calendar.Grid.{next_first, fill_week_lem}

module _ {ℓ} {A : Type ℓ} where
  take-drop : (n : ℕ) (xs : List A) → take n xs ++ drop n xs ≡ xs
  take-drop zero xs = refl
  take-drop (suc n) [] = refl
  take-drop (suc n) (x ∷ xs) = rw (take-drop n xs)

  take-drop_lengths :
      (n : ℕ) (xs : List A)
      → n ≤ length xs
      → (length (take n xs) ≡ n) × (length (drop n xs) + n ≡ length xs)
  take-drop_lengths zero xs h = omega arith
  take-drop_lengths (suc n) [] h = absurd (omega arith)
  take-drop_lengths (suc n) (x ∷ xs) h = omega (arith, take-drop_lengths n xs (omega arith))

-- Whole weeks are cut into weeks of seven, and nothing is lost.
slices_lem :
    (fuel : ℕ) (cells : List (Option Text))
    → length cells ≤ fuel
    → length cells % 7 ≡ 0
    → All (λ week. length week ≡ 7) (slices fuel cells) × (flatten (slices fuel cells) ≡ cells)
unfolding slices flatten
slices_lem zero [] h e = (tt, refl)
slices_lem zero (c ∷ cells) h e = absurd (omega arith)
slices_lem (suc fuel) [] h e = (tt, refl)
slices_lem (suc fuel) (c ∷ cells) h e =
    let lengths = take-drop_lengths 7 (c ∷ cells) (omega arith) in
    let (rest, same) = slices_lem fuel (drop 7 (c ∷ cells)) (omega arith) (omega arith) in
    ((lengths.0, rest), rw same (take-drop 7 (c ∷ cells)))

-- The column of a weekday.
column : (w : ℕ) → w < 7 → index_of w weekday_order ≡ some ((w + 1) % 7)
unfolding index_of
column w h = ground arith

-- The cells of `count` days from the day `d` on.
abbrev pub cells_from : ℕ → ℕ → List (Option Text)
cells_from d zero = []
cells_from d (suc count) = some (day_text d) ∷ cells_from (suc d) count

-- A list of cells, padded and cut into weeks.
whole_weeks :
    (cells : List (Option Text))
    → (trail : ℕ) × All
        (λ week. length week ≡ 7)
        (slices (length (fill_week 6 cells)) (fill_week 6 cells))
      × (flatten (slices (length (fill_week 6 cells)) (fill_week 6 cells))
          ≡ cells ++ replicate trail none)
      × (trail < 7)
whole_weeks cells =
    let (trail, filled, whole, few) = fill_week_lem 6 cells (room (length cells)) in
    let size : length (fill_week 6 cells) ≡ length cells + trail =
      ap length filled
      ∙ length-append cells (replicate trail none)
      ∙ ap (λ n. length cells + n) (length-replicate trail none) in
    let (sevens, same) =
      slices_lem (length (fill_week 6 cells)) (fill_week 6 cells) (le_refl _)
        (ap (λ n. n % 7) size ∙ whole) in
    (trail, sevens, same ∙ filled, omega arith)
  where
    room : (n : ℕ) → (n % 7 ≡ 0) ⊎ (7 - n % 7 ≤ 6)
    room n = grind arith

utc_date_lem : (c : Civil) → IsValid c → utc_date (day_number c * ms_per_day) ≡ c.day
utc_date_lem c v =
    let whole : day_number c * ms_per_day / ms_per_day ≡ day_number c = omega arith in
    ap (λ (d : ℕ). (civil_of d).day) whole ∙ ap (λ (x : Civil). x.day) (civil_of-day_number c v)

weekday_of-lt : (d : ℕ) → weekday_of d < 7
unfolding weekday_of
weekday_of-lt d = omega arith

weekday_at : (c : ℕ) → c < 7 → get_or weekday_order c 0 ≡ (c + 6) % 7
weekday_at zero h = refl
weekday_at (suc zero) h = refl
weekday_at (suc (suc zero)) h = refl
weekday_at (suc (suc (suc zero))) h = refl
weekday_at (suc (suc (suc (suc zero)))) h = refl
weekday_at (suc (suc (suc (suc (suc zero))))) h = refl
weekday_at (suc (suc (suc (suc (suc (suc zero)))))) h = refl
weekday_at (suc (suc (suc (suc (suc (suc (suc c))))))) h = absurd (omega arith)

-- The first day, the length and the leading blanks of a month, counted from 0.
abbrev pub month_first : ℕ → ℕ → ℕ
month_first y m = day_number (civil (year_shift + y) (m + 1) 1)

abbrev pub month_length : ℕ → ℕ → ℕ
month_length y m = days_in_month (year_shift + y) (m + 1)

abbrev pub month_lead : ℕ → ℕ → ℕ
month_lead y m = (weekday_of (month_first y m) + 1) % 7

-- A month of the years 100 to 9998, with the month counted from 0.
module _ (y m : ℕ) (hy : (100 ≤ y) × (y < 9999)) (hm : m < 12) where
  abbrev k : ℕ
  k = (year_shift + y) * 12 + m

  abbrev first : ℕ
  first = month_first y m

  abbrev count : ℕ
  count = month_length y m

  first_is : (first ≡ day_number (first_of k)) × (count ≡ days_in_month (k / 12) (k % 12 + 1))
  first_is =
      let a : k / 12 ≡ year_shift + y = omega arith in
      let b : k % 12 ≡ m = omega arith in rw (a, b) (refl, refl)

  next_in : InRange (day_number (first_of (k + 1)))
  next_in = day_number-InRange (first_of (k + 1)) (first_of-IsPlain (k + 1) (omega arith))

  month_in : InRange first × InRange (first + count)
  month_in =
      let r = day_number-InRange (first_of k) (first_of-IsPlain k (omega arith)) in
      omega (arith, r, next_in, next_first k, first_is)

  -- Date.UTC at a day of the month.
  utc_day :
      (d : ℕ) → 1 ≤ d → d ≤ count → utc (pos y) (pos m) d ≡ some ((first + d - 1) * ms_per_day)
  unfolding utc
  utc_day d h l = rw (month_count_lem y k (pos m) hy.0 (omega arith)) (
      count_time_lem k d (first + d - 1) (omega arith) (omega (arith, month_in))
        (omega (arith, first_is)))

  some_day : 1 ≤ count
  some_day = omega (arith, first_is, (first_of-IsPlain k (omega arith)).valid.day_in.1)

  -- Day 0 of the next month is the last day of this one.
  utc_last : utc (pos y) (pos (m + 1)) 0 ≡ some ((first + count - 1) * ms_per_day)
  unfolding utc
  utc_last = rw (month_count_lem y (k + 1) (pos (m + 1)) hy.0 (omega arith)) (
      count_time_lem (k + 1) 0 (first + count - 1) (omega arith) (omega (arith, month_in, some_day))
        (omega (arith, first_is, next_first k, some_day)))

  last_date : utc_date ((first + count - 1) * ms_per_day) ≡ count
  last_date =
      let c = civil (year_shift + y) (m + 1) count in
      let v : IsValid c = record { month_in = omega arith; day_in = omega (arith, some_day) } in
      let number : first + count - 1 ≡ day_number c = omega (arith, first_of_month c, some_day) in
      ap (λ d. utc_date (d * ms_per_day)) number ∙ utc_date_lem c v

  day_cells_lem :
      (left d : ℕ)
      → 1 ≤ d
      → d + left ≤ count + 1
      → day_cells (pos y) (m + 1) left d ≡ some (cells_from (first + d - 1) left)
  unfolding day_cells
  day_cells_lem zero d h l = refl
  day_cells_lem (suc left) d h l =
      let month : sub_ℕ (m + 1) 1 ≡ pos m = sub_ℕ-pos _ _ _ (omega arith) in
      let next : first + (d + 1) - 1 ≡ suc (first + d - 1) = omega arith in
      rw (
        month,
        utc_day d h (omega arith),
        day_cells_lem left (d + 1) (omega arith) (omega arith),
        iso_time-day_text (first + d - 1) (omega (arith, month_in)),
        next,
      )

  -- In the years 100 to 9998 the grid of a month has weeks of seven cells that hold the month's
  -- days in order. Blanks stand only before the first day, which is in the column of its weekday,
  -- and after the last, fewer than seven.
  pub month_grid_lem :
      (weeks : List (List (Option Text))) × (trail : ℕ) × (month_grid (pos y) (m + 1) ≡ some weeks)
      × All (λ week. length week ≡ 7) weeks
      × (flatten weeks
          ≡ (replicate (month_lead y m) none ++ cells_from (month_first y m) (month_length y m))
            ++ replicate trail none)
      × (trail < 7)
      × (get_or weekday_order (month_lead y m) 0 ≡ weekday_of (month_first y m))
  unfolding month_grid
  month_grid_lem =
      let cells = replicate (month_lead y m) none ++ cells_from first count in
      let all = fill_week 6 cells in
      let (trail, sevens, same, few) = whole_weeks cells in
      let month : sub_ℕ (m + 1) 1 ≡ pos m = sub_ℕ-pos _ _ _ (omega arith) in
      let start : first + 1 - 1 ≡ first = omega arith in
      let day : first * ms_per_day / ms_per_day ≡ first = omega arith in
      (
        slices (length all) all,
        trail,
        rw (
          month,
          utc_day 1 (omega arith) some_day,
          utc_last,
          last_date,
          start,
          day,
          column (weekday_of first) (weekday_of-lt first),
          day_cells_lem count 1 (omega arith) (omega arith),
          start,
        ),
        sevens,
        same,
        few,
        rw (weekday_at (month_lead y m) (omega arith)) (omega (arith, weekday_of-lt first)),
      )
