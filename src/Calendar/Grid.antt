-- ===== src/Calendar/Grid.antt =====
-- The weeks of a month: seven cells each, with every day of the month in the column of its weekday.
use Prim.Native.Nat.{zero}
use sahel.Common.{
  ℕ, suc, ◌+◌, ◌-◌, ◌/◌, ◌%◌, ◌≤◌, ◌<◌, ◌≡◌, refl, sym, ◌∙◌, inl, inr, ◌⊎◌, false, Option, none,
  List, [], ◌∷◌, ◌++◌, arith, ◌==◌, Bool-cases,
}
use sahel.Common.Lists.{length, get_or, replicate, length-append}
use mathlib.Core.List.{append-nil, append_assoc}
use sahel.Js.Text.{Text}
use sahel.Js.Civil.{civil, day_number, days_in_month, month_lengths, start_of, leap_days}
use sahel.Js.Civil.Years.{day_from_year-add_one}
use sahel.Js.Civil.{day_from_year}
use sahel.Js.Civil.Months.{length-month_lengths}
use sahel.Calendar.{fill_week}
use sahel.Calendar.Months.{first_of}

start_of-suc :
    (ls : List ℕ) (i : ℕ) → i < length ls → start_of ls (suc i) ≡ start_of ls i + get_or ls i 0
unfolding start_of
start_of-suc [] i h = absurd (omega arith)
start_of-suc (n ∷ []) zero h = omega arith
start_of-suc (n ∷ m ∷ ls) zero h = omega arith
start_of-suc (n ∷ ls) (suc i) h = omega (arith, start_of-suc ls i)

start_of_end : (leap : ℕ) → start_of (month_lengths leap) 12 ≡ 365 + leap
unfolding start_of month_lengths
start_of_end leap = omega arith

start_of_zero : (ls : List ℕ) → start_of ls 0 ≡ 0
unfolding start_of
start_of_zero [] = refl
start_of_zero (n ∷ ls) = refl

module _ (y i : ℕ) where
  abbrev lengths : List ℕ
  lengths = month_lengths (leap_days y)

  next_in_year :
      i < 12
      → day_from_year y + start_of lengths (suc i)
        ≡ day_number (civil y (i + 1) 1) + days_in_month y (i + 1)
  unfolding day_number days_in_month
  next_in_year h =
      let e : i + 1 - 1 ≡ i = omega arith in
      let step = start_of-suc lengths i (omega (arith, length-month_lengths (leap_days y))) in
      rw e (omega (arith, step))

  next_month :
      i < 11 → day_number (civil y (i + 1 + 1) 1) ≡ day_from_year y + start_of lengths (suc i)
  unfolding day_number
  next_month h = let e : i + 1 + 1 - 1 ≡ suc i = omega arith in rw e (omega arith)

  next_year : i ≡ 11 → day_number (civil (y + 1) 1 1) ≡ day_from_year y + start_of lengths (suc i)
  unfolding day_number
  next_year e =
      rw (e, start_of_end (leap_days y))
        (omega (arith, day_from_year-add_one y, start_of_zero (month_lengths (leap_days (y + 1)))))

-- The first of the next month comes after the last day of this one.
pub next_first :
    (k : ℕ)
    → day_number (first_of (k + 1)) ≡ day_number (first_of k) + days_in_month (k / 12) (k % 12 + 1)
next_first k = elim (Bool-cases (k % 12 == 11)) [
  | inl last ↦
      let year : (k + 1) / 12 ≡ k / 12 + 1 = ground arith in
      let month : (k + 1) % 12 ≡ 0 = ground arith in
      let zero_one : 0 + 1 ≡ 1 = omega arith in
      rw (year, month, zero_one)
        (next_year (k / 12) (k % 12) (ground arith) ∙ next_in_year (k / 12) (k % 12) (omega arith))
  | inr inside ↦
      let year : (k + 1) / 12 ≡ k / 12 = ground arith in
      let month : (k + 1) % 12 ≡ k % 12 + 1 = ground arith in
      rw (year, month)
        (next_month (k / 12) (k % 12) (ground arith) ∙ next_in_year (k / 12) (k % 12) (omega arith))
]

-- Cells padded at the end to whole weeks.
pub fill_week_lem :
    (fuel : ℕ) (cells : List (Option Text))
    → (length cells % 7 ≡ 0) ⊎ (7 - length cells % 7 ≤ fuel)
    → (trail : ℕ) × (fill_week fuel cells ≡ cells ++ replicate trail none)
      × ((length cells + trail) % 7 ≡ 0)
      × (trail ≤ fuel)
unfolding fill_week
fill_week_lem zero cells (inl whole) = (0, sym (append-nil cells), omega arith, omega arith)
fill_week_lem zero cells (inr more) = absurd (omega arith)
fill_week_lem (suc fuel) cells h = elim (Bool-cases (length cells % 7 == 0)) [
  | inl whole ↦ (0, rw whole (sym (append-nil cells)), ground arith, omega arith)
  | inr part ↦
      let longer : length (cells ++ none ∷ []) ≡ length cells + 1 =
        length-append cells (none ∷ []) in
      let left : (length (cells ++ none ∷ []) % 7 ≡ 0)
          ⊎ (7 - length (cells ++ none ∷ []) % 7 ≤ fuel) =
        rw longer (room (length cells) fuel part h) in
      let (trail, filled, whole, few) = fill_week_lem fuel (cells ++ none ∷ []) left in
      (
        suc trail,
        rw part (filled ∙ append_assoc cells (none ∷ []) (replicate trail none)),
        omega (arith, longer),
        omega arith,
      )
]
  where
    room :
        (n fuel : ℕ)
        → (n % 7 == 0) ≡ false
        → (n % 7 ≡ 0) ⊎ (7 - n % 7 ≤ suc fuel)
        → ((n + 1) % 7 ≡ 0) ⊎ (7 - (n + 1) % 7 ≤ fuel)
    room n fuel part h = ground arith
