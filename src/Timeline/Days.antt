-- ===== src/Timeline/Days.antt =====
-- Moving and listing days.
use sahel.Common.{
  ℕ, zero, suc, ◌+◌, ◌≡◌, refl, ap, inl, inr, Option, some, List, [], ◌∷◌, arith, if◌then◌else◌,
  ltb,
}
use Prim.Native.Nat.{◌-◌, min, max}
use sahel.Common.{Bool-cases}
use sahel.Common.Int.{ℤ, pos, pos_part, neg_part, sub_ℕ}
use sahel.Js.Text.{Text}
use sahel.Js.Date.Shift.{InRange, move_days_lem, round_days_lem}
use sahel.Js.Date.Days.{
  day_text, parse-day_text, parse-midnight-day_text, iso_time-day_text, before-day_text,
}
use sahel.Timeline.{add_days, days_from, day_range, nights_between, selection}

module _ (engine : Text → Option ℤ) where
  -- The number of the day moves by `n`, over the ends of months and years.
  pub add_days_lem :
      (d e : ℕ) (n : ℤ)
      → InRange d
      → InRange e
      → d + pos_part n ≡ e + neg_part n
      → add_days engine (day_text d) n ≡ some (day_text e)
  unfolding add_days
  add_days_lem d e n rd re moved =
      rw (parse-midnight-day_text d rd engine, move_days_lem d n e moved re, iso_time-day_text e re)

  -- The nights between two days are the difference of their numbers.
  pub nights_between_lem :
      (a b : ℕ)
      → InRange a
      → InRange b
      → nights_between engine (day_text a) (day_text b) ≡ some (sub_ℕ b a)
  unfolding nights_between
  nights_between_lem a b ra rb =
      rw (parse-day_text a ra engine, parse-day_text b rb engine, round_days_lem a b)

  abbrev pub texts_from : ℕ → ℕ → List Text
  texts_from d zero = []
  texts_from d (suc count) = day_text d ∷ texts_from (suc d) count

  days_from_lem :
      (d count i j : ℕ)
      → d + i ≡ j
      → InRange d
      → InRange (j + count)
      → days_from engine (day_text d) count i ≡ some (texts_from j count)
  unfolding days_from
  days_from_lem d zero i j e rd re = refl
  days_from_lem d (suc count) i j e rd re = rw (
    add_days_lem d j (pos i) rd (omega (arith, rd, re)) (omega arith),
    days_from_lem d count (i + 1) (suc j) (omega arith) rd (omega (arith, rd, re)),
  )

  -- For days in the range of plain dates, dayRange lists exactly count days, in order, from the
  -- first day on and each a day after the one before.
  pub day_range_lem :
      (d count : ℕ)
      → InRange d
      → InRange (d + count)
      → day_range engine (day_text d) count ≡ some (texts_from d count)
  unfolding day_range
  day_range_lem d count rd re = days_from_lem d count 0 d (omega arith) rd re

  first_text : (a b : ℕ) → (if ltb a b then day_text a else day_text b) ≡ day_text (min a b)
  first_text a b = elim (Bool-cases (ltb a b)) [
    | inl lt ↦ rw lt (ap day_text (ground arith))
    | inr ge ↦ rw ge (ap day_text (ground arith))
  ]

  last_text : (a b : ℕ) → (if ltb a b then day_text b else day_text a) ≡ day_text (max a b)
  last_text a b = elim (Bool-cases (ltb a b)) [
    | inl lt ↦ rw lt (ap day_text (ground arith))
    | inr ge ↦ rw ge (ap day_text (ground arith))
  ]

  -- Two clicks on days in the range of plain dates, in either order, select the days from the
  -- earlier to the later one: the end is the day after the later one, and the nights are as many
  -- as the days.
  pub selection_lem :
      (a b : ℕ)
      → InRange a
      → InRange b
      → InRange (max a b + 1)
      → selection engine (day_text a) (day_text b)
        ≡ some (record {
          start = day_text (min a b);
          end = day_text (max a b + 1);
          nights = some (pos (max a b + 1 - min a b));
        })
  unfolding selection
  selection_lem a b ra rb re =
      let low : InRange (min a b) = omega (arith, ra, rb) in
      let high : InRange (max a b) = omega (arith, ra, rb) in
      let count : sub_ℕ (max a b + 1) (min a b) ≡ pos (max a b + 1 - min a b) = ground arith in
      rw (
        before-day_text a b ra rb,
        first_text a b,
        last_text a b,
        add_days_lem (max a b) (max a b + 1) (pos 1) high re (omega arith),
        nights_between_lem (min a b) (max a b + 1) low re,
        count,
      )
