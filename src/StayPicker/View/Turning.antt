-- ===== src/StayPicker/View/Turning.antt =====
-- The months that the buttons lead to.
use sahel.Common.{ℕ, ◌+◌, ◌/◌, ◌%◌, ◌≤◌, ◌<◌, ◌≡◌, ap, ◌∙◌, Option, some, [], ◌∷◌, arith}
use sahel.Common.Int.{pos, negsuc}
use sahel.Calendar.{Month}
use sahel.Calendar.Months.{add_months_lem}
use sahel.StayPicker.View.{turned, turn_back, turn_on, months}

-- The month by its number, counted from January of the year 0.
abbrev pub month_at : ℕ → Month
month_at k = record { year = pos (k / 12); month = k % 12 + 1 }

turn_on_lem :
    (k : ℕ) → 1200 ≤ k → k < 119999 → turn_on (some (month_at k)) ≡ some (month_at (k + 1))
unfolding turn_on
turn_on_lem k h g =
    add_months_lem (k / 12) (k % 12 + 1) ((k + 1) / 12) ((k + 1) % 12 + 1) (pos 1)
      (omega (arith, h)) (omega arith) (omega (arith, h), omega (arith, g))
      (omega arith, omega arith) (omega arith)

turn_back_lem :
    (k : ℕ) → 1200 ≤ k → k < 119999 → turn_back (some (month_at (k + 1))) ≡ some (month_at k)
unfolding turn_back
turn_back_lem k h g =
    add_months_lem ((k + 1) / 12) ((k + 1) % 12 + 1) (k / 12) (k % 12 + 1) (negsuc 0)
      (omega (arith, h)) (omega arith) (omega (arith, h), omega (arith, g))
      (omega arith, omega arith) (omega arith)

turned_on :
    (k : ℕ) → 1200 ≤ k → k < 119999 → turned (pos 1) (some (month_at k)) ≡ some (month_at (k + 1))
unfolding turn_on
turned_on k h g = turn_on_lem k h g

-- The buttons lead back and forth between a month and the next, and the second month is the next.
pub turn_back-turn_on :
    (k : ℕ)
    → 1200 ≤ k
    → k < 119999
    → (turn_back (turn_on (some (month_at k))) ≡ some (month_at k))
      × (turn_on (turn_back (some (month_at (k + 1)))) ≡ some (month_at (k + 1)))
      × (months (some (month_at k)) ≡ some (month_at k) ∷ some (month_at (k + 1)) ∷ [])
unfolding months
turn_back-turn_on k h g =
    let on = turn_on_lem k h g in
    let back = turn_back_lem k h g in
    (
      ap turn_back on ∙ back,
      ap turn_on back ∙ on,
      ap (λ (m : Option Month). some (month_at k) ∷ m ∷ []) (turned_on k h g),
    )
