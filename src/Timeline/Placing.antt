-- ===== src/Timeline/Placing.antt =====
-- Where `place` puts a stay among the columns of the timeline.
use Prim.Native.Nat.{min, max}
use sahel.Common.{
  ℕ, ◌+◌, ◌-◌, ◌≤◌, ◌<◌, ◌≡◌, refl, ap, ◌⊎◌, ◌↔◌, inl, inr, not, ◌||◌, Option, none, some, arith,
  if◌then◌else◌, ltb, Bool-cases,
}
use sahel.Common.Int.{ℤ, pos, sub_ℕ}
use sahel.Js.Text.{Text}
use sahel.Js.Date.Shift.{InRange}
use sahel.Js.Date.Days.{day_text, before-day_text}
use sahel.Timeline.{Placement, place}
use sahel.Timeline.Days.{add_days_lem, nights_between_lem}

-- The answer draws a bar over the column.
abbrev pub Covers : Option (Option Placement) → ℕ → Type 0
Covers none i = ⊥
Covers (some none) i = ⊥
Covers (some (some p)) i =
    (c : ℕ) × (l : ℕ) × (p.col ≡ some (pos c)) × (p.span ≡ some (pos l)) × (c ≤ i) × (i < c + l)

module _ (engine : Text → Option ℤ) (s e f n : ℕ) (rs : InRange s) (re : InRange e) (rf : InRange f)
    (rt : InRange (f + n)) where
  abbrev answer : Option (Option Placement)
  answer = place engine (day_text s) (day_text e) (day_text f) n

  abbrev bar : Placement
  bar = record {
    col = some (pos (max s f - f));
    span = some (pos (min e (f + n) - max s f));
    clipped_start = ltb s f;
    clipped_end = ltb (f + n) e;
  }

  first_text : (if ltb s f then day_text f else day_text s) ≡ day_text (max s f)
  first_text = elim (Bool-cases (ltb s f)) [
    | inl lt ↦ rw lt (ap day_text (ground arith))
    | inr ge ↦ rw ge (ap day_text (ground arith))
  ]

  last_text : (if ltb (f + n) e then day_text (f + n) else day_text e) ≡ day_text (min e (f + n))
  last_text = elim (Bool-cases (ltb (f + n) e)) [
    | inl lt ↦ rw lt (ap day_text (ground arith))
    | inr ge ↦ rw ge (ap day_text (ground arith))
  ]

  first_in : InRange (max s f)
  first_in = omega (arith, rs, rf)

  last_in : InRange (min e (f + n))
  last_in = omega (arith, re, rt)

  -- The answer with the texts read as day numbers.
  place_numbers :
      answer
      ≡ some (
          if not (ltb f e) || not (ltb s (f + n)) || not (ltb s e)
          then none
          else some (record {
            col = some (sub_ℕ (max s f) f);
            span = some (sub_ℕ (min e (f + n)) (max s f));
            clipped_start = ltb s f;
            clipped_end = ltb (f + n) e;
          }))
  unfolding place
  place_numbers = rw (
    add_days_lem engine f (f + n) (pos n) rf rt (omega arith),
    before-day_text s f rs rf,
    before-day_text (f + n) e rt re,
    first_text,
    last_text,
    nights_between_lem engine f (max s f) rf first_in,
    nights_between_lem engine (max s f) (min e (f + n)) first_in last_in,
    before-day_text f e rf re,
    before-day_text s (f + n) rs rt,
    before-day_text s e rs re,
  )

  -- A stay with a night among the columns is drawn, cut off at both ends of the visible days.
  pub place_visible : s < e → f < e → s < f + n → answer ≡ some (some bar)
  place_visible h k l =
      let low : sub_ℕ (max s f) f ≡ pos (max s f - f) = ground arith in
      let wide : sub_ℕ (min e (f + n)) (max s f) ≡ pos (min e (f + n) - max s f) = ground arith in
      rw (place_numbers, low, wide) (ground arith)

  -- Any other stay is not drawn.
  pub place_hidden : (e ≤ f) ⊎ (f + n ≤ s) ⊎ (e ≤ s) → answer ≡ some none
  place_hidden h = rw place_numbers (ground arith)

  bar-Covers :
      (i : ℕ)
      → s < e
      → f < e
      → s < f + n
      → Covers (some (some bar)) i ↔ ((i < n) × (s ≤ f + i) × (f + i < e))
  bar-Covers i h k l = (
    λ covers. ground (arith, covers.2, covers.3, covers.4, covers.5),
    λ within. (max s f - f, min e (f + n) - max s f, refl, refl, omega arith, omega arith),
  )

  visible_cases : ((s < e) × (f < e) × (s < f + n)) ⊎ ((e ≤ f) ⊎ (f + n ≤ s) ⊎ (e ≤ s))
  visible_cases = grind arith

  -- For a stay from day s to day e, seen in a window of n days from day f, and every one of these
  -- days and the day after the window in the range of plain dates: place draws a bar over a column
  -- exactly when the column is in the window and its night belongs to the stay. So a bar never
  -- leaves the window at either end, and none is drawn for a stay without a night in it.
  pub place-Covers : (i : ℕ) → Covers answer i ↔ ((i < n) × (s ≤ f + i) × (f + i < e))
  place-Covers i = elim visible_cases [
    | inl (h, k, l) ↦ rw (place_visible h k l) (bar-Covers i h k l)
    | inr hidden ↦ rw (place_hidden hidden) (λ none_drawn. absurd none_drawn, λ within. omega arith)
  ]
