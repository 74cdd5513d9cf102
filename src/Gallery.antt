-- ===== src/Gallery.antt =====
-- web/src/app/[locale]/(public)/unit/[slug]/gallery.tsx: which photo of a unit the lightbox shows.
-- A page without photos has none. Places of the pointer are whole pixels.
pub mod Laws
mod Tests
use sahel.Common.{
  ℕ, ◌+◌, ◌-◌, ◌%◌, Bool, true, false, not, Option, none, some, List, [], ◌∷◌, ltb, if◌then◌else◌,
}
use sahel.Common.Lists.{take}

pub record State : Type 0 where
  pub is_open : Bool
  pub index : ℕ
  -- where a swipe started
  pub swipe_start : Option ℕ

abbrev pub initial_state : State
initial_state = record { is_open = false; index = 0; swipe_start = none }

pub data Direction : Type 0 where
  forward : Direction
  backward : Direction

-- (i + delta + total) % total, for the delta 1 or -1.
unfoldable pub moved : ℕ → Direction → ℕ → ℕ
moved total forward i = (i + 1 + total) % total
moved total backward i = (i + total - 1) % total

-- The photos of the page.
abbrev pub shown {ℓ} : {A : Type ℓ} → List A → List A
shown images = take 5 images

pub data Arrow : Type 0 where
  right : Arrow
  left : Arrow

unfoldable pub arrow_direction : Bool → Arrow → Direction
arrow_direction rtl right = if rtl then backward else forward
arrow_direction rtl left = if rtl then forward else backward

-- Math.abs(end - start)
abbrev pub distance : ℕ → ℕ → ℕ
distance start end = if ltb end start then start - end else end - start

-- (dx < 0) !== rtl
abbrev pub goes_forward : Bool → ℕ → ℕ → Bool
goes_forward rtl start end = if rtl then not (ltb end start) else ltb end start

-- The direction of a swipe, which is none when it is short.
unfoldable pub swipe_direction : Bool → ℕ → ℕ → Option Direction
swipe_direction rtl start end =
    if ltb (distance start end) 40
    then none
    else some (if goes_forward rtl start end then forward else backward)

module _ (rtl : Bool) (total : ℕ) where
  unfoldable pub step : Direction → State → State
  step d s = record s { index = moved total d s.index }

  abbrev pub swiped : Option Direction → State → State
  swiped none s = s
  swiped (some d) s = step d s

  abbrev pub lifted : Option ℕ → ℕ → State → State
  lifted none end s = s
  lifted (some start) end s =
      swiped (swipe_direction rtl start end) (record s { swipe_start = none })

  pub data Event : Type 0 where
    -- a photo of the page, or the button of all photos at the first
    opens : (i : ℕ) → Event
    closes : Event
    arrows : (a : Arrow) → Event
    buttons : (d : Direction) → Event
    thumbs : (i : ℕ) → Event
    presses : (x : ℕ) → Event
    lifts : (x : ℕ) → Event

  -- A photo that is pressed is one of the photos.
  unfoldable pub next : State → Event → State
  next s (opens i) = if ltb i total then record s { is_open = true; index = i } else s
  next s closes = record s { is_open = false }
  next s (arrows a) = step (arrow_direction rtl a) s
  next s (buttons d) = step d s
  next s (thumbs i) = if ltb i total then record s { index = i } else s
  next s (presses x) = record s { swipe_start = some x }
  next s (lifts x) = lifted s.swipe_start x s

  -- The state after events, the last of which is the first of the list.
  unfoldable pub after : List Event → State
  after [] = initial_state
  after (e ∷ events) = next (after events) e
