-- ===== src/Gallery/Laws.antt =====
-- The lightbox shows one of the photos.
use sahel.Common.{
  ℕ, zero, suc, ◌+◌, ◌-◌, ◌%◌, ◌<◌, ◌≡◌, ap, ◌∙◌, inl, inr, Bool, Option, none, some, List, [], ◌∷◌,
  ltb, ◌==◌, arith, Bool-cases, if◌then◌else◌,
}
use native.Mathlib.Nat.{mod-eq_of_lt, mod-add-mod, mod-eq-sub-mod}
use sahel.Gallery.{
  State, Direction, forward, backward, moved, arrow_direction, swipe_direction, step, swiped,
  lifted, Event, opens, closes, arrows, buttons, thumbs, presses, lifts, next, after,
}

moved-lt : (total : ℕ) (d : Direction) (i : ℕ) → 0 < total → moved total d i < total
unfolding moved
moved-lt total forward i h = grind arith
moved-lt total backward i h = grind arith

-- One step, in plain terms: the photos stand in a circle.
forward_lem :
    (total i : ℕ) → i < total → moved total forward i ≡ (if ltb (i + 1) total then i + 1 else 0)
unfolding moved
forward_lem total i h =
    let round : (i + 1 + total) % total ≡ (i + 1 + total - total) % total =
      mod-eq-sub-mod {n = i + 1 + total} {m = total} (omega arith) in
    elim (Bool-cases (ltb (i + 1) total)) [
      | inl e ↦ rw e (
          round ∙ mod-eq_of_lt {n = i + 1 + total - total} {m = total} (ground arith) ∙ omega arith)
      | inr e ↦ rw e (
          let last : i + 1 + total - total ≡ total = ground (arith, h) in
          round
          ∙ ap (λ (n : ℕ). n % total) last
          ∙ mod-eq-sub-mod {n = total} {m = total} (omega arith)
          ∙ ap (λ (n : ℕ). n % total) (omega arith)
          ∙ mod-eq_of_lt {n = 0} {m = total} (omega (arith, h)))
    ]

backward_lem :
    (total i : ℕ) → i < total → moved total backward i ≡ (if i == 0 then total - 1 else i - 1)
unfolding moved
backward_lem total i h = elim (Bool-cases (i == 0)) [
  | inl e ↦ rw e (mod-eq_of_lt {n = i + total - 1} {m = total} (ground (arith, h)) ∙ ground arith)
  | inr e ↦ rw e (
      mod-eq-sub-mod {n = i + total - 1} {m = total} (ground (arith, h))
      ∙ mod-eq_of_lt {n = i + total - 1 - total} {m = total} (ground (arith, h))
      ∙ ground (arith, h))
]

moved-back :
    (total i : ℕ)
    → i < total
    → (moved total backward (moved total forward i) ≡ i)
      × (moved total forward (moved total backward i) ≡ i)
moved-back total i h = (
  ground (
    arith,
    h,
    forward_lem total i h,
    backward_lem total (moved total forward i) (moved-lt total forward i (omega (arith, h))),
  ),
  ground (
    arith,
    h,
    backward_lem total i h,
    forward_lem total (moved total backward i) (moved-lt total backward i (omega (arith, h))),
  ),
)

-- The photo after n steps forward.
abbrev pub moves : ℕ → ℕ → ℕ → ℕ
moves total zero i = i
moves total (suc n) i = moved total forward (moves total n i)

moves_lem : (total n i : ℕ) → i < total → moves total n i ≡ (i + n) % total
unfolding moved
moves_lem total zero i h = grind arith
moves_lem total (suc n) i h =
    ap (λ (k : ℕ). (k + 1 + total) % total) (moves_lem total n i h)
    ∙ ap (λ (k : ℕ). k % total) (omega arith)
    ∙ mod-add-mod (i + n) total (1 + total)
    ∙ mod-eq-sub-mod {n = i + n + (1 + total)} {m = total} (omega arith)
    ∙ ap (λ (k : ℕ). k % total) (omega arith)

module _ (rtl : Bool) (total : ℕ) where
  step-lt : (d : Direction) (s : State) → 0 < total → (step rtl total d s).index < total
  unfolding step
  step-lt d s h = moved-lt total d s.index h

  swiped-lt :
      (o : Option Direction) (s : State)
      → 0 < total
      → s.index < total
      → (swiped rtl total o s).index < total
  swiped-lt none s h g = g
  swiped-lt (some d) s h g = step-lt d s h

  lifted-lt :
      (o : Option ℕ) (x : ℕ) (s : State)
      → 0 < total
      → s.index < total
      → (lifted rtl total o x s).index < total
  lifted-lt none x s h g = g
  lifted-lt (some start) x s h g =
      swiped-lt (swipe_direction rtl start x) (record s { swipe_start = none }) h g

  next-lt :
      (s : State) (e : Event rtl total)
      → 0 < total
      → s.index < total
      → (next rtl total s e).index < total
  unfolding next
  next-lt s (opens i) h g = ground (arith, g)
  next-lt s closes h g = g
  next-lt s (arrows a) h g = step-lt (arrow_direction rtl a) s h
  next-lt s (buttons d) h g = step-lt d s h
  next-lt s (thumbs i) h g = ground (arith, g)
  next-lt s (presses x) h g = g
  next-lt s (lifts x) h g = lifted-lt s.swipe_start x s h g

  after-lt : (events : List (Event rtl total)) → 0 < total → (after rtl total events).index < total
  unfolding after
  after-lt [] h = h
  after-lt (e ∷ events) h = next-lt (after rtl total events) e h (after-lt events h)

  -- For a unit with photos: after any events of the gallery the lightbox shows one of the photos,
  -- forward and backward take each other back from there, and n steps forward lead to the photo n
  -- places on, counted around the circle.
  pub after_lem :
      (events : List (Event rtl total))
      → 0 < total
      → let i = (after rtl total events).index in
        (i < total)
        × (moved total backward (moved total forward i) ≡ i)
        × (moved total forward (moved total backward i) ≡ i)
        × ((n : ℕ) → moves total n i ≡ (i + n) % total)
  after_lem events h =
      let i = (after rtl total events).index in
      let g = after-lt events h in
      (g, (moved-back total i g).0, (moved-back total i g).1, λ n. moves_lem total n i g)
