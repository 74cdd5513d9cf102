-- ===== src/StayPicker/Picks.antt =====
-- The loop of `nextTaken` finds the first taken night on or after a day.
use sahel.Common.{
  ◌≡◌, refl, ◌⊎◌, inl, inr, true, false, Option, none, some, [], ◌∷◌, arith, Bool-cases,
  Option-cases,
}
use sahel.Common.Lists.{All}
use sahel.Js.Text.{Text, before, is_empty}
use sahel.Js.Text.Order.{before_irrefl, before_asym, before_le_trans, at_most_trans}
use sahel.StayPicker.{Nights, Taken, holds, is_taken, hit, keep_first, next_from}

-- Every range has a night.
abbrev pub IsWellFormed : Taken → Type 0
IsWellFormed taken = All (λ r. before r.start r.end ≡ true) taken

-- A range's first night on or after the day: it is not before the day, and it belongs to the range.
hit_lem :
    (day h : Text) (r : Nights)
    → before r.start r.end ≡ true
    → hit day r ≡ some h
    → (before h day ≡ false) × (holds h r ≡ true)
unfolding hit holds
hit_lem day h r w e =
    ground (arith, before_irrefl day, before_irrefl r.start, before_asym day r.start)

-- Nothing of the range lies between the day and that night.
pub hit_first :
    (day h x : Text) (r : Nights)
    → hit day r ≡ some h
    → before x day ≡ false
    → before x h ≡ true
    → holds x r ≡ false
unfolding hit holds
hit_first day h x r e from lt = ground arith

pub hit-none :
    (day x : Text) (r : Nights) → hit day r ≡ none → before x day ≡ false → holds x r ≡ false
unfolding hit holds
hit-none day x r e from = elim (Bool-cases (before x r.end)) [
  | inr late ↦ ground arith
  | inl early ↦ ground (arith, before_le_trans day x r.end from early)
]

abbrev pub IsFull : Option Text → Type 0
IsFull none = Unit
IsFull (some s) = is_empty s ≡ false

-- Nothing in the option comes before the text.
abbrev pub NoneBefore : Text → Option Text → Type 0
NoneBefore h none = Unit
NoneBefore h (some k) = before k h ≡ false

keep_first-IsFull : (h f : Option Text) → IsFull h → IsFull f → IsFull (keep_first h f)
unfolding keep_first
keep_first-IsFull none f p q = q
keep_first-IsFull (some h) f p q = ground arith

keep_first-none : (h f : Option Text) → IsFull h → keep_first h f ≡ none → (h ≡ none) × (f ≡ none)
unfolding keep_first
keep_first-none none f p e = (refl, e)
keep_first-none (some h) none p e = ground arith
keep_first-none (some h) (some f) p e = ground arith

-- What a round keeps is one of the two, and neither is before it.
keep_first_lem :
    (h f : Option Text) (k : Text)
    → IsFull h
    → IsFull f
    → keep_first h f ≡ some k
    → ((h ≡ some k) ⊎ (f ≡ some k)) × NoneBefore k h × NoneBefore k f
unfolding keep_first
keep_first_lem none none k p q e = cc
keep_first_lem none (some f) k p q e = ground (arith, before_irrefl k)
keep_first_lem (some h) none k p q e = ground (arith, before_irrefl k)
keep_first_lem (some h) (some f) k p q e = ground (arith, before_irrefl k, before_asym h f)

NoneBefore-trans :
    (k h : Text) (o : Option Text) → before k h ≡ false → NoneBefore k o → NoneBefore h o
NoneBefore-trans k h none le n = tt
NoneBefore-trans k h (some x) le n = at_most_trans h k x le n

pub full_from : (day h : Text) → is_empty day ≡ false → before h day ≡ false → is_empty h ≡ false
unfolding is_empty before
full_from [] h e b = cc
full_from (c ∷ day) [] e b = cc
full_from (c ∷ day) (d ∷ h) e b = refl

module _ (day : Text) (full : is_empty day ≡ false) where
  hit-IsFull : (r : Nights) → before r.start r.end ≡ true → IsFull (hit day r)
  hit-IsFull r w = elim (Option-cases (hit day r)) [
    | inl e ↦ rw e tt
    | inr (h, e) ↦ rw e (full_from day h full (hit_lem day h r w e).0)
  ]

  pub next_from-none :
      (rs : Taken) (f : Option Text)
      → IsWellFormed rs
      → next_from day rs f ≡ none
      → (f ≡ none) × All (λ r. hit day r ≡ none) rs
  unfolding next_from
  next_from-none [] f w e = (e, tt)
  next_from-none (r ∷ rs) f (w, ws) e =
      let (kept, rest) = next_from-none rs (keep_first (hit day r) f) ws e in
      let (here, before_it) = keep_first-none (hit day r) f (hit-IsFull r w) kept in
      (before_it, (here, rest))

  -- The result of the loop from `first`: `first` or a taken night, with no earlier hit.
  pub next_from_lem :
      (rs : Taken) (f : Option Text) (h : Text)
      → IsWellFormed rs
      → IsFull f
      → next_from day rs f ≡ some h
      → ((f ≡ some h) ⊎ ((before h day ≡ false) × (is_taken h rs ≡ true)))
        × NoneBefore h f
        × All (λ r. NoneBefore h (hit day r)) rs
  unfolding next_from is_taken
  next_from_lem [] f h w q e = (inl e, rw e (before_irrefl h), tt)
  next_from_lem (r ∷ rs) f h (w, ws) q e =
      let full_hit = hit-IsFull r w in
      let (from, least, rest) =
        next_from_lem rs (keep_first (hit day r) f) h ws
          (keep_first-IsFull (hit day r) f full_hit q) e in
      elim (Option-cases (keep_first (hit day r) f)) [
        | inl dropped ↦
            let (no_hit, no_first) = keep_first-none (hit day r) f full_hit dropped in
            (inr (later_night dropped from), rw no_first tt, (rw no_hit tt, rest))
        | inr (k, kept) ↦
            let (source, no_hit, no_first) = keep_first_lem (hit day r) f k full_hit q kept in
            let after : before k h ≡ false = rw kept at least in
            (
              origin k kept source from,
              NoneBefore-trans k h f after no_first,
              (NoneBefore-trans k h (hit day r) after no_hit, rest),
            )
      ]
    where
      later_night :
          keep_first (hit day r) f ≡ none
          → (keep_first (hit day r) f ≡ some h) ⊎ ((before h day ≡ false) × (is_taken h rs ≡ true))
          → (before h day ≡ false) × (is_taken h (r ∷ rs) ≡ true)
      later_night dropped (inl now) = absurd (cc)
      later_night dropped (inr (after, night)) = (after, ground arith)

      origin :
          (k : Text)
          → keep_first (hit day r) f ≡ some k
          → (hit day r ≡ some k) ⊎ (f ≡ some k)
          → (keep_first (hit day r) f ≡ some h) ⊎ ((before h day ≡ false) × (is_taken h rs ≡ true))
          → (f ≡ some h) ⊎ ((before h day ≡ false) × (is_taken h (r ∷ rs) ≡ true))
      origin k kept source (inr (after, night)) = inr (after, ground arith)
      origin k kept (inr old) (inl now) = inl (cc)
      origin k kept (inl new) (inl now) =
          let found : hit day r ≡ some h = cc in
          let (after, night) = hit_lem day h r w found in inr (after, rw night)
