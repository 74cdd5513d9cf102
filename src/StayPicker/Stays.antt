-- ===== src/StayPicker/Stays.antt =====
-- A pick is allowed exactly when the nights of the stay are free.
use sahel.Common.{
  ◌≡◌, refl, ◌↔◌, ◌⊎◌, inl, inr, true, false, Option, none, some, [], ◌∷◌, arith, Option-cases,
}
use sahel.Common.Lists.{All}
use sahel.Js.Text.{Text, before, is_empty}
use sahel.Js.Text.Order.{before_trans_le}
use sahel.StayPicker.{Nights, Taken, holds, is_taken, hit, next_taken, truthy, within, can_pick}
use sahel.StayPicker.Picks.{
  IsWellFormed, NoneBefore, full_from, hit_first, hit-none, next_from-none, next_from_lem,
}

-- The nights from `a` on, before `b`, are free.
abbrev pub FreeBetween : Taken → Text → Text → Type 0
FreeBetween taken a b =
    (x : Text) → before x a ≡ false → before x b ≡ true → is_taken x taken ≡ false

free_of_none :
    (day x : Text) (rs : Taken)
    → All (λ r. hit day r ≡ none) rs
    → before x day ≡ false
    → is_taken x rs ≡ false
unfolding is_taken
free_of_none day x [] a from = refl
free_of_none day x (r ∷ rs) (h, a) from =
    rw (hit-none day x r h from) (free_of_none day x rs a from)

no_later_hit :
    (day h x : Text) (r : Nights)
    → NoneBefore h (hit day r)
    → before x day ≡ false
    → before x h ≡ true
    → holds x r ≡ false
no_later_hit day h x r n from lt = elim (Option-cases (hit day r)) [
  | inl e ↦ hit-none day x r e from
  | inr (k, e) ↦ hit_first day k x r e from (before_trans_le x h k lt (rw e at n))
]

free_of_first :
    (day h x : Text) (rs : Taken)
    → All (λ r. NoneBefore h (hit day r)) rs
    → before x day ≡ false
    → before x h ≡ true
    → is_taken x rs ≡ false
unfolding is_taken
free_of_first day h x [] a from lt = refl
free_of_first day h x (r ∷ rs) (n, a) from lt =
    rw (no_later_hit day h x r n from lt) (free_of_first day h x rs a from lt)

module _ (taken : Taken) (w : IsWellFormed taken) (day : Text) (full : is_empty day ≡ false) where
  -- With no next taken night, every night from the day on is free.
  pub next_taken-none :
      next_taken day taken ≡ none → (x : Text) → before x day ≡ false → is_taken x taken ≡ false
  unfolding next_taken
  next_taken-none e x from =
      free_of_none day x taken (next_from-none day full taken none w e).1 from

  -- Where every taken range has a night and the day is not empty: the night that nextTaken finds
  -- is taken, is not before the day, and all nights from the day up to it are free.
  pub next_taken-some :
      (h : Text)
      → next_taken day taken ≡ some h
      → (before h day ≡ false) × (is_taken h taken ≡ true) × FreeBetween taken day h
  unfolding next_taken
  next_taken-some h e =
      let (source, _, later) = next_from_lem day full taken none h w tt e in
      let (after, night) = found source in
      (after, night, λ x from lt. free_of_first day h x taken later from lt)
    where
      found :
          (◌≡◌ {A = Option Text} none (some h))
            ⊎ ((before h day ≡ false) × (is_taken h taken ≡ true))
          → (before h day ≡ false) × (is_taken h taken ≡ true)
      found (inl never) = absurd (cc)
      found (inr it) = it

  limit_cases :
      (end : Text) (limit : Option Text)
      → next_taken day taken ≡ limit
      → (within end limit ≡ true) ↔ FreeBetween taken day end
  limit_cases end none e = (λ _ x from lt. next_taken-none e x from, λ _. refl)
  limit_cases end (some h) e =
      let (after, night, free) = next_taken-some h e in
      (
        λ fits x from lt. free x from (before_trans_le x end h lt (fits_before h after fits)),
        λ open_nights. ground (arith, open_nights h after),
      )
    where
      fits_before :
          (h : Text) → before h day ≡ false → within end (some h) ≡ true → before h end ≡ false
      fits_before h after fits = ground (arith, full_from day h full after)

  -- A check-out within the limit has only free nights before it.
  pub within-FreeBetween :
      (end : Text) → within end (next_taken day taken) ≡ true → FreeBetween taken day end
  within-FreeBetween end h = (limit_cases end (next_taken day taken) refl).0 h

  -- Where every taken range has a night, and the check-in is not empty and waits for its
  -- check-out, a later day can be picked exactly when every night from the check-in to that day is
  -- free.
  pub can_pick_iff :
      (end : Text) (check_out : Option Text)
      → truthy check_out ≡ false
      → before day end ≡ true
      → (can_pick end (some day) check_out taken ≡ true) ↔ FreeBetween taken day end
  unfolding can_pick
  can_pick_iff end check_out waits lt =
      rw (full, waits, lt) (limit_cases end (next_taken day taken) refl)
