-- ===== src/Session/Next.antt =====
-- Where a sign-in leads.
use sahel.Common.{
  ◌≡◌, refl, ◌⊎◌, inl, inr, true, false, Option, none, some, ◌++◌, arith, Bool-cases,
}
use sahel.Js.Text.{Text, codes, is_empty, starts_with, starts_with-append, starts_with_split}
use sahel.Paths.{Locale, ar, en}
use sahel.Paths.Laws.{drop-append}
use sahel.Session.{home, is_tail, safe_next}

home_plain :
    (l : Locale) (rest : Text)
    → (is_empty (home l ++ rest) ≡ false) × (starts_with (home l ++ rest) (codes "//") ≡ false)
unfolding home is_empty starts_with
home_plain ar rest = (refl, refl)
home_plain en rest = (refl, refl)

-- A page of this language's dashboard is kept, with its query.
pub safe_next-append :
    (l : Locale) (rest : Text)
    → is_tail rest ≡ true
    → safe_next l (some (home l ++ rest)) ≡ home l ++ rest
unfolding safe_next
safe_next-append l rest h = rw (
  (home_plain l rest).0,
  (home_plain l rest).1,
  starts_with-append (home l) rest,
  drop-append (home l) rest,
  h,
)

-- The page to go to after a sign-in is the dashboard of the locale, or the page that was asked
-- for, which then is that dashboard's path followed by nothing, or by a slash or a question mark
-- and more.
pub safe_next_lem :
    (l : Locale) (next : Option Text)
    → (safe_next l next ≡ home l)
      ⊎ ((rest : Text) × (next ≡ some (home l ++ rest))
          × (is_tail rest ≡ true)
          × (safe_next l next ≡ home l ++ rest))
unfolding safe_next
safe_next_lem l none = inl refl
safe_next_lem l (some next) = elim (Bool-cases (starts_with next (home l))) [
  | inr outside ↦ inl (rw outside (ground arith))
  | inl inside ↦
      let (rest, e) = starts_with_split next (home l) inside in
      elim (Bool-cases (is_tail rest)) [
        | inl tail ↦ inr (rest, rw e, tail, rw e (safe_next-append l rest tail))
        | inr other ↦ inl (rw (e, drop-append (home l) rest, other) (ground arith))
      ]
]
