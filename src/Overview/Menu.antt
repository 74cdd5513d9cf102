-- ===== src/Overview/Menu.antt =====
-- One page of the sidebar at most is marked as the current one.
use sahel.Common.{
  ◌≤◌, ◌≡◌, refl, ap, ◌∙◌, inl, inr, Bool, true, false, not, ◌&&◌, ◌||◌, List, [], ◌∷◌, ◌++◌, arith,
  Bool-cases,
}
use sahel.Common.Lists.{all, keep, length, drop}
use sahel.Js.Text.{Text, codes, same, same→eq, starts_with}
use sahel.Overview.{items, is_active}

-- Of two starts of a text, one starts with the other.
starts_both :
    (s p q : Text)
    → starts_with s p ≡ true
    → starts_with s q ≡ true
    → (starts_with p q || starts_with q p) ≡ true
unfolding starts_with
starts_both s [] [] h g = refl
starts_both s [] (d ∷ q) h g = refl
starts_both s (c ∷ p) [] h g = refl
starts_both [] (c ∷ p) (d ∷ q) h g = cc
starts_both (a ∷ s) (c ∷ p) (d ∷ q) h g = ground (arith, h, g, starts_both s p q)

slashed : (s : Text) → starts_with (s ++ codes "/") (s ++ codes "/") ≡ true
unfolding starts_with
slashed [] = refl
slashed (c ∷ s) = ground (arith, slashed s)

longer : (s p t : Text) → starts_with s p ≡ true → starts_with (s ++ t) p ≡ true
unfolding starts_with
longer s [] t h = refl
longer [] (d ∷ p) t h = cc
longer (c ∷ s) (d ∷ p) t h = ground (arith, h, longer s p t)

-- A page that is current: the path stands below it.
active_below :
    (path href : Text)
    → is_active path href ≡ true
    → starts_with (path ++ codes "/") (href ++ codes "/") ≡ true
unfolding is_active
active_below path href h = elim (Bool-cases (same path href)) [
  | inl e ↦ rw (same→eq path href e) (slashed href)
  | inr e ↦ longer path (href ++ codes "/") (codes "/") (ground (arith, h, e))
]

abbrev pub apart : Text → Text → Bool
apart p q =
    not (
      starts_with (p ++ codes "/") (q ++ codes "/")
      || starts_with (q ++ codes "/") (p ++ codes "/"))

abbrev pub all_apart : List Text → Bool
all_apart [] = true
all_apart (p ∷ ps) = all (apart p) ps && all_apart ps

inactive : (path p q : Text) → is_active path p ≡ true → apart p q ≡ true → is_active path q ≡ false
inactive path p q h g = elim (Bool-cases (is_active path q)) [
  | inl e ↦ absurd (
      cc (
        g,
        ap not (
            starts_both (path ++ codes "/") (p ++ codes "/") (q ++ codes "/")
              (active_below path p h) (active_below path q e)),
      ))
  | inr e ↦ e
]

none_left :
    (path p : Text) (qs : List Text)
    → is_active path p ≡ true
    → all (apart p) qs ≡ true
    → length (keep (is_active path) qs) ≡ 0
none_left path p [] h g = refl
none_left path p (q ∷ qs) h g =
    let here = inactive path p q h (ground (arith, g)) in
    rw here (none_left path p qs h (ground (arith, g)))

one_left :
    (path : Text) (ps : List Text) → all_apart ps ≡ true → length (keep (is_active path) ps) ≤ 1
one_left path [] h = omega arith
one_left path (p ∷ ps) h = elim (Bool-cases (is_active path p)) [
  | inl e ↦ rw e (omega (arith, none_left path p ps e (ground (arith, h))))
  | inr e ↦ rw e (one_left path ps (ground (arith, h)))
]

either_one :
    (path p : Text) (ps : List Text)
    → (is_active path p ≡ true → length (keep (is_active path) ps) ≡ 0)
    → length (keep (is_active path) ps) ≤ 1
    → length (keep (is_active path) (p ∷ ps)) ≤ 1
either_one path p ps h g = elim (Bool-cases (is_active path p)) [
  | inl e ↦ rw e (omega (arith, h e))
  | inr e ↦ rw e g
]

abbrev home : Text
home = codes "/dashboard"

abbrev pages : List Text
pages = drop 1 items

none_at_home : length (keep (is_active home) pages) ≡ 0
unfolding is_active same starts_with
none_at_home = refl

home_alone : (path : Text) → is_active path home ≡ true → length (keep (is_active path) pages) ≡ 0
home_alone path h =
    let e : path ≡ home = same→eq path home (at_home path h) in
    ap (λ (s : Text). length (keep (is_active s) pages)) e ∙ none_at_home
  where
    at_home : (path : Text) → is_active path home ≡ true → same path home ≡ true
    at_home path h = unfold is_active in unfold same in h

pages_apart : all_apart pages ≡ true
unfolding starts_with
pages_apart = refl

-- At most one page of the sidebar is marked as the current one, on any path.
pub current_page : (path : Text) → length (keep (is_active path) items) ≤ 1
current_page path = either_one path home pages (home_alone path) (one_left path pages pages_apart)
