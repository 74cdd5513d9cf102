-- ===== src/Paths/Laws.antt =====
-- What the path patterns match.
use sahel.Common.{◌≡◌, refl, ◌↔◌, inl, inr, true, none, some, [], ◌∷◌, ◌++◌, arith, Bool-cases}
use sahel.Common.Lists.{length, drop}
use sahel.Js.Text.{Text, codes, same, same→eq, starts_with, starts_with-append, starts_with_split}
use sahel.Paths.{
  Locale, ar, en, dashboard, at_boundary, under, is_dashboard_path, legacy_dashboard_target,
}

pub drop-append : (p s : Text) → drop (length p) (p ++ s) ≡ s
drop-append [] s = refl
drop-append (c ∷ p) s = drop-append p s

-- A path is under a prefix when it is the prefix with a rest that begins with a slash, if at all.
pub under_iff :
    (prefix path : Text)
    → (under prefix path ≡ true)
      ↔ ((rest : Text) × (path ≡ prefix ++ rest) × (at_boundary rest ≡ true))
unfolding under
under_iff prefix path = (
  λ h.
      let (rest, e) = starts_with_split path prefix (ground arith) in
      (rest, e, rw (drop-append prefix rest) at (rw e at (rest_of h))),
  λ h. rw (h.1, starts_with-append prefix h.0, drop-append prefix h.0) h.2,
)
  where
    rest_of : under prefix path ≡ true → at_boundary (drop (length prefix) path) ≡ true
    rest_of h = ground arith

pub under-append :
    (prefix rest : Text) → at_boundary rest ≡ true → under prefix (prefix ++ rest) ≡ true
under-append prefix rest h = (under_iff prefix (prefix ++ rest)).1 (rest, refl, h)

-- A path of the dashboard belongs to one of the two languages.
pub is_dashboard_path-split :
    (path : Text)
    → is_dashboard_path path ≡ true
    → (l : Locale) × (rest : Text) × (path ≡ dashboard l ++ rest) × (at_boundary rest ≡ true)
unfolding is_dashboard_path
is_dashboard_path-split path h = elim (Bool-cases (under (dashboard ar) path)) [
  | inl arabic ↦ let (rest, e, b) = (under_iff (dashboard ar) path).0 arabic in (ar, rest, e, b)
  | inr other ↦
      let (rest, e, b) = (under_iff (dashboard en) path).0 (rw other at h) in (en, rest, e, b)
]

pub is_dashboard_path-append :
    (l : Locale) (rest : Text)
    → at_boundary rest ≡ true
    → is_dashboard_path (dashboard l ++ rest) ≡ true
unfolding is_dashboard_path
is_dashboard_path-append ar rest h = rw (under-append (dashboard ar) rest h)
is_dashboard_path-append en rest h = rw (under-append (dashboard en) rest h) (ground arith)

legacy_rest :
    (path : Text) (target : Text)
    → legacy_dashboard_target path ≡ some target
    → (rest : Text) × (path ≡ codes "/dashboard" ++ rest)
      × (at_boundary rest ≡ true)
      × (target ≡ codes "/ar" ++ path)
unfolding legacy_dashboard_target at_boundary
legacy_rest path target h = elim (Bool-cases (same path (codes "/dashboard"))) [
  | inl whole ↦ ([], same→eq path (codes "/dashboard") whole, refl, ground arith)
  | inr longer ↦
      let found : starts_with path (codes "/dashboard/") ≡ true = ground arith in
      let (rest, e) = starts_with_split path (codes "/dashboard/") found in
      (b'/' ∷ rest, e, refl, ground arith)
]

-- An old admin URL that is redirected goes to the same path under /ar, which is a dashboard path
-- and is not redirected again.
pub legacy_dashboard_target_lem :
    (path target : Text)
    → legacy_dashboard_target path ≡ some target
    → (target ≡ codes "/ar" ++ path)
      × (is_dashboard_path target ≡ true)
      × (legacy_dashboard_target target ≡ none)
legacy_dashboard_target_lem path target h =
    let (rest, e, boundary, sent) = legacy_rest path target h in
    (sent, rw (sent, e) (is_dashboard_path-append ar rest boundary), rw sent (once path))
  where
    once : (path : Text) → legacy_dashboard_target (codes "/ar" ++ path) ≡ none
    once path = unfold legacy_dashboard_target same starts_with in refl
