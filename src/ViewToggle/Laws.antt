-- ===== src/ViewToggle/Laws.antt =====
-- A view's link shows the same units in that view.
use sahel.Common.{
  ◌≡◌, refl, sym, ap, ◌∙◌, inl, inr, Bool, true, false, not, ◌&&◌, List, [], ◌∷◌, ◌++◌, arith,
  Bool-cases, if◌then◌else◌,
}
use sahel.Common.Lists.{All}
use sahel.Js.Text.{Text, codes, same, same→eq, same_refl, is_empty}
use sahel.Js.Text.Trim.{trim, trim_start, trim_end, is_space, trim_idem}
use sahel.AdminTypes.{UnitRow}
use sahel.SearchParams.{Param, missing, single, repeated, first, Entries}
use sahel.Filter.{Params, lookup, param, View, grid, table, unit_filters, list_view}
use sahel.ViewToggle.{is_left_out, kept, query, page_at, units_page}

-- Each name stands once, as in a JavaScript object.
abbrev pub AreOnce : Params → Type 0
AreOnce [] = Unit
AreOnce ((k, v) ∷ sp) = All (λ e. same e.0 k ≡ false) sp × AreOnce sp

trimmed_nil : trim [] ≡ []
unfolding trim trim_start trim_end
trimmed_nil = refl

first_idem : (v : Param) → trim (first v) ≡ first v
unfolding first
first_idem missing = trimmed_nil
first_idem (single v) = trim_idem v
first_idem (repeated []) = trimmed_nil
first_idem (repeated (v ∷ vs)) = trim_idem v

absent : (k : Text) (sp : Params) → All (λ e. same e.0 k ≡ false) sp → param sp k ≡ []
unfolding param lookup first
absent k [] h = refl
absent k ((n, v) ∷ sp) (h, hs) = rw h (absent k sp hs)

empty_nil : (s : Text) → is_empty s ≡ true → s ≡ []
unfolding is_empty
empty_nil [] h = refl
empty_nil (c ∷ s) h = cc

-- A name's value behind an entry that is kept or not.
kept_here :
    (key k : Text) (v : Param) (rest : Entries) (b : Bool)
    → param (page_at (if b then (k, first v) ∷ rest else rest)) key
      ≡ (if b && same k key then first v else param (page_at rest) key)
unfolding param lookup
kept_here key k v rest true = elim (Bool-cases (same k key)) [
  | inl e ↦ rw e (unfold first in first_idem v)
  | inr e ↦ rw e refl
]
kept_here key k v rest false = refl

-- The entry of a name, and the names behind it.
kept_found :
    (key k : Text) (v : Param) (sp : Params)
    → is_left_out key ≡ false
    → k ≡ key
    → All (λ e. same e.0 k ≡ false) sp
    → param (page_at (kept sp)) key ≡ param sp key
    → param (page_at (kept ((k, v) ∷ sp))) key ≡ first v
unfolding kept
kept_found key k v sp h e apart ih =
    kept_here key k v (kept sp) (not (is_empty (first v)) && not (is_left_out k))
    ∙ elim (Bool-cases (is_empty (first v))) [
      | inl blank ↦ rw (blank) (ih ∙ rw (← e) (absent k sp apart) ∙ sym (empty_nil (first v) blank))
      | inr full ↦ rw (full, e, h, same_refl key) refl
    ]

no_here : (t : Bool) (a b : Text) → (if t && false then a else b) ≡ b
no_here true a b = refl
no_here false a b = refl

kept_other :
    (key k : Text) (v : Param) (sp : Params)
    → same k key ≡ false
    → param (page_at (kept sp)) key ≡ param sp key
    → param (page_at (kept ((k, v) ∷ sp))) key ≡ param sp key
unfolding kept
kept_other key k v sp e ih =
    let test = not (is_empty (first v)) && not (is_left_out k) in
    kept_here key k v (kept sp) test
    ∙ rw e (no_here test (first v) (param (page_at (kept sp)) key))
    ∙ ih

kept_lem :
    (key : Text) (sp : Params)
    → is_left_out key ≡ false
    → AreOnce sp
    → param (page_at (kept sp)) key ≡ param sp key
unfolding param lookup
kept_lem key [] h once = unfold kept in refl
kept_lem key ((k, v) ∷ sp) h (apart, once) = elim (Bool-cases (same k key)) [
  | inl e ↦ rw e (kept_found key k v sp h (same→eq k key e) apart (kept_lem key sp h once))
  | inr e ↦ rw e (kept_other key k v sp e (kept_lem key sp h once))
]

-- The names that are left out are missing.
left_out :
    (key : Text) (sp : Params) → is_left_out key ≡ true → lookup (page_at (kept sp)) key ≡ missing
unfolding lookup kept
left_out key [] h = refl
left_out key ((k, v) ∷ sp) h = elim (Bool-cases (not (is_empty (first v)) && not (is_left_out k))) [
  | inl t ↦ elim (Bool-cases (same k key)) [
    | inl e ↦ let both = ap is_left_out (same→eq k key e) in absurd (ground (arith, t, h, both))
    | inr e ↦ rw (t, e) (left_out key sp h)
  ]
  | inr t ↦ rw t (left_out key sp h)
]

-- An entry at the end, for another name and for its own.
appended :
    (es : Entries) (n w key : Text)
    → same n key ≡ false
    → param (page_at (es ++ (n, w) ∷ [])) key ≡ param (page_at es) key
unfolding param lookup
appended [] n w key h = rw h refl
appended ((k, v) ∷ es) n w key h = elim (Bool-cases (same k key)) [
  | inl e ↦ rw e refl
  | inr e ↦ rw e (appended es n w key h)
]

appended_own :
    (es : Entries) (n w : Text)
    → lookup (page_at es) n ≡ missing
    → lookup (page_at (es ++ (n, w) ∷ [])) n ≡ single w
unfolding lookup
appended_own [] n w h = rw (same_refl n) refl
appended_own ((k, v) ∷ es) n w h = elim (Bool-cases (same k n)) [
  | inl e ↦ let found : single v ≡ missing = rw e at h in absurd cc
  | inr e ↦ rw e (appended_own es n w (rw e at h))
]

queried :
    (key : Text) (v : View) (sp : Params)
    → is_left_out key ≡ false
    → same (codes "view") key ≡ false
    → AreOnce sp
    → param (page_at (query v sp)) key ≡ param sp key
unfolding query
queried key grid sp h e once = kept_lem key sp h once
queried key table sp h e once =
    appended (kept sp) (codes "view") (codes "table") key e ∙ kept_lem key sp h once

filters_kept :
    (v : View) (sp : Params) → AreOnce sp → unit_filters (page_at (query v sp)) ≡ unit_filters sp
unfolding unit_filters same
filters_kept v sp once =
    rw
      (
        queried (codes "q") v sp refl refl once,
        queried (codes "status") v sp refl refl once,
        queried (codes "compound") v sp refl refl once,
        queried (codes "type") v sp refl refl once,
      )
      refl

view_lem : (v : View) (sp : Params) → list_view (page_at (query v sp)) ≡ v
unfolding list_view query param first trim trim_start trim_end is_space same
view_lem grid sp = rw (left_out (codes "view") sp refl) refl
view_lem table sp =
    rw (appended_own (kept sp) (codes "view") (codes "table") (left_out (codes "view") sp refl))
      refl

-- When each name stands once among the page's parameters, a link of the view toggle leads to a
-- page of the same units, total and filters, in the view of the link.
pub units_page-query :
    (fold : Text → Text) (all : List UnitRow) (v : View) (sp : Params)
    → AreOnce sp
    → units_page fold all (page_at (query v sp)) ≡ record (units_page fold all sp) { view = v }
unfolding units_page
units_page-query fold all v sp once = rw (filters_kept v sp once, view_lem v sp) refl
