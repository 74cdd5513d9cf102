-- ===== src/ListPages.antt =====
-- Pages that only read: areas, compounds and owners of web/src/app/[locale]/dashboard, the page of a
-- booking there, and the public search (search/page.tsx) with its links to pages, and
-- web/src/components/public/locale-link.tsx. `print` is URLSearchParams; the toast and the dialog are those of
-- web/src/components/admin/toast.tsx and web/src/components/ds/modal.tsx.
mod Tests
use sahel.Common.{
  ℕ, ◌+◌, Bool, true, false, not, ◌&&◌, Option, none, some, List, [], ◌∷◌, ◌++◌, leb, ltb,
  if◌then◌else◌,
}
use sahel.Common.Lists.{any, length}
use sahel.Js.Text.{Text, codes, same, is_empty}
use sahel.AdminTypes.{Area, CompoundRow, Owner}
use sahel.Filter.{Params, param, filter_by_query, list_query}
use sahel.SearchParams.{Entries, Filters, filters_to_query}
use sahel.SearchParams.Controls.{page_window}

pub record ListPage {ℓ} (A : Type ℓ) : Type ℓ where
  pub rows : List A
  pub total : ℕ
  pub is_filtered : Bool
  -- the query to which a deletion comes back
  pub return_query : Text

module _ (fold : Text → Text) (print : Entries → Text) (sp : Params) where
  abbrev pub list_page {ℓ} : {A : Type ℓ} → List A → (A → List (Option Text)) → ListPage A
  list_page all fields = record {
    rows = filter_by_query fold all (param sp (codes "q")) fields;
    total = length all;
    is_filtered = not (is_empty (param sp (codes "q")));
    return_query = list_query print sp;
  }

  unfoldable pub areas_page : List Area → ListPage Area
  areas_page all = list_page all (λ a. some a.name_ar ∷ some a.name_en ∷ some a.slug ∷ [])

  unfoldable pub compounds_page : List CompoundRow → ListPage CompoundRow
  compounds_page all =
      list_page all (λ c. some c.base.name_ar ∷ some c.base.name_en ∷ some c.base.slug ∷ [])

  unfoldable pub owners_page : List Owner → ListPage Owner
  owners_page all = list_page all (λ o. some o.name ∷ some o.phone ∷ o.email ∷ [])

-- Whether a booking can still be cancelled, and paid for.
abbrev pub is_running : Text → Bool
is_running status =
    any (λ s. same s status)
      (codes "pending_payment" ∷ codes "awaiting_verification" ∷ codes "confirmed" ∷ [])

-- What the search asks the API for, and the links to its pages.
unfoldable pub search_query : (ℕ → Text) → (Entries → Text) → Filters → Text
search_query to_string print f =
    let query = print (filters_to_query to_string f f.page) in
    (if is_empty query then [] else query ++ codes "&") ++ codes "size=12"

unfoldable pub page_href : (ℕ → Text) → (Entries → Text) → Text → Filters → ℕ → Text
page_href to_string print locale f page =
    let query = print (filters_to_query to_string f page) in
    b'/' ∷ (locale ++ (codes "/search" ++ (if is_empty query then [] else b'?' ∷ query)))

-- The same page in the other language.
unfoldable pub locale_href : Text → Text → Text → Text
locale_href locale pathname query =
    let path = if same pathname (codes "/") then [] else pathname in
    b'/'
    ∷ ((if same locale (codes "ar") then codes "en" else codes "ar")
        ++ (path ++ (if is_empty query then [] else b'?' ∷ query)))

-- A toast with the time at which it goes; a later one takes its place.
pub record Toast : Type 0 where
  pub text : Text
  pub until : ℕ

unfoldable pub show_toast : ℕ → Text → Option Toast → Option Toast
show_toast now text t = some (record { text = text; until = now + 3000 })

unfoldable pub dismiss : ℕ → Option Toast → Option Toast
dismiss now none = none
dismiss now (some t) = if leb t.until now then none else some t

-- Whether the browser's dialog is open: it follows the property, and Escape closes it, unless an
-- action is running.
unfoldable pub follow : Bool → Bool → Bool
follow open_wanted is_open =
    if open_wanted && not is_open
    then true
    else if not open_wanted && is_open
    then false
    else is_open

unfoldable pub press_escape : Bool → Bool → Bool
press_escape busy is_open = if busy then is_open else false
