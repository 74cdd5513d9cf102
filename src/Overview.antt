-- ===== src/Overview.antt =====
-- Lists and counts of the dashboard: web/src/app/[locale]/dashboard/page.tsx, customers/page.tsx and
-- customers/[id]/page.tsx under it, and web/src/components/admin/sidebar.tsx. `encode` is
-- encodeURIComponent.
pub mod Menu
mod Tests
use sahel.Common.{
  ℕ, ◌+◌, Bool, true, false, not, ◌&&◌, ◌||◌, Option, none, some, List, [], ◌∷◌, ◌++◌,
  if◌then◌else◌,
}
use sahel.Common.Lists.{any, keep, take, length}
use sahel.Js.Text.{Text, codes, same, is_empty, starts_with}
use sahel.Api.{Result, returned, failed}
use sahel.AdminTypes.{UnitRow}
use sahel.AdminTypes.Bookings.{BookingRow}
use sahel.Filter.{Params, param}
use sahel.StayPicker.{truthy}

abbrev pub has_status : Text → UnitRow → Bool
has_status status u = same u.status status

unfoldable pub count_of : Text → List UnitRow → ℕ
count_of status units = length (keep (has_status status) units)

unfoldable pub needs_attention : UnitRow → Bool
needs_attention u = has_status (codes "draft") u || not (truthy u.cover_url)

pub data Reason : Type 0 where
  draft : Reason
  no_cover : Reason

unfoldable pub reasons : UnitRow → List Reason
reasons u =
    (if has_status (codes "draft") u then draft ∷ [] else [])
    ++ (if not (truthy u.cover_url) then no_cover ∷ [] else [])

unfoldable pub attention : List UnitRow → List UnitRow
attention units = take 8 (keep needs_attention units)

-- The number of payments that wait, and 0 when the API does not tell.
unfoldable pub pending_payments : Result ℕ → ℕ
pending_payments (failed e) = 0
pending_payments (returned n) = n

-- OCCUPYING
abbrev pub occupying : List Text
occupying =
    codes "pending_payment"
    ∷ codes "awaiting_verification"
    ∷ codes "confirmed"
    ∷ codes "checked_in"
    ∷ codes "completed"
    ∷ []

-- What a customer has booked, in piasters.
unfoldable pub booked_value : List BookingRow → ℕ
booked_value [] = 0
booked_value (b ∷ bookings) =
    let rest = booked_value bookings in
    if any (λ s. same s b.status) occupying then rest + b.total else rest

-- The customers that are asked for, and whether all of them are too.
unfoldable pub customers_path : (Text → Text) → Params → Text × Option Text
customers_path encode sp =
    if is_empty (param sp (codes "q"))
    then (codes "/customers", none)
    else (codes "/customers?q=" ++ encode (param sp (codes "q")), some (codes "/customers"))

-- The sidebar's pages.
abbrev pub items : List Text
items =
    codes "/dashboard"
    ∷ codes "/dashboard/areas"
    ∷ codes "/dashboard/compounds"
    ∷ codes "/dashboard/owners"
    ∷ codes "/dashboard/units"
    ∷ codes "/dashboard/bookings"
    ∷ codes "/dashboard/customers"
    ∷ codes "/dashboard/timeline"
    ∷ codes "/dashboard/reports"
    ∷ codes "/dashboard/payments"
    ∷ codes "/dashboard/settings"
    ∷ []

unfoldable pub is_active : Text → Text → Bool
is_active pathname href =
    if same href (codes "/dashboard")
    then same pathname href
    else same pathname href || starts_with pathname (href ++ codes "/")

unfoldable pub other_locale : Text → Text
other_locale locale = if same locale (codes "ar") then codes "en" else codes "ar"

-- The menu of the small screens: its button, and the effect of another page.
unfoldable pub toggle_menu : Bool → Bool
toggle_menu is_open = not is_open

unfoldable pub change_page : Bool → Bool
change_page is_open = false
