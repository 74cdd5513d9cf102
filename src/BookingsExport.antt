-- ===== src/BookingsExport.antt =====
-- web/src/app/[locale]/dashboard/bookings/export/route.ts.
-- `head`, `status_text` and `booked_at` are the translations of the page and the platform's format
-- of a time; `incoming` is searchParams.get.
pub mod Reading
mod Tests
use sahel.Common.{ℕ, Bool, Option, none, some, List, [], ◌∷◌, ◌++◌, map, if◌then◌else◌}
use sahel.Common.Lists.{take}
use sahel.Js.Text.{Text, codes, same, is_empty}
use sahel.Money.{pounds}
use sahel.AdminTypes.Bookings.{BookingRow}
use sahel.Csv.{Cell, number, text, to_csv}
use sahel.Phone.{format_phone}
use sahel.SearchParams.{Entries}

-- PASS
abbrev pub passed : List Text
passed = codes "q" ∷ codes "status" ∷ codes "unit" ∷ codes "from" ∷ codes "to" ∷ []

abbrev pub pass_value : Text → Option Text → Entries → Entries
pass_value k none rest = rest
pass_value k (some v) rest = if is_empty v then rest else (k, v) ∷ rest

abbrev pub pass_from : (Text → Option Text) → List Text → Entries
pass_from incoming [] = []
pass_from incoming (k ∷ ks) = pass_value k (incoming k) (pass_from incoming ks)

unfoldable pub export_query : (Text → Option Text) → Entries
export_query incoming = (codes "all", codes "1") ∷ pass_from incoming passed

module _ (head status_text booked_at : Text → Text) (locale : Text) where
  abbrev pub in_language : Text → Text → Text
  in_language ar en = if same locale (codes "ar") then ar else en

  abbrev pub head_cells : List Text → List Cell
  head_cells names = map (λ k. text (head k)) names

  unfoldable pub head_row : List Cell
  head_row = head_cells (
      codes "ref"
      ∷ codes "status"
      ∷ codes "guest"
      ∷ codes "phone"
      ∷ codes "compound"
      ∷ codes "unit"
      ∷ codes "checkIn"
      ∷ codes "checkOut"
      ∷ codes "nights"
      ∷ codes "guests"
      ∷ codes "total"
      ∷ codes "deposit"
      ∷ codes "paid"
      ∷ codes "bookedAt"
      ∷ [])

  unfoldable pub booking_cells : BookingRow → List Cell
  booking_cells b =
      text b.ref
      ∷ text (status_text b.status)
      ∷ text b.customer_name
      ∷ text (format_phone b.customer_phone)
      ∷ text (in_language b.compound_name_ar b.compound_name_en)
      ∷ text (in_language b.unit_title_ar b.unit_title_en)
      ∷ text (take 10 b.check_in)
      ∷ text (take 10 b.check_out)
      ∷ number b.nights
      ∷ number b.guests
      ∷ text (pounds b.total)
      ∷ text (pounds b.deposit_due)
      ∷ text (pounds b.paid_total)
      ∷ text (booked_at b.created_at)
      ∷ []

  unfoldable pub export_csv : List BookingRow → Text
  export_csv rows = to_csv (head_row ∷ map booking_cells rows)
