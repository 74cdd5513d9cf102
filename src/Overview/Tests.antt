-- ===== src/Overview/Tests.antt =====
-- The sidebar on the page of one unit, and a customer with a cancelled booking.
use sahel.Common.{ℕ, ◌≡◌, refl, true, false, [], ◌∷◌}
use sahel.Js.Text.{Text, codes, same, starts_with, is_empty}
use sahel.AdminTypes.Bookings.{BookingRow}
use sahel.Overview.{is_active, booked_value, count_of, attention, needs_attention, other_locale}

abbrev booking : Text → ℕ → BookingRow
booking status total = record {
  id = codes "b";
  ref = codes "BES-00000";
  check_in = codes "2027-06-01";
  check_out = codes "2027-06-03";
  nights = 2;
  guests = 2;
  status = status;
  total = total;
  created_at = [];
  unit_id = codes "u";
  unit_title_ar = [];
  unit_title_en = [];
  compound_name_ar = [];
  compound_name_en = [];
  deposit_due = 0;
  paid_total = 0;
  source = codes "guest";
  customer_name = [];
  customer_phone = [];
}

dashboard : Unit {0}
unfolding same starts_with is_empty is_active booked_value count_of attention needs_attention
    other_locale
dashboard = tt

runs :
    (booked_value (booking (codes "cancelled") 100 ∷ booking (codes "confirmed") 250 ∷ []) ≡ 250)
    × (is_active (codes "/dashboard/units/7") (codes "/dashboard/units") ≡ true)
    × (is_active (codes "/dashboard/units/7") (codes "/dashboard") ≡ false)
    × (attention [] ≡ [])
unfolding dashboard
runs = (refl, refl, refl, refl)
