-- ===== src/PaymentPanel/Tests.antt =====
-- What is due for bookings.
use sahel.Common.{◌≡◌, refl, true, some, none, [], ◌∷◌}
use sahel.Js.Text.{codes}
use sahel.AdminTypes.Bookings.{rejected, pending}
use sahel.Guest.{refused}
use sahel.PublicTypes.{GuestPayment}
use sahel.PaymentPanel.{last_rejected, uploaded}

abbrev payment : GuestPayment
payment = record {
  status = rejected;
  amount = 100;
  rejection_reason = some (codes "blurred");
  created_at = [];
}

runs :
    (last_rejected (payment ∷ record payment { status = pending } ∷ []) ≡ some payment)
    × ((uploaded
          (λ c. true)
          (refused (codes "file_too_large"))
          (record { now = 0; error = none })).0.error
        ≡ some (codes "file_too_large"))
unfolding last_rejected uploaded
runs = (refl, refl)
