-- ===== src/PaymentPanel.antt =====
-- web/src/app/[locale]/(public)/booking/[ref]/payment-panel.tsx: what is due, how long the hold
-- lasts, and the upload of a receipt. Times are those of Countdown.
mod Tests
use sahel.Common.{
  ℕ, ◌-◌, Bool, true, false, not, ◌&&◌, ◌||◌, Option, none, some, List, [], ◌∷◌, if◌then◌else◌,
}
use sahel.Js.Text.{Text, codes, same, is_empty}
use sahel.Api.{Result, returned, failed}
use sahel.AdminTypes.Bookings.{PaymentStatus, rejected}
use sahel.Countdown.{Remaining, remaining}
use sahel.Guest.{Answer, ok, refused}
use sahel.PublicTypes.{GuestBooking, GuestPayment}

pub record State : Type 0 where
  pub now : ℕ
  pub error : Option Text

unfoldable pub waiting : GuestBooking → Bool
waiting b = same b.base.status (codes "awaiting_verification")

-- Math.max(deposit_due - paid_total, 0)
unfoldable pub due : GuestBooking → ℕ
due b = b.base.deposit_due - b.base.paid_total

abbrev pub is_rejected : PaymentStatus → Bool
is_rejected rejected = true
is_rejected status = false

-- The last of the payments that is rejected.
unfoldable pub last_rejected : List GuestPayment → Option GuestPayment
last_rejected [] = none
last_rejected (p ∷ ps) = elim (last_rejected ps) [
  | some later ↦ some later
  | none ↦ if is_rejected p.status then some p else none
]

unfoldable pub configured : GuestBooking → Bool
configured b = not (is_empty b.instapay.address) || not (is_empty b.instapay.mobile)

-- The timer runs while no receipt waits for its verification.
unfoldable pub tick : GuestBooking → ℕ → State → State
tick b now s = if waiting b then s else record s { now = now }

module _ (parse_time : Text → Option ℕ) where
  unfoldable pub left : GuestBooking → State → Remaining
  left b s = remaining parse_time b.base.hold_expires_at s.now

  -- The page is read again when the hold is over.
  unfoldable pub refreshes : GuestBooking → State → Bool
  refreshes b s = not (waiting b) && (left b s).over

-- `has` tells which codes have a text of their own.
abbrev pub error_text : (Text → Bool) → Text → Text
error_text has code = if has code then code else codes "error"

-- After the answer to an upload: the state, and whether the page is read again.
unfoldable pub uploaded : (Text → Bool) → Answer → State → State × Bool
uploaded has (ok ref) s = (record s { error = none }, true)
uploaded has (refused code) s = (record s { error = some (error_text has code) }, false)
