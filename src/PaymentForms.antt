-- ===== src/PaymentForms.antt =====
-- The dialogs of payments: web/src/components/admin/payment-actions.tsx and the page
-- web/src/app/[locale]/dashboard/payments/page.tsx that places them. A confirmation runs to its
-- end, as its buttons are off until then; `send` and the actions are those of InPlace.
pub mod Booking
pub mod Laws
mod Tests
use sahel.Common.{
  ℕ, ◌-◌, Bool, true, false, Option, none, some, List, [], ◌∷◌, ◌++◌, ◌==◌, if◌then◌else◌,
}
use sahel.Common.Int.{pos}
use sahel.Common.Lists.{any}
use sahel.Js.Text.{Text, codes, same, is_empty}
use sahel.Js.Text.Trim.{trim}
use sahel.Api.{Result, Method, Outcome, Answer, shows, redirects}
use sahel.AdminTypes.Bookings.{PaymentRow}
use sahel.EntityForm.{error_in}
use sahel.Filter.{Params, param}
use sahel.InPlace.{Body, verify_payment, reject_payment, record_payment}
use sahel.Money.{to_piasters, pounds_text}

abbrev pub tabs : List Text
tabs = codes "pending" ∷ codes "verified" ∷ codes "rejected" ∷ []

unfoldable pub tab_of : Params → Text
tab_of sp =
    if any (λ tab. same tab (param sp (codes "status"))) tabs
    then param sp (codes "status")
    else codes "pending"

unfoldable pub tab_href : Text → Text
tab_href tab =
    if same tab (codes "pending")
    then codes "/dashboard/payments"
    else codes "/dashboard/payments?status=" ++ tab

-- due || p.amount, where due is Math.max(p.deposit_due - p.paid_total, 0)
unfoldable pub suggested : PaymentRow → ℕ
suggested p = let due = p.deposit_due - p.paid_total in if due == 0 then p.amount else due

pub data Mode : Type 0 where
  verifying : Mode
  rejecting : Mode

pub data Message : Type 0 where
  amount_invalid : Message
  reason_required : Message
  password_rule : Message
  answered : (error : Text) → Message

-- What an action's answer says of an error.
unfoldable pub message_of : Outcome → Option Text
message_of o = elim o.answer [ shows error ↦ error_in error | redirects path ↦ none ]

-- The piasters of a typed amount: none for what is no amount, and for 0.
abbrev pub above_zero : Option ℕ → Option ℕ
above_zero none = none
above_zero (some p) = if p == 0 then none else some p

unfoldable pub amount_of : Text → Option ℕ
amount_of amount = above_zero (to_piasters amount)

pub record State : Type 0 where
  pub mode : Option Mode
  pub amount : Text
  pub reason : Text
  pub error : Option Message

abbrev pub initial_state : ℕ → State
initial_state piasters = record {
  mode = none;
  amount = pounds_text piasters;
  reason = [];
  error = none;
}

abbrev pub press : Mode → State → State
press mode s = record s { mode = some mode }

abbrev pub type_amount : Text → State → State
type_amount amount s = record s { amount = amount }

abbrev pub type_reason : Text → State → State
type_reason reason s = record s { reason = reason }

unfoldable pub close : State → State
close s = record s { mode = none; error = none }

-- The dialog after an answer; a success is told by a toast and refreshes the page.
abbrev pub ended : Option Text → State → State × Bool
ended (some error) s = (record s { error = some (answered error) }, false)
ended none s = (close s, true)

module _ {S V : Type 0} (stringify : Text → Text)
    (send : S → Method → Text → Option Body → S × Result V) (id : Text) where
  abbrev pub settled : State → S × Outcome → S × (State × Bool)
  settled s (api, o) = (api, ended (message_of o) s)

  abbrev pub run_verify : Option ℕ → State → S → S × (State × Bool)
  run_verify none s api = (api, (record s { error = some amount_invalid }, false))
  run_verify (some p) s api = settled s (verify_payment stringify send api id (some (pos p)))

  abbrev pub run_reject : State → S → S × (State × Bool)
  run_reject s api =
      if is_empty (trim s.reason)
      then (api, (record s { error = some reason_required }, false))
      else settled s (reject_payment stringify send api id s.reason)

  -- The confirming button: the API, the dialog, and whether a success is told.
  unfoldable pub run : State → S → S × (State × Bool)
  run s api = elim s.mode [
    | some verifying ↦ run_verify (amount_of s.amount) s api
    | some rejecting ↦ run_reject s api
    | none ↦ run_reject s api
  ]

-- RecordPayment
pub record Recording : Type 0 where
  pub is_open : Bool
  pub amount : Text
  pub sender : Text
  pub notes : Text
  pub error : Option Message

abbrev pub initial_recording : ℕ → Recording
initial_recording piasters = record {
  is_open = false;
  amount = pounds_text piasters;
  sender = [];
  notes = [];
  error = none;
}

abbrev pub open_recording : Recording → Recording
open_recording r = record r { is_open = true }

abbrev pub close_recording : Recording → Recording
close_recording r = record r { is_open = false }

abbrev pub type_recording : Text → Text → Text → Recording → Recording
type_recording amount sender notes r = record r { amount = amount; sender = sender; notes = notes }

module _ {S V : Type 0} (stringify : Text → Text)
    (send : S → Method → Text → Option Body → S × Result V) (booking_id : Text) where
  abbrev pub recorded : Option Text → Recording → Recording × Bool
  recorded (some error) r = (record r { error = some (answered error) }, false)
  recorded none r = (record r { is_open = false; error = none }, true)

  abbrev pub answered_with : Recording → S × Outcome → S × (Recording × Bool)
  answered_with r (api, o) = (api, recorded (message_of o) r)

  abbrev pub save_amount : Option ℕ → Recording → S → S × (Recording × Bool)
  save_amount none r api = (api, (record r { error = some amount_invalid }, false))
  save_amount (some p) r api =
      answered_with r (record_payment stringify send api booking_id (some (pos p)) r.sender r.notes)

  unfoldable pub save : Recording → S → S × (Recording × Bool)
  save r api = save_amount (amount_of r.amount) r api
