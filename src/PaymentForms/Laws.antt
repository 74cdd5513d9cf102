-- ===== src/PaymentForms/Laws.antt =====
-- What the dialogs send.
use sahel.Common.{ℕ, ◌+◌, ◌≤◌, ◌<◌, ◌≡◌, ◌⊎◌, Bool, Option, none, some}
use sahel.Common.Lists.{length}
use sahel.Js.Text.{Text}
use sahel.Api.{Result, Method, attempt}
use sahel.AdminTypes.Bookings.{PaymentRow}
use sahel.InPlace.{
  Body, verify, reject, payment, instapay, cancel, password, block, photo, details, sort,
}
use sahel.PaymentForms.{message_of, State, ended}

module _ {S V : Type 0} (stringify : Text → Text)
    (send : S → Method → Text → Option Body → S × Result V) where
  -- The dialog after the API's answer.
  abbrev pub reached : State → S × Result V → S × (State × Bool)
  reached s (api, r) = (api, ended (message_of (attempt r)) s)

  -- What is verified: the deposit that is still due, and the stated amount where none is.
  abbrev pub IsDue : PaymentRow → ℕ → Type 0
  IsDue row piasters =
      (row.paid_total + piasters ≡ row.deposit_due)
      ⊎ ((row.deposit_due ≤ row.paid_total) × (piasters ≡ row.amount))

  -- A note is left out, or is a text that is not empty and not too long.
  abbrev pub IsNote : Option Text → Type 0
  IsNote none = Unit
  IsNote (some note) = (0 < length note) × (length note ≤ 300)

  -- The rules of what a form sends.
  abbrev pub IsSendable : Body → Type 0
  IsSendable (verify amount) = 0 < amount
  IsSendable (reject reason) = (0 < length reason) × (length reason ≤ 300)
  IsSendable (payment amount sender notes) = (0 < amount) × (length sender ≤ 120) × IsNote notes
  IsSendable (instapay address mobile holder) =
      (length address ≤ 120) × (length mobile ≤ 40) × (length holder ≤ 120)
  IsSendable (cancel reason) = length reason ≤ 300
  IsSendable (password w) = (8 ≤ length w) × (length w ≤ 72)
  IsSendable (block start end note) = ⊥
  IsSendable (photo name size) = ⊥
  IsSendable (details ar en cover) = ⊥
  IsSendable (sort index) = ⊥

  -- Nothing is sent, or a body that keeps the rules is.
  abbrev pub IsGuarded : S → S → Type 0
  IsGuarded api after =
      (after ≡ api)
      ⊎ ((method : Method) × (path : Text) × (body : Body) × IsSendable body
          × (after ≡ (send api method path (some body)).0))
