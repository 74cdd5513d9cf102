-- ===== src/PaymentForms/Booking.antt =====
-- The dialogs of a booking's page, cancel-booking.tsx and guest-password.tsx under
-- web/src/app/[locale]/dashboard/bookings/[id], and the form of
-- web/src/app/[locale]/dashboard/settings/instapay-form.tsx.
use sahel.Common.{Bool, true, false, Option, none, some, [], ltb, if◌then◌else◌}
use sahel.Common.Lists.{length}
use sahel.Js.Text.{Text}
use sahel.Api.{Result, Method, Outcome}
use sahel.InPlace.{Body, save_instapay, cancel_booking, set_guest_password}
use sahel.PaymentForms.{Message, answered, password_rule, message_of}

-- A dialog with one field.
pub record Dialog : Type 0 where
  pub is_open : Bool
  pub typed : Text
  pub error : Option Message

abbrev pub initial_dialog : Dialog
initial_dialog = record { is_open = false; typed = []; error = none }

-- Its opening and closing button, which leave the field as it is, and typing in it.
abbrev pub open_dialog : Dialog → Dialog
open_dialog d = record d { is_open = true }

abbrev pub close_dialog : Dialog → Dialog
close_dialog d = record d { is_open = false }

abbrev pub type_field : Text → Dialog → Dialog
type_field typed d = record d { typed = typed }

pub record Account : Type 0 where
  pub address : Text
  pub mobile : Text
  pub holder : Text
  pub error : Option Message

abbrev pub type_account : Text → Text → Text → Account → Account
type_account address mobile holder a = record a {
  address = address;
  mobile = mobile;
  holder = holder;
}

module _ {S V : Type 0} (stringify : Text → Text)
    (send : S → Method → Text → Option Body → S × Result V) (id : Text) where
  -- A cancelled booking's dialog keeps its field, and the error of an earlier answer.
  abbrev pub cancelled : Option Text → Dialog → Dialog × Bool
  cancelled (some error) d = (record d { error = some (answered error) }, false)
  cancelled none d = (record d { is_open = false }, true)

  abbrev pub cancelled_with : Dialog → S × Outcome → S × (Dialog × Bool)
  cancelled_with d (api, o) = (api, cancelled (message_of o) d)

  unfoldable pub confirm : Dialog → S → S × (Dialog × Bool)
  confirm d api = cancelled_with d (cancel_booking stringify send api id d.typed)

  abbrev pub changed : Option Text → Dialog → Dialog × Bool
  changed (some error) d = (record d { error = some (answered error) }, false)
  changed none d = (initial_dialog, true)

  abbrev pub changed_with : Dialog → S × Outcome → S × (Dialog × Bool)
  changed_with d (api, o) = (api, changed (message_of o) d)

  unfoldable pub set_password : Dialog → S → S × (Dialog × Bool)
  set_password d api =
      if ltb (length d.typed) 8
      then (api, (record d { error = some password_rule }, false))
      else changed_with d (set_guest_password stringify send api id d.typed)

module _ {S V : Type 0} (stringify : Text → Text)
    (send : S → Method → Text → Option Body → S × Result V) where
  abbrev pub saved : Option Text → Account → Account × Bool
  saved (some error) a = (record a { error = some (answered error) }, false)
  saved none a = (record a { error = none }, true)

  abbrev pub saved_with : Account → S × Outcome → S × (Account × Bool)
  saved_with a (api, o) = (api, saved (message_of o) a)

  unfoldable pub save_account : Account → S → S × (Account × Bool)
  save_account a api = saved_with a (save_instapay stringify send api a.address a.mobile a.holder)
