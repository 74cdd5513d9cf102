-- ===== src/PaymentForms/Tests.antt =====
-- The dialogs on an API that keeps a log of what it was sent.
use sahel.Common.{◌≡◌, refl, true, Option, none, List, [], ◌∷◌}
use sahel.Js.Text.{Text, codes, is_empty, same}
use sahel.Js.Text.Trim.{trim, trim_start, trim_end, is_space}
use sahel.Js.Digits.{is_digit}
use sahel.Api.{Result, returned, Method, attempt, is_uuid, assert_id}
use sahel.AdminTypes.Bookings.{PaymentRow, pending, guest}
use sahel.InPlace.{
  Body, verify_payment, reject_payment, record_payment, cancel_booking, set_guest_password,
  save_instapay, money,
}
use sahel.PaymentForms.{
  suggested, rejecting, message_of, amount_of, initial_state, press, close, run, save,
}
use sahel.PaymentForms.Booking.{initial_dialog, Account, confirm, set_password, save_account}

abbrev Log : Type 0
Log = List Text

abbrev send : Log → Method → Text → Option Body → Log × Result (Unit {0})
send log method path body = (path ∷ log, returned tt)

abbrev plain : Text → Text
plain s = s

abbrev payment_id : Text
payment_id = codes "00000000-0000-0000-0000-000000000001"

abbrev receipt : PaymentRow
receipt = record {
  id = payment_id;
  status = pending;
  amount = 50000;
  sender_name = codes "Mona";
  sender_number = codes "";
  rejection_reason = none;
  recorded_by = guest;
  created_at = codes "2027-05-01T10:00:00Z";
  verified_at = none;
  has_proof = true;
  proof_type = none;
  booking_id = payment_id;
  ref = codes "BS-1";
  booking_status = codes "awaiting_verification";
  deposit_due = 75050;
  paid_total = 25000;
  total = 150000;
  check_in = codes "2027-06-01";
  check_out = codes "2027-06-05";
  unit_title_ar = codes "";
  unit_title_en = codes "Villa";
  customer_name = codes "Mona";
  customer_phone = codes "";
}

dialogs : Unit {0}
unfolding suggested message_of amount_of close run save is_empty is_uuid assert_id attempt is_digit
    same trim trim_start trim_end is_space confirm set_password save_account verify_payment
    reject_payment record_payment cancel_booking set_guest_password save_instapay money
dialogs = tt

runs :
    ((run plain send payment_id (press rejecting (initial_state 5)) []).0 ≡ [])
    × (suggested receipt ≡ 50050)
    × ((run plain send payment_id
          (press rejecting (record (initial_state 5) { reason = codes "blurred" }))
          []).1.1
        ≡ true)
    × ((set_password plain send payment_id (record initial_dialog { typed = codes "short" }) []).0
        ≡ [])
unfolding dialogs
runs = (refl, refl, refl, refl)

abbrev account : Account
account = record {
  address = codes "a@instapay";
  mobile = codes "";
  holder = codes "A";
  error = none;
}
