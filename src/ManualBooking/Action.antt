-- ===== src/ManualBooking/Action.antt =====
-- Booking the stay: `submit` and the total of manual-booking-form.tsx, and the server actions of
-- web/src/app/[locale]/dashboard/bookings/new/actions.ts. A guest count that is not all digits is
-- converted by `to_number`: Math.trunc(Number(s)), and none for NaN.
use sahel.Common.{
  ℕ, ◌*◌, not, ◌&&◌, ◌||◌, Option, none, some, List, [], ◌∷◌, ◌++◌, ltb, ◌==◌, if◌then◌else◌,
}
use sahel.Common.Int.{ℤ, pos, negsuc}
use sahel.Common.Lists.{any, all, take}
use sahel.Js.Text.{Text, codes, before, same, is_empty}
use sahel.Js.Digits.{is_digit, number}
use sahel.Js.Date.{day_shape}
use sahel.Money.{to_piasters}
use sahel.Timeline.{◌>>=◌, nights_between, add_days}
use sahel.Api.{api_error, error, Result, returned, failed, or_else, assert_id}
use sahel.ManualBooking.{State}

-- The body of the request.
pub record Booking : Type 0 where
  pub unit_id : Text
  pub check_in : Text
  pub check_out : Text
  pub guests : ℤ
  pub phone : Text
  pub name : Text
  pub nightly_price : ℕ

pub record ManualBookingInput : Type 0 where
  pub unit_id : Text
  pub check_in : Text
  pub check_out : Text
  -- none is NaN
  pub guests : Option ℤ
  pub phone : Text
  pub name : Text
  pub nightly_price : ℕ

pub record Reply : Type 0 where
  pub id : Option Text
  pub error : Option Text

abbrev pub day : Text → Text
day s = if day_shape s then s else []

unfoldable pub booking_of : ManualBookingInput → Booking
booking_of input = record {
  unit_id = input.unit_id;
  check_in = day input.check_in;
  check_out = day input.check_out;
  guests = or_else input.guests (pos 0);
  phone = take 40 input.phone;
  name = take 120 input.name;
  nightly_price = input.nightly_price;
}

-- The identifier of what the API made, or its error code; an answer without a body has no `id`.
unfoldable pub reply_of : Result (Option Text) → Reply
reply_of (returned none) = record { id = none; error = some (codes "error") }
reply_of (returned (some id)) = record { id = some id; error = none }
reply_of (failed (api_error status code message)) = record { id = none; error = some code }
reply_of (failed (error message)) = record { id = none; error = some (codes "error") }

module _ (send : Booking → Result (Option Text)) where
  unfoldable pub create_manual_booking : ManualBookingInput → Reply
  create_manual_booking input = reply_of (send (booking_of input))

module _ (engine : Text → Option ℤ) (stringify : Text → Text) where
  abbrev closed_from : Text → Text → Option Text
  closed_from today now = add_days engine (if day_shape today then today else now) (negsuc 59)

  abbrev taken_path : Result Text → Text → Text → Result Text
  taken_path (failed e) from to = failed e
  taken_path (returned id) from to =
      returned (codes "/units/" ++ id ++ codes "/taken?from=" ++ from ++ codes "&to=" ++ to)

  -- The path that `takenNights` asks for; `now` is the present day.
  unfoldable pub taken_nights : Text → Text → Text → Option (Result Text)
  taken_nights unit_id today now = do
    from ← closed_from today now
    to ← add_days engine from (pos 490)
    some (taken_path (assert_id stringify unit_id) from to)

abbrev pub known : List Text
known =
    codes "invalid_range"
    ∷ codes "invalid_phone"
    ∷ codes "invalid_name"
    ∷ codes "invalid_guests"
    ∷ codes "price_required"
    ∷ codes "unit_required"
    ∷ codes "dates_taken"
    ∷ []

-- How a submit ends: with the error that is shown, or on the page of the new booking.
pub data Submitted : Type 0 where
  shows : (key : Text) → Submitted
  opens : (path : Text) → Submitted

-- The guards of `submit`: the key of an error, or what the server action is called with.
pub data Request : Type 0 where
  refused : (key : Text) → Request
  calls : (input : ManualBookingInput) → Request

abbrev pub count_of : (Text → Option ℤ) → Text → Option ℤ
count_of to_number s = if all is_digit s then some (pos (number s)) else to_number s

abbrev pub price_request : State → Option ℤ → Option ℕ → Request
price_request s guests none = refused (codes "errors.price_required")
price_request s guests (some p) =
    if p == 0
    then refused (codes "errors.price_required")
    else calls (record {
      unit_id = s.unit_id;
      check_in = or_else s.range.check_in [];
      check_out = or_else s.range.check_out [];
      guests = guests;
      phone = s.phone;
      name = s.name;
      nightly_price = p;
    })

unfoldable pub request : (Text → Option ℤ) → State → Request
request to_number s =
    if is_empty s.unit_id
    then refused (codes "errors.unit_required")
    else if is_empty (or_else s.range.check_in []) || is_empty (or_else s.range.check_out [])
    then refused (codes "errors.dates_required")
    else price_request s (count_of to_number s.guests) (to_piasters s.price)

abbrev pub shown_error : Text → Text
shown_error e = codes "errors." ++ (if any (same e) known then e else codes "error")

abbrev pub after_reply : Option Text → Option Text → Submitted
after_reply none e = shows (shown_error (or_else e []))
after_reply (some id) none =
    if is_empty id then shows (codes "errors.error") else opens (codes "/dashboard/bookings/" ++ id)
after_reply (some id) (some e) =
    if is_empty id || not (is_empty e)
    then shows (shown_error e)
    else opens (codes "/dashboard/bookings/" ++ id)

module _ (to_number : Text → Option ℤ) (act : ManualBookingInput → Reply) where
  abbrev run_request : Request → Submitted
  run_request (refused key) = shows key
  run_request (calls input) = let r = act input in after_reply r.id r.error

  unfoldable pub submit : State → Submitted
  submit s = run_request (request to_number s)

module _ (engine : Text → Option ℤ) where
  -- checkIn && checkOut && checkOut > checkIn ? nightsBetween(checkIn, checkOut) : 0
  unfoldable pub nights : Text → Text → Option ℤ
  nights check_in check_out =
      if not (is_empty check_in) && not (is_empty check_out) && before check_in check_out
      then nights_between engine check_in check_out
      else some (pos 0)

  abbrev pub total_of : Option ℤ → Option ℕ → Option ℕ
  total_of (some (pos n)) (some p) = if ltb 0 n && ltb 0 p then some (p * n) else none
  total_of (some (pos n)) none = none
  total_of (some (negsuc n)) price = none
  total_of none price = none

  unfoldable pub total : State → Option ℕ
  total s =
      total_of (nights (or_else s.range.check_in []) (or_else s.range.check_out []))
        (to_piasters s.price)
