-- ===== src/InPlace.antt =====
-- The server actions of the dashboard that stay on the page: actions.ts of payments, bookings and
-- timeline, and image-actions.ts of units, under web/src/app/[locale]/dashboard. `send` is
-- adminSend, on the state of the API; here an identifier that assertId refuses is caught.
pub mod Images
pub mod Order
pub mod Tests
use sahel.Common.{
  ℕ, Bool, true, false, Option, none, some, List, [], ◌∷◌, ◌++◌, ◌==◌, if◌then◌else◌,
}
use sahel.Common.Int.{ℤ, pos, negsuc}
use sahel.Common.Lists.{take}
use sahel.Js.Text.{Text, codes}
use sahel.Js.Date.{day_shape}
use sahel.Api.{
  Failure, api_error, error, Result, returned, failed, Method, put, post, patch, delete, Outcome,
  attempt, assert_id,
}
use sahel.FormFields.{FormData, Value, typed, file, get_field, unless_blank}

-- What an action sends; `photo` is a form with a file.
pub data Body : Type 0 where
  verify : (amount : ℕ) → Body
  reject : (reason : Text) → Body
  payment : (amount : ℕ) (sender_name : Text) (notes : Option Text) → Body
  instapay : (address mobile holder_name : Text) → Body
  cancel : (reason : Text) → Body
  password : (password : Text) → Body
  block : (start end note : Text) → Body
  photo : (name : Text) (size : ℕ) → Body
  details : (alt_ar alt_en : Option Text) (is_cover : Option Bool) → Body
  sort : (index : ℕ) → Body

-- An integer above 0, and 0 for what is none; a number with a fraction is none.
unfoldable pub money : Option ℤ → ℕ
money none = 0
money (some (pos n)) = n
money (some (negsuc n)) = 0

module _ {S V : Type 0} (stringify : Text → Text)
    (send : S → Method → Text → Option Body → S × Result V) where
  -- A write whose path needs an identifier: without a good one nothing is sent.
  abbrev pub send_to : S → Method → Result Text → Option Body → S × Result V
  send_to s method (failed e) body = (s, failed e)
  send_to s method (returned path) body = send s method path body

  abbrev pub suffix : Text → Result Text → Text → Result Text
  suffix before (failed e) after = failed e
  suffix before (returned id) after = returned (before ++ (id ++ after))

  -- `${before}${assertId(id)}${after}`
  abbrev pub path_of : Text → Text → Text → Result Text
  path_of before id after = suffix before (assert_id stringify id) after

  abbrev pub attempted : S × Result V → S × Outcome
  attempted (s, r) = (s, attempt r)

  unfoldable pub verify_payment : S → Text → Option ℤ → S × Outcome
  verify_payment s id amount = attempted (
      send_to s post (path_of (codes "/payments/") id (codes "/verify"))
        (some (verify (money amount))))

  unfoldable pub reject_payment : S → Text → Text → S × Outcome
  reject_payment s id reason = attempted (
      send_to s post (path_of (codes "/payments/") id (codes "/reject"))
        (some (reject (take 300 reason))))

  unfoldable pub record_payment : S → Text → Option ℤ → Text → Text → S × Outcome
  record_payment s booking_id amount sender_name notes = attempted (
      send_to s post (path_of (codes "/bookings/") booking_id (codes "/payments"))
        (some (payment (money amount) (take 120 sender_name) (unless_blank (take 300 notes)))))

  unfoldable pub save_instapay : S → Text → Text → Text → S × Outcome
  save_instapay s address mobile holder_name = attempted (
      send s put (codes "/settings/instapay")
        (some (instapay (take 120 address) (take 40 mobile) (take 120 holder_name))))

  unfoldable pub cancel_booking : S → Text → Text → S × Outcome
  cancel_booking s id reason = attempted (
      send_to s post (path_of (codes "/bookings/") id (codes "/cancel"))
        (some (cancel (take 300 reason))))

  unfoldable pub set_guest_password : S → Text → Text → S × Outcome
  set_guest_password s customer_id secret = attempted (
      send_to s post (path_of (codes "/customers/") customer_id (codes "/password"))
        (some (password (take 72 secret))))

  -- The timeline's actions answer with the API's code of an error, where there is one.
  abbrev pub code_of : Failure → Text
  code_of (api_error status code message) = code
  code_of (error message) = codes "error"

  abbrev pub run : S × Result V → S × Option Text
  run (s, failed e) = (s, some (code_of e))
  run (s, returned v) = (s, none)

  abbrev pub day : Text → Text
  day s = if day_shape s then s else []

  unfoldable pub create_block : S → Text → Text → Text → Text → S × Option Text
  create_block s unit_id start end note = run (
      send_to s post (path_of (codes "/units/") unit_id (codes "/blocks"))
        (some (block (day start) (day end) (take 200 note))))

  unfoldable pub delete_block : S → Text → S × Option Text
  delete_block s id = run (send_to s delete (path_of (codes "/blocks/") id (codes "")) none)
