-- ===== src/Guest/Receipts.antt =====
-- uploadReceipt and signOutGuest of web/src/app/[locale]/(public)/guest-actions.ts. The upload
-- does not go through guestFetch: a form with a file is sent.
use sahel.Common.{
  ℕ, ◌*◌, Bool, not, ◌&&◌, ◌||◌, Option, none, some, [], ◌∷◌, ◌++◌, leb, ltb, ◌==◌, if◌then◌else◌,
}
use sahel.Common.Lists.{take, drop, all, length}
use sahel.Js.Text.{Text, codes, is_empty, starts_with}
use sahel.Js.Digits.{is_digit, numeral}
use sahel.Api.{error, Result, returned, failed, Response, is_ok, post}
use sahel.FormFields.{FormData, Value, typed, file, get_field, string_of}
use sahel.Paths.{locale_text, safe_locale}
use sahel.Guest.{GuestRequest, Answer, ok, refused, bearer, code_or_error, api_url}

-- [0-9A-HJKMNP-TV-Z]: digits and capitals without I, L, O and U.
unfoldable pub is_ref_char : ℕ → Bool
is_ref_char c =
    is_digit c
    || (leb b'A' c && leb c b'H')
    || (c == b'J')
    || (c == b'K')
    || (c == b'M')
    || (c == b'N')
    || (leb b'P' c && leb c b'T')
    || (leb b'V' c && leb c b'Z')

-- REF.test
unfoldable pub is_ref : Text → Bool
is_ref s =
    let rest = drop 4 s in
    starts_with s (codes "BES-") && (length rest == 5) && all is_ref_char rest

pub record Receipt : Type 0 where
  pub file_name : Text
  pub size : ℕ
  pub sender_name : Text
  pub sender_number : Text
  pub phone_last4 : Text

abbrev pub field_of : FormData → Text → Text
field_of form key = take 120 (string_of (get_field form key))

abbrev pub receipt_of : FormData → Text → ℕ → Receipt
receipt_of form name size = record {
  file_name = if is_empty name then codes "receipt" else name;
  size = size;
  sender_name = field_of form (codes "sender_name");
  sender_number = field_of form (codes "sender_number");
  phone_last4 = field_of form (codes "phone_last4");
}

module _ {J : Type 0} (error_code : J → Option Text) (encode_uri : Text → Text) (base : Text)
    (network : GuestRequest Receipt → Result (Response J)) (token : Option Text) where
  abbrev pub read_receipt : Result (Response J) → Result Answer
  read_receipt (failed e) = failed e
  read_receipt (returned r) =
      if is_ok r.status
      then returned (ok none)
      else if leb 500 r.status
      then failed (error (codes "receipt upload answered " ++ numeral r.status))
      else returned (refused (code_or_error error_code r.body))

  unfoldable pub receipt_request : Text → Receipt → GuestRequest Receipt
  receipt_request ref receipt = record {
    method = post;
    url = api_url encode_uri base (codes "/bookings/" ++ (ref ++ codes "/payments")) [];
    authorization = bearer token;
    body = some receipt;
  }

  abbrev pub upload_file : Text → FormData → Option Value → Result Answer
  upload_file ref form none = returned (refused (codes "file_required"))
  upload_file ref form (some (typed s)) = returned (refused (codes "file_required"))
  upload_file ref form (some (file name size)) =
      if size == 0
      then returned (refused (codes "file_required"))
      else if ltb (10 * 1024 * 1024) size
      then returned (refused (codes "file_too_large"))
      else read_receipt (network (receipt_request ref (receipt_of form name size)))

  unfoldable pub upload_receipt : Text → FormData → Result Answer
  upload_receipt ref form =
      if not (is_ref ref)
      then returned (refused (codes "not_found"))
      else upload_file ref form (get_field form (codes "file"))

-- The page after signing out; the session's cookie is deleted.
unfoldable pub sign_out_guest : Text → Text
sign_out_guest locale = b'/' ∷ locale_text (safe_locale locale)
