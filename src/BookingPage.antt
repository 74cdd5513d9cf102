-- ===== src/BookingPage.antt =====
-- web/src/app/[locale]/(public)/booking/[ref]/page.tsx: which booking the page looks up, and what
-- it shows. `upper` is toUpperCase; the request is guestFetch of Guest, with a query.
pub mod Laws
mod Tests
use sahel.Common.{
  ℕ, Bool, true, false, not, ◌&&◌, ◌||◌, Option, none, some, List, [], ◌∷◌, ◌++◌, leb, ltb, ◌==◌,
  if◌then◌else◌,
}
use sahel.Common.Lists.{keep, take, length, drop, all}
use sahel.Js.Text.{Text, codes, same, is_empty, starts_with}
use sahel.Js.Digits.{is_digit}
use sahel.Api.{Result, returned, failed, Response, get}
use sahel.Guest.{GuestRequest, GuestBody, ApiReply, api_url, bearer, read_guest}
use sahel.Labels.{text_or_blank}

-- [0-9A-HJKMNP-TV-Z]
unfoldable pub is_ref_char : ℕ → Bool
is_ref_char c =
    is_digit c
    || (leb b'A' c && leb c b'H')
    || (c == b'J')
    || (c == b'K')
    || (c == b'M')
    || (c == b'N')
    || (leb b'P' c && leb c b'T')
    || (leb b'V' c && leb c b'Z')

-- REF.test
unfoldable pub is_ref : Text → Bool
is_ref s =
    let code = drop 4 s in
    starts_with s (codes "BES-") && all is_ref_char code && (length code == 5)

-- The digits of a parameter, four at most.
unfoldable pub last_4 : Option Text → Text
last_4 phone = take 4 (keep is_digit (text_or_blank phone))

unfoldable pub lookup_query : Text → Text
lookup_query last4 = if is_empty last4 then [] else codes "phone_last4=" ++ last4

abbrev pub path_of : Text → Text
path_of ref = codes "/bookings/" ++ ref

abbrev pub request_of : (Text → Text) → Text → Option Text → Text → Text → GuestRequest GuestBody
request_of encode_uri base token path query = record {
  method = get;
  url = api_url encode_uri base path query;
  authorization = bearer token;
  body = none;
}

-- The booking that the page has, or none.
abbrev pub body_of {ℓ} : {J : Type ℓ} → Result (ApiReply J) → Result (Option J)
body_of (failed e) = failed e
body_of (returned r) = returned r.body

module _ {J : Type 0} (upper : Text → Text) (error_code : J → Option Text)
    (encode_uri : Text → Text) (base : Text)
    (network : GuestRequest GuestBody → Result (Response J)) (token : Option Text) where
  unfoldable pub lookup : Text → Option Text → Result (Option J)
  lookup raw phone =
      let ref = upper raw in
      if is_ref ref
      then body_of (
          read_guest error_code (path_of ref) (
            network (request_of encode_uri base token (path_of ref) (lookup_query (last_4 phone)))))
      else returned none

-- What the page shows below a booking's heading.
pub data Panel : Type 0 where
  payment : Panel
  expired : Panel
  nothing : Panel

unfoldable pub panel_of : Text → Panel
panel_of status =
    if same status (codes "pending_payment") || same status (codes "awaiting_verification")
    then payment
    else if same status (codes "expired")
    then expired
    else nothing

-- Without a booking: that it was not found, or what to type.
unfoldable pub is_failed : Text → Bool
is_failed last4 = not (is_empty last4)
