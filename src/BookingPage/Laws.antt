-- ===== src/BookingPage/Laws.antt =====
-- What the page asks the API for.
use sahel.Common.{
  ℕ, zero, suc, ◌≤◌, ◌⊎◌, ap, ◌≡◌, refl, inl, inr, true, Option, none, some, [], ◌∷◌, ◌++◌, arith,
  Bool-cases,
}
use sahel.Common.Lists.{keep, take, length, all}
use sahel.Js.Text.{Text, codes, is_empty}
use sahel.Js.Digits.{is_digit}
use sahel.Api.{Result, Response}
use sahel.Guest.{GuestRequest, GuestBody, read_guest}
use sahel.BookingPage.{is_ref, last_4, lookup_query, request_of, path_of, body_of, lookup}

-- A blank query, or the last digits of a phone, one to four.
abbrev pub IsQuery : Text → Type 0
IsQuery query =
    (query ≡ [])
    ⊎ ((digits : Text) × (query ≡ codes "phone_last4=" ++ digits)
        × (1 ≤ length digits)
        × (length digits ≤ 4)
        × (all is_digit digits ≡ true))

all-keep : (s : Text) → all is_digit (keep is_digit s) ≡ true
all-keep [] = refl
all-keep (c ∷ s) = elim (Bool-cases (is_digit c)) [
  | inl e ↦ rw e (rw e (all-keep s))
  | inr e ↦ rw e (all-keep s)
]

take_lem :
    (n : ℕ) (s : Text)
    → all is_digit s ≡ true
    → (length (take n s) ≤ n) × (all is_digit (take n s) ≡ true)
take_lem zero s h = (omega arith, refl)
take_lem (suc n) [] h = (omega arith, refl)
take_lem (suc n) (c ∷ s) h =
    let more = take_lem n s (ground (arith, h)) in
    (omega (arith, more.0), ground (arith, h, more.1))

lookup_query-IsQuery :
    (digits : Text) → length digits ≤ 4 → all is_digit digits ≡ true → IsQuery (lookup_query digits)
unfolding lookup_query is_empty
lookup_query-IsQuery [] h g = inl refl
lookup_query-IsQuery (c ∷ s) h g = inr (c ∷ s, refl, omega arith, h, g)

last_4-IsQuery : (phone : Option Text) → IsQuery (lookup_query (last_4 phone))
unfolding last_4
last_4-IsQuery none = lookup_query-IsQuery [] (omega arith) refl
last_4-IsQuery (some s) =
    let four = take_lem 4 (keep is_digit s) (all-keep s) in
    lookup_query-IsQuery (take 4 (keep is_digit s)) four.0 four.1

module _ {J : Type 0} (upper : Text → Text) (error_code : J → Option Text)
    (encode_uri : Text → Text) (base : Text)
    (network other : GuestRequest GuestBody → Result (Response J)) (token : Option Text) where
  -- The two networks answer alike whenever a good reference is asked for with a good query.
  abbrev pub IsAlike : Type 0
  IsAlike =
      (ref query : Text)
      → is_ref ref ≡ true
      → IsQuery query
      → network (request_of encode_uri base token (path_of ref) query)
        ≡ other (request_of encode_uri base token (path_of ref) query)

  -- The page of a booking depends on the API only for references of the right shape, and only with
  -- no query or with phone_last4 of one to four digits: two networks that answer those requests
  -- alike give the same page.
  pub lookup_lem :
      (raw : Text) (phone : Option Text)
      → IsAlike
      → lookup upper error_code encode_uri base network token raw phone
        ≡ lookup upper error_code encode_uri base other token raw phone
  unfolding lookup
  lookup_lem raw phone h = elim (Bool-cases (is_ref (upper raw))) [
    | inl e ↦ rw e (
        ap (λ (r : Result (Response J)). body_of (read_guest error_code (path_of (upper raw)) r))
          (h (upper raw) (lookup_query (last_4 phone)) e (last_4-IsQuery phone)))
    | inr e ↦ rw e refl
  ]
