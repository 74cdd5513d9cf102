-- ===== src/Api.antt =====
-- The dashboard's client of the Go API, web/src/lib/admin/api.ts, and the helpers of its server
-- actions, web/src/lib/admin/actions.ts. A promise that is rejected is a `failed` result. The
-- network and the base64 encoding are parameters; a JSON value is known by its `error` fields.
pub mod Laws
pub mod Receipts
mod Tests
use sahel.Common.{
  ℕ, zero, suc, Bool, true, false, not, ◌&&◌, ◌||◌, Option, none, some, List, [], ◌∷◌, ◌++◌, ltb,
  leb, ◌==◌, if◌then◌else◌,
}
use sahel.Js.Text.{Text, codes, is_empty}
use sahel.Js.Digits.{is_digit, numeral}

-- What is thrown: an `ApiError`, or an `Error` with its message.
pub data Failure : Type 0 where
  api_error : (status : ℕ) (code message : Text) → Failure
  error : (message : Text) → Failure

pub data Result {ℓ} (A : Type ℓ) : Type ℓ where
  returned : (value : A) → Result A
  failed : (failure : Failure) → Result A

pub data Method : Type 0 where
  get : Method
  post : Method
  put : Method
  patch : Method
  delete : Method

-- The environment variables that the client reads.
pub record Env : Type 0 where
  pub api_url : Option Text
  pub next_public_api_url : Option Text
  pub admin_password : Option Text

pub record Request {ℓ} (B : Type ℓ) : Type ℓ where
  pub method : Method
  pub url : Text
  pub authorization : Text
  -- none without a body, or with one that is not a string
  pub content_type : Option Text
  pub body : Option B

-- The body is none when it is no JSON.
pub record Response {ℓ} (J : Type ℓ) : Type ℓ where
  pub status : ℕ
  pub body : Option J

-- a ?? b
abbrev pub or_else {ℓ} : {A : Type ℓ} → Option A → A → A
or_else none b = b
or_else (some a) b = a

unfoldable pub api_base : Env → Text
api_base env = or_else env.api_url (or_else env.next_public_api_url (codes "http://localhost:8090"))

-- res.ok
abbrev pub is_ok : ℕ → Bool
is_ok status = leb 200 status && ltb status 300

abbrev pub no_password : Failure
no_password = error (codes "ADMIN_PASSWORD is not set for the web app (see .env)")

module _ (to_base64 : Text → Text) where
  abbrev pub authorization_of : Option Text → Result Text
  authorization_of none = failed no_password
  authorization_of (some password) =
      if is_empty password
      then failed no_password
      else returned (codes "Basic " ++ to_base64 (codes "admin:" ++ password))

  unfoldable pub authorization : Env → Result Text
  authorization env = authorization_of env.admin_password

-- The parts of the API's JSON that the client reads: body?.error?.code and body?.error?.message.
module _ {ℓ} {J : Type ℓ} (error_code error_message : J → Option Text) where
  abbrev pub code_of : Option J → Text
  code_of none = codes "http_error"
  code_of (some j) = or_else (error_code j) (codes "http_error")

  abbrev pub message_of : ℕ → Option J → Text
  message_of status none = codes "The API answered " ++ numeral status
  message_of status (some j) =
      or_else (error_message j) (codes "The API answered " ++ numeral status)

  -- What `adminFetch` makes of a response. The value of none is undefined, or null.
  unfoldable pub read_response : Response J → Result (Option J)
  read_response r =
      if r.status == 204
      then returned none
      else if not (is_ok r.status)
      then failed (api_error r.status (code_of r.body) (message_of r.status r.body))
      else returned r.body

  abbrev pub read_answer : Result (Response J) → Result (Option J)
  read_answer (failed e) = failed e
  read_answer (returned r) = read_response r

-- A body of the source is a `FormData`, or an object that is sent as JSON.
pub data Body {ℓ} (J : Type ℓ) : Type ℓ where
  form_data : Body J
  json : (value : J) → Body J

abbrev pub content_type_of {ℓ} : {J : Type ℓ} → Option (Body J) → Option Text
content_type_of none = none
content_type_of (some form_data) = none
content_type_of (some (json value)) = some (codes "application/json")

module _ {ℓ} {J : Type ℓ} (to_base64 : Text → Text) (error_code error_message : J → Option Text)
    (network : Request (Body J) → Result (Response J)) (env : Env) where
  abbrev pub fetch_with : Result Text → Method → Text → Option (Body J) → Result (Option J)
  fetch_with (failed e) method path body = failed e
  fetch_with (returned auth) method path body = read_answer error_code error_message (
      network (record {
        method = method;
        url = api_base env ++ codes "/api/v1/admin" ++ path;
        authorization = auth;
        content_type = content_type_of body;
        body = body;
      }))

  unfoldable pub admin_fetch : Method → Text → Option (Body J) → Result (Option J)
  admin_fetch method path body = fetch_with (authorization to_base64 env) method path body

-- `notFound()` shows the page for what does not exist.
pub data Page {ℓ} (A : Type ℓ) : Type ℓ where
  found : (value : A) → Page A
  not_found : Page A
  thrown : (failure : Failure) → Page A

unfoldable pub get_or_404 {ℓ} : {A : Type ℓ} → Result A → Page A
get_or_404 (returned value) = found value
get_or_404 (failed (api_error status code message)) =
    if status == 404 then not_found else thrown (api_error status code message)
get_or_404 (failed (error message)) = thrown (error message)

unfoldable pub error_message_of : Failure → Text
error_message_of (api_error status code message) = message
error_message_of (error message) = message

-- How a server action ends: whether the dashboard's pages are revalidated, and the error that the
-- form shows or the page to which the browser is sent.
pub data Answer : Type 0 where
  shows : (error : Option Text) → Answer
  redirects : (path : Text) → Answer

pub record Outcome : Type 0 where
  pub revalidated : Bool
  pub answer : Answer

unfoldable pub mutate {ℓ} : {A : Type ℓ} → Result A → (A → Text) → Outcome
mutate (failed e) next = record { revalidated = false; answer = shows (some (error_message_of e)) }
mutate (returned value) next = record { revalidated = true; answer = redirects (next value) }

unfoldable pub attempt {ℓ} : {A : Type ℓ} → Result A → Outcome
attempt (failed e) = record { revalidated = false; answer = shows (some (error_message_of e)) }
attempt (returned value) = record { revalidated = true; answer = shows none }

abbrev pub is_hex : ℕ → Bool
is_hex c = is_digit c || (leb b'a' c && leb c b'f') || (leb b'A' c && leb c b'F')

-- n hexadecimal digits, and then what the rest must match.
abbrev pub hex_then : ℕ → (Text → Bool) → Text → Bool
hex_then zero rest s = rest s
hex_then (suc n) rest [] = false
hex_then (suc n) rest (c ∷ s) = is_hex c && hex_then n rest s

abbrev pub dash_then : (Text → Bool) → Text → Bool
dash_then rest [] = false
dash_then rest (c ∷ s) = (c == b'-') && rest s

unfoldable pub is_uuid : Text → Bool
is_uuid s =
    hex_then 8
      (dash_then (
        hex_then 4
          (dash_then (hex_then 4 (dash_then (hex_then 4 (dash_then (hex_then 12 is_empty))))))))
      s

-- The message quotes the identifier as JSON.
unfoldable pub assert_id : (Text → Text) → Text → Result Text
assert_id stringify id =
    if is_uuid id then returned id else failed (error (codes "invalid id " ++ stringify id))
