-- ===== src/Api/Receipts.antt =====
-- The rest of web/src/lib/admin/api.ts, which fixes a method or gives the raw response, and the
-- route that streams a receipt, web/src/app/[locale]/dashboard/payments/[id]/proof/route.ts. A
-- request of the network fails when there is no response; a file is what the body carries.
pub mod Laws
mod Tests
use sahel.Common.{
  ℕ, Bool, true, false, not, Option, none, some, List, [], ◌∷◌, ◌++◌, ◌==◌, if◌then◌else◌,
}
use sahel.Js.Text.{Text, codes}
use sahel.Api.{
  Failure, Result, failed, returned, Method, get, Env, Request, Response, Body, api_base,
  authorization, is_ok, admin_fetch, assert_id, or_else,
}

module _ {ℓ} {J : Type ℓ} (to_base64 : Text → Text) (error_code error_message : J → Option Text)
    (network : Request (Body J) → Result (Response J)) (env : Env) where
  unfoldable pub admin_get : Text → Result (Option J)
  admin_get path = admin_fetch to_base64 error_code error_message network env get path none

  -- A body is undefined, or one that FormData or JSON carries.
  unfoldable pub admin_send : Method → Text → Option (Body J) → Result (Option J)
  admin_send method path body =
      admin_fetch to_base64 error_code error_message network env method path body

pub record RawResponse (F : Type 0) : Type 0 where
  pub status : ℕ
  pub file : Option F
  pub content_type : Option Text

pub record RawRequest : Type 0 where
  pub url : Text
  pub authorization : Text

pub record Reply (F : Type 0) : Type 0 where
  pub status : ℕ
  -- none for the text of an error
  pub file : Option F
  pub headers : List (Text × Text)

module _ {F : Type 0} (to_base64 stringify : Text → Text)
    (network : RawRequest → Result (RawResponse F)) (env : Env) where
  abbrev pub raw_with : Result Text → Text → Result (RawResponse F)
  raw_with (failed e) path = failed e
  raw_with (returned auth) path =
      network (record { url = api_base env ++ codes "/api/v1/admin" ++ path; authorization = auth })

  unfoldable pub admin_raw : Text → Result (RawResponse F)
  admin_raw path = raw_with (authorization to_base64 env) path

  abbrev pub raw_to : Result Text → Result (RawResponse F)
  raw_to (failed e) = failed e
  raw_to (returned id) = admin_raw (codes "/payments/" ++ (id ++ codes "/proof"))

  abbrev pub not_found : ℕ → Reply F
  not_found status = record { status = status; file = none; headers = [] }

  abbrev pub headers_of : Option Text → List (Text × Text)
  headers_of content_type =
      (codes "Content-Type", or_else content_type (codes "application/octet-stream"))
      ∷ (codes "Cache-Control", codes "private, no-store")
      ∷ (codes "X-Content-Type-Options", codes "nosniff")
      ∷ []

  abbrev pub streamed : RawResponse F → Option F → Reply F
  streamed r none = not_found (if r.status == 404 then 404 else 502)
  streamed r (some file) =
      if not (is_ok r.status)
      then not_found (if r.status == 404 then 404 else 502)
      else record { status = 200; file = some file; headers = headers_of r.content_type }

  abbrev pub reply_to : Result (RawResponse F) → Reply F
  reply_to (failed e) = not_found 404
  reply_to (returned r) = streamed r r.file

  unfoldable pub get_proof : Text → Reply F
  get_proof id = reply_to (raw_to (assert_id stringify id))
