-- ===== src/Api/Receipts/Laws.antt =====
-- What the browser gets for a receipt.
use sahel.Common.{
  ℕ, ◌≡◌, refl, ap, ◌∙◌, ◌⊎◌, inl, inr, Bool, true, false, Option, none, some, [], ◌∷◌, ◌++◌, ◌==◌,
  Bool-cases, Option-cases, if◌then◌else◌,
}
use sahel.Js.Text.{Text, codes}
use sahel.Api.{Result, failed, returned, Env, api_base, authorization, is_ok, is_uuid, assert_id}
use sahel.Api.Receipts.{
  RawResponse, RawRequest, Reply, raw_with, admin_raw, headers_of, streamed, reply_to, get_proof,
}

module _ {F : Type 0} (to_base64 stringify : Text → Text)
    (network : RawRequest → Result (RawResponse F)) (env : Env) where
  -- A good response with a file.
  abbrev pub IsStreamed : Text → F → Option Text → Type 0
  IsStreamed id file content_type =
      (auth : Text) × (r : RawResponse F) × (is_uuid id ≡ true)
      × (authorization to_base64 env ≡ returned auth)
      × (network (record {
        url =
            api_base env ++ codes "/api/v1/admin" ++ (codes "/payments/" ++ (id ++ codes "/proof"));
        authorization = auth;
      })
          ≡ returned r)
      × (is_ok r.status ≡ true)
      × (r.file ≡ some file)
      × (r.content_type ≡ content_type)

  -- The type that a file is sent with.
  abbrev pub kind_of : Option Text → Text
  kind_of none = codes "application/octet-stream"
  kind_of (some kind) = kind

  abbrev pub with_file : F → Option Text → Reply F
  with_file file content_type = record {
    status = 200;
    file = some file;
    headers =
        (codes "Content-Type", kind_of content_type)
        ∷ (codes "Cache-Control", codes "private, no-store")
        ∷ (codes "X-Content-Type-Options", codes "nosniff")
        ∷ [];
  }

  abbrev pub no_file : ℕ → Reply F
  no_file status = record { status = status; file = none; headers = [] }

  -- The outcomes: nothing but a 404 or a 502, or the file.
  abbrev pub IsOutcome : Text → Reply F → Type 0
  IsOutcome id reply =
      (reply ≡ no_file 404)
      ⊎ (reply ≡ no_file 502)
      ⊎ ((file : F) × (content_type : Option Text) × IsStreamed id file content_type
          × (reply ≡ with_file file content_type))

  sent_as :
      (file : F) (content_type : Option Text)
      → ◌≡◌ {A = Reply F}
          (record {
            status = 200;
            file = some file;
            headers = headers_of to_base64 stringify network env content_type;
          })
          (with_file file content_type)
  sent_as file none = refl
  sent_as file (some kind) = refl

  abbrev pub path_to : Text → Text
  path_to id = codes "/payments/" ++ (id ++ codes "/proof")

  abbrev pub request_for : Text → Text → RawRequest
  request_for id auth = record {
    url = api_base env ++ codes "/api/v1/admin" ++ path_to id;
    authorization = auth;
  }

  file_cases :
      (id auth : Text) (r : RawResponse F)
      → is_uuid id ≡ true
      → authorization to_base64 env ≡ returned auth
      → network (request_for id auth) ≡ returned r
      → IsOutcome id (streamed to_base64 stringify network env r r.file)
  file_cases id auth r u a n = elim (Option-cases r.file) [
    | inl none_sent ↦ rw none_sent (bad (r.status == 404))
    | inr (file, sent) ↦ elim (Bool-cases (is_ok r.status)) [
      | inl good ↦
          rw (sent, good)
            (inr (
              inr (
                file,
                r.content_type,
                (auth, r, u, a, n, good, sent, refl),
                sent_as file r.content_type,
              )))
      | inr wrong ↦ rw (sent, wrong) (bad (r.status == 404))
    ]
  ]
    where
      bad : (b : Bool) → IsOutcome id (no_file (if b then 404 else 502))
      bad true = inl refl
      bad false = inr (inl refl)

  network_cases :
      (id auth : Text) (x : Result (RawResponse F))
      → is_uuid id ≡ true
      → authorization to_base64 env ≡ returned auth
      → network (request_for id auth) ≡ x
      → IsOutcome id (reply_to to_base64 stringify network env x)
  network_cases id auth (failed e) u a n = inl refl
  network_cases id auth (returned r) u a n = file_cases id auth r u a n

  auth_cases :
      (id : Text) (a : Result Text)
      → is_uuid id ≡ true
      → authorization to_base64 env ≡ a
      → IsOutcome id (
          reply_to to_base64 stringify network env
            (raw_with to_base64 stringify network env a (path_to id)))
  auth_cases id (failed e) u h = inl refl
  auth_cases id (returned auth) u h = network_cases id auth (network (request_for id auth)) u h refl

  asked_api :
      (id : Text)
      → is_uuid id ≡ true
      → get_proof to_base64 stringify network env id
        ≡ reply_to to_base64 stringify network env
            (raw_with to_base64 stringify network env (authorization to_base64 env) (path_to id))
  unfolding get_proof admin_raw assert_id
  asked_api id e = rw e refl

  no_id :
      (id : Text) → is_uuid id ≡ false → get_proof to_base64 stringify network env id ≡ no_file 404
  unfolding get_proof assert_id
  no_id id h = rw h refl

  outcome : (id : Text) → IsOutcome id (get_proof to_base64 stringify network env id)
  outcome id = elim (Bool-cases (is_uuid id)) [
    | inl e ↦ rw (asked_api id e) (auth_cases id (authorization to_base64 env) e refl)
    | inr e ↦ inl (no_id id e)
  ]

  good_file :
      (id : Text) (file : F) (content_type : Option Text)
      → IsStreamed id file content_type
      → get_proof to_base64 stringify network env id ≡ with_file file content_type
  unfolding get_proof admin_raw assert_id
  good_file id file content_type (auth, r, u, a, n, ok, sent, kind) =
      rw (u, a, n, sent, ok)
        (sent_as file r.content_type ∙ ap (λ (k : Option Text). with_file file k) kind)

  -- The route of a receipt answers 404, 502, or 200 with a file. The file is sent only for a UUID,
  -- when the password is set and the API answered that receipt's request with a status of 200 to
  -- 299 and this file, and is then always sent, with the content type of the answer or
  -- application/octet-stream where it has none, and with headers that keep it from caches and from
  -- type sniffing; what is no UUID is answered 404.
  pub get_proof_lem :
      (id : Text)
      → IsOutcome id (get_proof to_base64 stringify network env id)
        × ((file : F) (content_type : Option Text)
            → IsStreamed id file content_type
            → get_proof to_base64 stringify network env id ≡ with_file file content_type)
        × (is_uuid id ≡ false → get_proof to_base64 stringify network env id ≡ no_file 404)
  get_proof_lem id = (outcome id, good_file id, no_id id)
