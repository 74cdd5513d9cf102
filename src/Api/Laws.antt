-- ===== src/Api/Laws.antt =====
-- What the dashboard does with the API's answers, and the identifiers that reach a URL.
use sahel.Common.{
  ℕ, zero, suc, ◌+◌, ◌≡◌, refl, ◌↔◌, inl, inr, Bool, true, false, ◌||◌, Option, none, some, [], ◌∷◌,
  ◌++◌, ◌==◌, arith, Bool-cases,
}
use sahel.Common.Lists.{length, all}
use sahel.Js.Text.{Text, codes, is_empty}
use sahel.Api.{
  error, Result, returned, failed, Method, Env, Request, Response, api_base, is_ok, authorization,
  read_response, Body, admin_fetch, not_found, get_or_404, mutate, is_hex, hex_then, dash_then,
  is_uuid, assert_id, read_answer, content_type_of, fetch_with, authorization_of, no_password,
}

-- The characters of an identifier.
abbrev pub is_id_char : ℕ → Bool
is_id_char c = is_hex c || (c == b'-')

abbrev Shape : (Text → Bool) → ℕ → Type 0
Shape p n = (s : Text) → p s ≡ true → (length s ≡ n) × (all is_id_char s ≡ true)

Shape-hex_then : (n m : ℕ) (p : Text → Bool) → Shape p m → Shape (hex_then n p) (n + m)
Shape-hex_then zero m p h s e = let (size, chars) = h s e in (omega (arith, size), chars)
Shape-hex_then (suc n) m p h [] e = absurd (cc)
Shape-hex_then (suc n) m p h (c ∷ s) e =
    let (size, chars) = Shape-hex_then n m p h s (ground arith) in
    (omega (arith, size), ground (arith, chars))

Shape-dash_then : (m : ℕ) (p : Text → Bool) → Shape p m → Shape (dash_then p) (suc m)
Shape-dash_then m p h [] e = absurd (cc)
Shape-dash_then m p h (c ∷ s) e =
    let (size, chars) = h s (ground arith) in (omega (arith, size), ground (arith, chars))

Shape-is_empty : Shape is_empty 0
unfolding is_empty
Shape-is_empty [] h = (refl, refl)
Shape-is_empty (c ∷ s) h = absurd (cc)

uuid_shape : (s : Text) → is_uuid s ≡ true → (length s ≡ 36) × (all is_id_char s ≡ true)
unfolding is_uuid
uuid_shape =
    let end = Shape-dash_then _ _ (Shape-hex_then 12 0 is_empty Shape-is_empty) in
    let third = Shape-dash_then _ _ (Shape-hex_then 4 _ _ end) in
    let second = Shape-dash_then _ _ (Shape-hex_then 4 _ _ third) in
    Shape-hex_then 8 _ _ (Shape-dash_then _ _ (Shape-hex_then 4 _ _ second))

-- An identifier that assertId lets into a URL is returned as it is, has 36 characters, and all of
-- them are hexadecimal digits or dashes.
pub assert_id_lem :
    (stringify : Text → Text) (id out : Text)
    → assert_id stringify id ≡ returned out
    → (out ≡ id) × (length id ≡ 36) × (all is_id_char id ≡ true)
unfolding assert_id
assert_id_lem stringify id out h = elim (Bool-cases (is_uuid id)) [
  | inl e ↦ (
    let q : ◌≡◌ {A = Result Text} (returned id) (returned out) = rw e at h in cc,
    (uuid_shape id e).0,
    (uuid_shape id e).1,
  )
  | inr e ↦
      let q : ◌≡◌ {A = Result Text} (failed (error (codes "invalid id " ++ stringify id)))
          (returned out) =
        rw e at h in
      absurd (cc)
]

module _ {ℓ} {J : Type ℓ} (error_code error_message : J → Option Text) where
  -- A page is not found exactly when the API answers 404, whatever the body of its answer.
  pub get_or_404-read_response :
      (r : Response J)
      → (get_or_404 (read_response error_code error_message r) ≡ not_found) ↔ (r.status ≡ 404)
  unfolding get_or_404 read_response
  get_or_404-read_response r = (λ h. ground arith, λ h. rw h refl)

  read_ok :
      (r : Response J)
      → is_ok r.status ≡ true
      → (v : Option J) × (read_response error_code error_message r ≡ returned v)
  unfolding read_response
  read_ok r h = elim (Bool-cases (r.status == 204)) [
    | inl e ↦ (none, rw e refl)
    | inr e ↦ (r.body, rw (e, h) refl)
  ]

  ok_read :
      (r : Response J) (v : Option J)
      → read_response error_code error_message r ≡ returned v
      → is_ok r.status ≡ true
  unfolding read_response
  ok_read r v h = ground arith

  answered :
      (got : Result (Response J)) (v : Option J)
      → read_answer error_code error_message got ≡ returned v
      → (r : Response J) × (got ≡ returned r) × (is_ok r.status ≡ true)
  answered (failed e) v h = absurd (cc)
  answered (returned r) v h = (r, refl, ok_read r v h)

revalidated_value :
    {A : Type 0} (out : Result A) (next : A → Text)
    → (mutate out next).revalidated ≡ true
    → (v : A) × (out ≡ returned v)
unfolding mutate
revalidated_value (failed e) next h = absurd (cc)
revalidated_value (returned v) next h = (v, refl)

module _ {J : Type 0} (to_base64 : Text → Text) (error_code error_message : J → Option Text)
    (network : Request (Body J) → Result (Response J)) (env : Env) where
  -- The request of a write.
  abbrev pub request_of : Text → Method → Text → Option (Body J) → Request (Body J)
  request_of password method path body = record {
    method = method;
    url = api_base env ++ codes "/api/v1/admin" ++ path;
    authorization = codes "Basic " ++ to_base64 (codes "admin:" ++ password);
    content_type = content_type_of body;
    body = body;
  }

  -- The environment has a password, and the API accepts the write made with it.
  abbrev pub IsAccepted : Method → Text → Option (Body J) → Type 0
  IsAccepted method path body =
      (password : Text) × (env.admin_password ≡ some password)
      × (is_empty password ≡ false)
      × (r : Response J) × (network (request_of password method path body) ≡ returned r)
      × (is_ok r.status ≡ true)

  with_password :
      (given : Option Text) (method : Method) (path : Text) (body : Option (Body J)) (v : Option J)
      → env.admin_password ≡ given
      → fetch_with to_base64 error_code error_message network env
          (authorization_of to_base64 given)
          method
          path
          body
        ≡ returned v
      → IsAccepted method path body
  with_password none method path body v e h = absurd (cc)
  with_password (some p) method path body v e h = elim (Bool-cases (is_empty p)) [
    | inl blank ↦
        let bad : ◌≡◌ {A = Result (Option J)} (failed no_password) (returned v) = rw blank at h in
        absurd (cc)
    | inr full ↦
        let (r, got, fine) =
          answered error_code error_message (network (request_of p method path body)) v
            (rw full at h) in
        (p, e, full, r, got, fine)
  ]

  -- A write of the dashboard revalidates its pages exactly when it is made with a password that is
  -- not empty and the API accepts it with a status of 200 to 299.
  pub mutate-admin_fetch :
      (method : Method) (path : Text) (body : Option (Body J)) (next : Option J → Text)
      → ((mutate
            (admin_fetch to_base64 error_code error_message network env method path body)
            next).revalidated
          ≡ true)
        ↔ IsAccepted method path body
  unfolding mutate admin_fetch authorization api_base
  mutate-admin_fetch method path body next = (
    λ h.
        let (v, e) =
          revalidated_value
            (admin_fetch to_base64 error_code error_message network env method path body) next h in
        with_password env.admin_password method path body v refl e,
    λ (p, e, full, r, got, fine).
        let (v, read) = read_ok error_code error_message r fine in rw (e, full, got, read) refl,
  )
