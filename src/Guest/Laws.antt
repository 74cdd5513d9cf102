-- ===== src/Guest/Laws.antt =====
-- When a guest's session is kept, and when a stay is booked.
use sahel.Common.{
  ℕ, ◌≡◌, refl, ap, ◌∙◌, ◌↔◌, inl, inr, true, false, not, ◌||◌, Option, none, some, [], ◌++◌, leb,
  arith, Bool-cases,
}
use sahel.Common.Lists.{take}
use sahel.Js.Text.{Text, codes}
use sahel.Js.Digits.{numeral}
use sahel.Js.Date.{day_shape}
use sahel.Api.{error, Result, returned, failed, Response, is_ok, post}
use sahel.Guest.{
  GuestRequest, ApiReply, GuestBody, login, booking, code_or_error, read_reply, read_guest, api_url,
  bearer, guest_fetch, Answer, ok, refused, keep_body, keep_session, sign_in, booked, booked_body,
  book_stay,
}

module _ {J : Type 0} (error_code : J → Option Text) (encode_uri : Text → Text) (base : Text)
    (network : GuestRequest GuestBody → Result (Response J)) (token : Option Text) where
  abbrev pub request_to : Text → GuestBody → GuestRequest GuestBody
  request_to path body = record {
    method = post;
    url = api_url encode_uri base path [];
    authorization = bearer token;
    body = some body;
  }

  -- The API accepts what is sent and answers with a body.
  abbrev pub Accepts : Text → GuestBody → J → Type 0
  Accepts path body j =
      (r : Response J) × (network (request_to path body) ≡ returned r)
      × (is_ok r.status ≡ true)
      × (r.body ≡ some j)

  not_above : (status : ℕ) → is_ok status ≡ true → leb 500 status ≡ false
  not_above status h = ground arith

  -- What is read of a response: its body, and only of one that is accepted.
  body_read :
      (path : Text) (r : Response J) (v : ApiReply J) (j : J)
      → read_reply error_code path r ≡ returned v
      → v.body ≡ some j
      → (is_ok r.status ≡ true) × (r.body ≡ some j)
  unfolding read_reply
  body_read path r v j h b = elim (Bool-cases (leb 500 r.status)) [
    | inl high ↦
        let bad : failed (error (codes "API " ++ path ++ codes " answered " ++ numeral r.status))
            ≡ returned v =
          rw high at h in
        absurd (cc)
    | inr low ↦ elim (Bool-cases (is_ok r.status)) [
      | inl fine ↦
          let same : ◌≡◌ {A = Result (ApiReply J)}
              (returned (record { status = r.status; body = r.body; code = none })) (returned v) =
            rw (low, fine) at h in
          let q : record { status = r.status; body = r.body; code = none } ≡ v = cc in
          (fine, ap (λ a. a.body) q ∙ b)
      | inr not_fine ↦
          let same : ◌≡◌ {A = Result (ApiReply J)}
              (returned (record {
                status = r.status;
                body = none;
                code = some (code_or_error error_code r.body);
              }))
              (returned v) =
            rw (low, not_fine) at h in
          let q : record {
            status = r.status;
            body = none;
            code = some (code_or_error error_code r.body);
          }
              ≡ v =
            cc in
          let bad : ◌≡◌ {A = Option J} none (some j) = ap (λ a. a.body) q ∙ b in absurd (cc)
    ]
  ]

  read_accepted :
      (path : Text) (r : Response J)
      → is_ok r.status ≡ true
      → read_reply error_code path r
        ≡ returned (record { status = r.status; body = r.body; code = none })
  unfolding read_reply
  read_accepted path r h = rw (not_above r.status h, h) refl

  kept_of :
      (token_of : J → Text) (path : Text) (body : GuestBody) (t : Text) (got : Result (Response J))
      → network (request_to path body) ≡ got
      → (keep_session token_of (read_guest error_code path got)).kept ≡ some t
      → (j : J) × Accepts path body j × (token_of j ≡ t)
  kept_of token_of path body t (failed e) q h = absurd (cc)
  kept_of token_of path body t (returned r) q h = from_reply (read_reply error_code path r) refl h
    where
      from_body :
          (v : ApiReply J) (o : Option J)
          → v.body ≡ o
          → read_reply error_code path r ≡ returned v
          → (keep_body token_of v.code o).kept ≡ some t
          → (j : J) × Accepts path body j × (token_of j ≡ t)
      from_body v none b e k = absurd (cc)
      from_body v (some j) b e k =
          let (fine, has) = body_read path r v j e b in (j, (r, q, fine, has), cc)

      from_reply :
          (out : Result (ApiReply J))
          → read_reply error_code path r ≡ out
          → (keep_session token_of out).kept ≡ some t
          → (j : J) × Accepts path body j × (token_of j ≡ t)
      from_reply (failed e) q k = absurd (cc)
      from_reply (returned v) q k = from_body v v.body refl q k

  -- A guest's sign-in keeps a token in the session cookie exactly when the API answers its
  -- request, with the phone cut to 40 and the password to 200 code units, by a status of 200 to
  -- 299 and a body with that token.
  pub sign_in-Accepts :
      (token_of : J → Text) (phone password t : Text)
      → ((sign_in error_code encode_uri base network token token_of phone password).kept ≡ some t)
        ↔ ((j : J) × Accepts (codes "/auth/login") (login (take 40 phone) (take 200 password)) j
            × (token_of j ≡ t))
  unfolding sign_in guest_fetch
  sign_in-Accepts token_of phone password t = (
    λ h.
        kept_of token_of (codes "/auth/login") (login (take 40 phone) (take 200 password)) t _ refl
          h,
    λ (j, (r, got, fine, has), e).
        rw (got, read_accepted (codes "/auth/login") r fine, has) (ap some e),
  )

  booked_of :
      (ref_of : J → Text) (path : Text) (body : GuestBody) (t : Text) (got : Result (Response J))
      → network (request_to path body) ≡ got
      → booked ref_of (read_guest error_code path got) ≡ returned (ok (some t))
      → (j : J) × Accepts path body j × (ref_of j ≡ t)
  booked_of ref_of path body t (failed e) q h = absurd (cc)
  booked_of ref_of path body t (returned r) q h = from_reply (read_reply error_code path r) refl h
    where
      from_body :
          (v : ApiReply J) (o : Option J)
          → v.body ≡ o
          → read_reply error_code path r ≡ returned v
          → booked_body ref_of v.code o ≡ returned (ok (some t))
          → (j : J) × Accepts path body j × (ref_of j ≡ t)
      from_body v none b e k = absurd (cc)
      from_body v (some j) b e k =
          let (fine, has) = body_read path r v j e b in (j, (r, q, fine, has), cc)

      from_reply :
          (out : Result (ApiReply J))
          → read_reply error_code path r ≡ out
          → booked ref_of out ≡ returned (ok (some t))
          → (j : J) × Accepts path body j × (ref_of j ≡ t)
      from_reply (failed e) q k = absurd (cc)
      from_reply (returned v) q k = from_body v v.body refl q k

  -- A guest's booking with a whole number of guests succeeds with a reference exactly when both
  -- dates have the shape of a day and the API answers the request for that unit, these dates and
  -- these guests by a status of 200 to 299 and a body with that reference.
  pub book_stay-Accepts :
      (ref_of : J → Text) (slug check_in check_out ref : Text) (guests : ℕ)
      → (book_stay error_code encode_uri base network token ref_of slug check_in check_out
            (some guests)
          ≡ returned (ok (some ref)))
        ↔ ((day_shape check_in ≡ true)
            × (day_shape check_out ≡ true)
            × (j : J) × Accepts (codes "/bookings") (booking slug check_in check_out guests) j
            × (ref_of j ≡ ref))
  unfolding book_stay guest_fetch
  book_stay-Accepts ref_of slug check_in check_out ref guests = (
    λ h. elim (Bool-cases (not (day_shape check_in) || not (day_shape check_out))) [
      | inl bad ↦
          let no : ◌≡◌ {A = Result Answer} (returned (refused (codes "invalid_range")))
              (returned (ok (some ref))) =
            rw bad at h in
          absurd (cc)
      | inr days ↦
          let (j, sent, e) =
            booked_of ref_of (codes "/bookings") (booking slug check_in check_out guests) ref _ refl
              (rw days at h) in
          (ground arith, ground arith, j, sent, e)
    ],
    λ (a, b, j, (r, got, fine, has), e).
        rw (a, b, got, read_accepted (codes "/bookings") r fine, has, e) refl,
  )
