-- ===== src/Guest/Upload.antt =====
-- When the upload of a receipt succeeds.
use mathlib.Core.List.{append-nil}
use sahel.Common.{
  ℕ, ◌<◌, ◌≤◌, ◌*◌, ◌≡◌, ◌≢◌, refl, ◌⊎◌, ◌↔◌, inl, inr, true, false, ◌&&◌, Option, none, some, [],
  ◌∷◌, ◌==◌, leb, ltb, ◌++◌, arith, Bool-cases, if◌then◌else◌,
}
use sahel.Common.Lists.{All, all, length, take, drop}
use sahel.Js.Text.{Text, codes, is_empty, starts_with_split, starts_with-append}
use sahel.Js.Digits.{numeral, is_digit}
use sahel.Api.{error, Result, returned, failed, Response, is_ok, post}
use sahel.FormFields.{FormData, Value, typed, file, get_field, string_of}
use sahel.Guest.{GuestRequest, Answer, ok, refused, bearer, code_or_error, api_url, strip_slashes}
use sahel.Guest.Receipts.{
  is_ref, is_ref_char, Receipt, receipt_of, read_receipt, receipt_request, upload_file,
  upload_receipt,
}

-- A digit, or a capital without I, L, O and U.
abbrev pub IsRefChar : ℕ → Type 0
IsRefChar c =
    ((b'0' ≤ c) × (c ≤ b'9'))
    ⊎ ((b'A' ≤ c) × (c ≤ b'Z') × (c ≢ b'I') × (c ≢ b'L') × (c ≢ b'O') × (c ≢ b'U'))

-- BES- and five of these.
abbrev pub IsReference : Text → Type 0
IsReference ref =
    (rest : Text) × (ref ≡ codes "BES-" ++ rest) × (length rest ≡ 5) × All IsRefChar rest

is_ref_char_iff : (c : ℕ) → (is_ref_char c ≡ true) ↔ IsRefChar c
unfolding is_ref_char is_digit
is_ref_char_iff c = (λ h. ground (arith, h), λ h. ground (arith, h))

all_ref_chars : (s : Text) → (all is_ref_char s ≡ true) ↔ All IsRefChar s
all_ref_chars [] = (λ h. tt, λ h. refl)
all_ref_chars (c ∷ s) =
    let here = is_ref_char_iff c in
    let rest = all_ref_chars s in
    (
      λ h. (here.0 (ground (arith, h)), rest.0 (ground (arith, h))),
      λ (h, g). let a = here.1 h in let b = rest.1 g in rw a b,
    )

is_ref_iff : (ref : Text) → (is_ref ref ≡ true) ↔ IsReference ref
unfolding is_ref
is_ref_iff ref = (
  λ h.
      let (rest, e) = starts_with_split ref (codes "BES-") (ground (arith, h)) in
      let five : length (drop 4 ref) ≡ 5 = ground (arith, h) in
      let fine : all is_ref_char (drop 4 ref) ≡ true = ground (arith, h) in
      (rest, e, rw e at five, (all_ref_chars rest).0 (rw e at fine)),
  λ (rest, e, five, fine).
      let start = starts_with-append (codes "BES-") rest in
      let good = (all_ref_chars rest).1 fine in rw (e, start, five, good) refl,
)

abbrev name_of : Text → Text
name_of [] = codes "receipt"
name_of (c ∷ name) = c ∷ name

-- The text of a field, none for one that is missing, without what stands behind 120 code units.
abbrev text_of : Option Value → Text
text_of none = []
text_of (some (typed s)) = take 120 s
text_of (some (file name size)) = codes "[object File]"

abbrev signed : Option Text → Option Text
signed none = none
signed (some []) = none
signed (some (c ∷ token)) = some (codes "Bearer " ++ c ∷ token)

module _ {J : Type 0} (error_code : J → Option Text) (encode_uri : Text → Text) (base : Text)
    (network : GuestRequest Receipt → Result (Response J)) (token : Option Text) where
  -- What is asked of the API for the file of the form.
  abbrev pub asked : Text → FormData → Text → ℕ → GuestRequest Receipt
  asked ref form name size = record {
    method = post;
    url =
        strip_slashes base
        ++ (codes "/api/v1" ++ encode_uri (codes "/bookings/" ++ (ref ++ codes "/payments")));
    authorization = signed token;
    body = some (record {
      file_name = name_of name;
      size = size;
      sender_name = text_of (get_field form (codes "sender_name"));
      sender_number = text_of (get_field form (codes "sender_number"));
      phone_last4 = text_of (get_field form (codes "phone_last4"));
    });
  }

  -- The file of the form, of a size that is taken, was sent for the booking, and the API accepts it.
  abbrev pub IsSent : Text → FormData → Type 0
  IsSent ref form =
      (name : Text) × (size : ℕ) × (r : Response J) × (get_field form (codes "file")
        ≡ some (file name size))
      × (0 < size)
      × (size ≤ 10485760)
      × (network (asked ref form name size) ≡ returned r)
      × (200 ≤ r.status)
      × (r.status < 300)

  name_eq : (name : Text) → (if is_empty name then codes "receipt" else name) ≡ name_of name
  unfolding is_empty
  name_eq [] = refl
  name_eq (c ∷ name) = refl

  text_eq : (v : Option Value) → take 120 (string_of v) ≡ text_of v
  text_eq none = refl
  text_eq (some (typed s)) = refl
  text_eq (some (file name size)) = refl

  bearer_eq : (t : Option Text) → bearer t ≡ signed t
  unfolding is_empty
  bearer_eq none = refl
  bearer_eq (some []) = refl
  bearer_eq (some (c ∷ t)) = refl

  -- The request of the code is that one.
  request_eq :
      (ref : Text) (form : FormData) (name : Text) (size : ℕ)
      → receipt_request error_code encode_uri base network token ref (receipt_of form name size)
        ≡ asked ref form name size
  unfolding receipt_request api_url is_empty
  request_eq ref form name size =
      rw
        (
          append-nil (encode_uri (codes "/bookings/" ++ (ref ++ codes "/payments"))),
          name_eq name,
          text_eq (get_field form (codes "sender_name")),
          text_eq (get_field form (codes "sender_number")),
          text_eq (get_field form (codes "phone_last4")),
          bearer_eq token,
        )
        refl

  accepted :
      (out : Result (Response J))
      → read_receipt error_code encode_uri base network token out ≡ returned (ok none)
      → (r : Response J) × (out ≡ returned r) × (is_ok r.status ≡ true)
  accepted (failed e) h =
      let bad : ◌≡◌ {A = Result Answer} (failed e) (returned (ok none)) = h in absurd (cc)
  accepted (returned r) h = elim (Bool-cases (is_ok r.status)) [
    | inl fine ↦ (r, refl, fine)
    | inr other ↦ elim (Bool-cases (leb 500 r.status)) [
      | inl high ↦
          let bad : ◌≡◌ {A = Result Answer}
              (failed (error (codes "receipt upload answered " ++ numeral r.status)))
              (returned (ok none)) =
            rw (other, high) at h in
          absurd (cc)
      | inr low ↦
          let bad : ◌≡◌ {A = Result Answer} (returned (refused (code_or_error error_code r.body)))
              (returned (ok none)) =
            rw (other, low) at h in
          absurd (cc)
    ]
  ]

  good_status : (r : Response J) → is_ok r.status ≡ true → (200 ≤ r.status) × (r.status < 300)
  good_status r h = (ground (arith, h), ground (arith, h))

  refusal :
      (code : Text) → ◌≡◌ {A = Result Answer} (returned (refused code)) (returned (ok none)) → ⊥
  refusal code h = cc

  sent :
      (ref : Text) (form : FormData) (v : Option Value)
      → get_field form (codes "file") ≡ v
      → upload_file error_code encode_uri base network token ref form v ≡ returned (ok none)
      → IsSent ref form
  sent ref form none e h = absurd (refusal (codes "file_required") h)
  sent ref form (some (typed s)) e h = absurd (refusal (codes "file_required") h)
  sent ref form (some (file name size)) e h = elim (Bool-cases (size == 0)) [
    | inl none_in ↦ absurd (refusal (codes "file_required") (rw none_in at h))
    | inr some_in ↦ elim (Bool-cases (ltb (10 * 1024 * 1024) size)) [
      | inl large ↦ absurd (refusal (codes "file_too_large") (rw (some_in, large) at h))
      | inr fits ↦
          let (r, q, fine) =
            accepted (network (asked ref form name size))
              (rw (some_in, fits, request_eq ref form name size) at h) in
          let (low, high) = good_status r fine in
          (name, size, r, e, ground (arith, some_in), ground (arith, fits), q, low, high)
    ]
  ]

  taken :
      (ref : Text) (form : FormData)
      → is_ref ref ≡ true
      → IsSent ref form
      → upload_receipt error_code encode_uri base network token ref form ≡ returned (ok none)
  unfolding upload_receipt
  taken ref form e (name, size, r, held, some_in, fits, q, low, high) =
      let full : (size == 0) ≡ false = ground (arith, some_in) in
      let small : ltb (10 * 1024 * 1024) size ≡ false = ground (arith, fits) in
      let good : (leb 200 r.status && ltb r.status 300) ≡ true = ground (arith, low, high) in
      rw (e, held, full, small, request_eq ref form name size, q, good) refl

  -- uploadReceipt succeeds exactly when the reference is BES- and five digits or capitals without
  -- I, L, O and U, the form has a file of 1 byte to 10 MiB, and the API answers a status of 200 to
  -- 299 to one request: a POST to the payments of that booking, with the guest's token if there is
  -- one, and with this file and the sender's name, number and last digits of the phone, each cut
  -- to 120 code units.
  pub upload_receipt-IsSent :
      (ref : Text) (form : FormData)
      → (upload_receipt error_code encode_uri base network token ref form ≡ returned (ok none))
        ↔ (IsReference ref × IsSent ref form)
  unfolding upload_receipt
  upload_receipt-IsSent ref form = (
    λ h. elim (Bool-cases (is_ref ref)) [
      | inl e ↦
          ((is_ref_iff ref).0 e, sent ref form (get_field form (codes "file")) refl (rw e at h))
      | inr e ↦ absurd (refusal (codes "not_found") (rw e at h))
    ],
    λ (shaped, out). taken ref form ((is_ref_iff ref).1 shaped) out,
  )
