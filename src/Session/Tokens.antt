-- ===== src/Session/Tokens.antt =====
-- Which tokens are accepted.
use mathlib.Core.List.{[], ◌∷◌, ◌++◌}
use sahel.Common.{
  ℕ, ◌+◌, ◌<◌, ◌≡◌, refl, ◌≢◌, true, false, Option, none, some, ltb, ◌==◌, arith, Bool-cases,
  Option-cases, inl, inr,
}
use sahel.Common.Lists.{all}
use sahel.Js.Text.{Text, is_empty, is_empty_iff}
use sahel.Js.Digits.{is_digit, number, numeral, number-numeral, numeral-is_digit, numeral-ne-nil}
use sahel.Session.{
  dot, Platform, grow, split_dot, sign, constant_time_equal, create_session_token, verify_parts,
  verify_session_token,
}
use sahel.Session.Compare.{constant_time_equal_iff}

-- Digits hold no dot, so a token is cut behind its expiry.
split_dot-digits :
    (digits rest : Text)
    → all is_digit digits ≡ true
    → split_dot (digits ++ dot ∷ rest) ≡ some (digits, rest)
unfolding split_dot is_digit
split_dot-digits [] rest h = refl
split_dot-digits (c ∷ digits) rest h =
    rw (split_dot-digits digits rest (ground arith)) (ground arith)

grow-some :
    (c : ℕ) (o : Option (Text × Text)) (before after : Text)
    → grow c o ≡ some (before, after)
    → (front : Text) × (o ≡ some (front, after)) × (before ≡ c ∷ front)
grow-some c none before after h = absurd (cc)
grow-some c (some (front, back)) before after h = (front, ground arith, ground arith)

-- The two halves of a token, put together again.
split_dot_lem :
    (s before after : Text) → split_dot s ≡ some (before, after) → s ≡ before ++ dot ∷ after
unfolding split_dot
split_dot_lem [] before after h = cc
split_dot_lem (c ∷ s) before after h = elim (Bool-cases (c == dot)) [
  | inl here ↦ ground arith
  | inr later ↦
      let (front, found, longer) = grow-some c (split_dot s) before after (rw later at h) in
      rw (longer, split_dot_lem s front after found)
]

full_of_ne : (s : Text) → s ≢ [] → is_empty s ≡ false
unfolding is_empty
full_of_ne [] h = absurd (h refl)
full_of_ne (c ∷ s) h = refl

full_append : (s t : Text) → is_empty s ≡ false → is_empty (s ++ t) ≡ false
unfolding is_empty
full_append [] t h = cc
full_append (c ∷ s) t h = refl

module _ (p : Platform) (secret : Text) (some_secret : is_empty secret ≡ false) where
  -- With a secret that is not empty, a token made at one time is accepted at another exactly when
  -- that is before the first time plus the token's time to live.
  pub verify-create :
      (made ttl now : ℕ)
      → verify_session_token p (some (create_session_token p secret made ttl)) (some secret) now
        ≡ ltb now (made + ttl)
  unfolding verify_session_token create_session_token verify_parts
  verify-create made ttl now =
      let expiry = numeral (made + ttl) in
      let full : is_empty expiry ≡ false = full_of_ne expiry (numeral-ne-nil (made + ttl)) in
      let longer : is_empty (expiry ++ dot ∷ sign p expiry secret) ≡ false =
        full_append expiry (dot ∷ sign p expiry secret) full in
      let signed =
        (constant_time_equal_iff p (sign p expiry secret) (sign p expiry secret)).1 refl in
      rw
        (
          longer,
          some_secret,
          split_dot-digits expiry (sign p expiry secret) (numeral-is_digit (made + ttl)),
          full,
          numeral-is_digit (made + ttl),
          number-numeral (made + ttl),
          signed,
        )
        (ground arith)

no_parts : (p : Platform) (secret : Text) (now : ℕ) → verify_parts p secret now none ≡ false
unfolding verify_parts
no_parts p secret now = refl

checked_parts :
    (p : Platform) (secret : Text) (now : ℕ) (expiry signature : Text)
    → verify_parts p secret now (some (expiry, signature)) ≡ true
    → (all is_digit expiry ≡ true)
      × (now < number expiry)
      × (constant_time_equal p signature (sign p expiry secret) ≡ true)
unfolding verify_parts
checked_parts p secret now expiry signature h = ground arith

-- A token that is accepted with a secret is an expiry in digits, which is a number later than now,
-- a dot and a signature whose encoding is that of the signature of this expiry with the secret,
-- and the secret is not empty.
pub verify_session_token-parts :
    (p : Platform) (token secret : Text) (now : ℕ)
    → (verify_session_token p (some token) (some secret) now ≡ true)
    → (secret ≢ [])
      × (expiry : Text) × (signature : Text) × (token ≡ expiry ++ dot ∷ signature)
      × (all is_digit expiry ≡ true)
      × (now < number expiry)
      × (p.encode signature ≡ p.encode (sign p expiry secret))
unfolding verify_session_token
verify_session_token-parts p token secret now h = elim (Option-cases (split_dot token)) [
  | inl missing ↦ absurd (ground (arith, no_parts p secret now))
  | inr ((expiry, signature), found) ↦
      let checks : verify_parts p secret now (some (expiry, signature)) ≡ true = ground arith in
      let (digits, later, signed) = checked_parts p secret now expiry signature checks in
      (
        λ e. ground (arith, (is_empty_iff secret).1 e),
        expiry,
        signature,
        split_dot_lem token expiry signature found,
        digits,
        later,
        (constant_time_equal_iff p signature (sign p expiry secret)).0 signed,
      )
]
