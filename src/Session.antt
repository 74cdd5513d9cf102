-- ===== src/Session.antt =====
-- web/src/lib/admin/session.ts: the admin's session token and sign-in checks. Outside the
-- repository are Web Crypto's HMAC, with its base64url text (`hmac`, of the secret and the
-- payload), and `TextEncoder` (`encode`). A numeral of digits is read as the natural number that
-- it stands for, and `now` in milliseconds is one too.
pub mod Compare
pub mod Tokens
pub mod Next
use Prim.Native.Nat.{bit_or, bit_xor, max}
use sahel.Common.{
  ℕ, zero, suc, ◌+◌, ◌*◌, Bool, true, false, not, ◌&&◌, ◌||◌, Option, none, some, [], ◌∷◌, ◌++◌,
  ltb, ◌==◌, if◌then◌else◌,
}
use sahel.Common.Lists.{length, get_or, all, drop}
use sahel.Paths.{Locale, dashboard}
use sahel.Js.Text.{Text, codes, is_empty, starts_with}
use sahel.Js.Digits.{is_digit, number, numeral}

abbrev pub dot : ℕ
dot = b'.'

-- SESSION_TTL_MS
abbrev pub session_ttl : ℕ
session_ttl = 12 * 60 * 60 * 1000

-- What a deployment provides.
pub record Platform : Type 0 where
  pub hmac : Text → Text → Text
  pub encode : Text → Text

abbrev pub grow : ℕ → Option (Text × Text) → Option (Text × Text)
grow c none = none
grow c (some (before, after)) = some (c ∷ before, after)

-- The text before the first dot and the text after it: `indexOf` and the two slices.
unfoldable pub split_dot : Text → Option (Text × Text)
split_dot [] = none
split_dot (c ∷ s) = if c == dot then some ([], s) else grow c (split_dot s)

-- The loop of `constantTimeEqual` from index `i`, with that many rounds left.
unfoldable pub fold_diff : Text → Text → ℕ → ℕ → ℕ → ℕ
fold_diff x y zero i diff = diff
fold_diff x y (suc rounds) i diff =
    fold_diff x y rounds (suc i) (bit_or diff (bit_xor (get_or x i 0) (get_or y i 0)))

unfoldable pub equal_bytes : Text → Text → Bool
equal_bytes x y = fold_diff x y (max (length x) (length y)) 0 (bit_xor (length x) (length y)) == 0

abbrev pub nonempty : Text → Bool
nonempty s = not (is_empty s)

unfoldable pub home : Locale → Text
home locale = dashboard locale

-- The end of a path, the beginning of a longer one, or a query.
unfoldable pub is_tail : Text → Bool
is_tail [] = true
is_tail (c ∷ s) = (c == b'/') || (c == b'?')

-- `safeNext`; the slice is taken past a prefix that was just tested.
unfoldable pub safe_next : Locale → Option Text → Text
safe_next locale none = home locale
safe_next locale (some next) =
    if is_empty next || not (starts_with next (home locale)) || starts_with next (codes "//")
    then home locale
    else if is_tail (drop (length (home locale)) next)
    then next
    else home locale

module _ (p : Platform) where
  open p use {hmac, encode}

  unfoldable pub sign : Text → Text → Text
  sign payload secret = hmac secret (encode (codes "sahel-admin:" ++ payload))

  unfoldable pub constant_time_equal : Text → Text → Bool
  constant_time_equal a b = equal_bytes (encode a) (encode b)

  unfoldable pub create_session_token : Text → ℕ → ℕ → Text
  create_session_token secret now ttl =
      let expiry = numeral (now + ttl) in expiry ++ dot ∷ sign expiry secret

  -- The checks of `verifySessionToken` on the two halves of a token.
  unfoldable pub verify_parts : Text → ℕ → Option (Text × Text) → Bool
  verify_parts secret now none = false
  verify_parts secret now (some (expiry, signature)) =
      nonempty expiry
      && all is_digit expiry
      && ltb now (number expiry)
      && constant_time_equal signature (sign expiry secret)

  unfoldable pub verify_session_token : Option Text → Option Text → ℕ → Bool
  verify_session_token none secret now = false
  verify_session_token (some token) none now = false
  verify_session_token (some token) (some secret) now =
      nonempty token && nonempty secret && verify_parts secret now (split_dot token)

  -- An unset or empty password rejects everyone.
  unfoldable pub check_credentials : Text → Text → Text → Option Text → Bool
  check_credentials username password expected_user none = false
  check_credentials username password expected_user (some expected) =
      nonempty expected
      && constant_time_equal username expected_user
      && constant_time_equal password expected
