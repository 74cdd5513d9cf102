-- ===== src/SignIn.antt =====
-- web/src/app/[locale]/login/actions.ts: signing in and out of the admin area. An action's effects
-- are its outcome: the cookie that it sets or deletes and the path that it redirects to.
pub mod Laws
use sahel.Common.{ℕ, ◌/◌, Bool, true, false, Option, none, some, [], ◌++◌, ◌∷◌, if◌then◌else◌}
use sahel.Js.Text.{Text, codes, is_empty}
use sahel.Js.Text.Trim.{trim}
use sahel.Paths.{Locale, locale_text, safe_locale}
use sahel.Session.{Platform, session_ttl, check_credentials, create_session_token, safe_next}

-- SESSION_COOKIE
abbrev pub session_cookie : Text
session_cookie = codes "sahel_admin"

pub record Cookie : Type 0 where
  pub name : Text
  pub value : Text
  pub http_only : Bool
  pub same_site : Text
  pub secure : Bool
  pub path : Text
  pub max_age : ℕ

-- `invalid` is answered after a wait of that many milliseconds.
pub data SignIn : Type 0 where
  unconfigured : SignIn
  invalid : (delay : ℕ) → SignIn
  signed_in : Cookie → (target : Text) → SignIn

pub data SignOut : Type 0 where
  signed_out : (cookie target : Text) → SignOut

-- process.env
pub record Environment : Type 0 where
  pub admin_password : Option Text
  pub admin_username : Option Text
  pub production : Bool

pub record Form : Type 0 where
  pub username : Option Text
  pub password : Option Text

-- a ?? ""
abbrev pub or_blank : Option Text → Text
or_blank none = []
or_blank (some s) = s

-- a || d
abbrev pub or_default : Option Text → Text → Text
or_default none d = d
or_default (some s) d = if is_empty s then d else s

unfoldable pub admin_cookie : Platform → Environment → Text → ℕ → Cookie
admin_cookie p env password now = record {
  name = session_cookie;
  value = create_session_token p password now session_ttl;
  http_only = true;
  same_site = codes "lax";
  secure = env.production;
  path = codes "/";
  max_age = session_ttl / 1000;
}

abbrev pub admitted : Platform → Environment → Text → Form → Bool
admitted p env password form =
    check_credentials p (trim (or_blank form.username)) (or_blank form.password)
      (or_default env.admin_username (codes "admin")) (some password)

abbrev pub sign_in_with : Platform → Environment → Text → Text → Text → Form → ℕ → SignIn
sign_in_with p env password locale next form now =
    if is_empty password
    then unconfigured
    else if admitted p env password form
    then signed_in (admin_cookie p env password now) (safe_next (safe_locale locale) (some next))
    else invalid 700

abbrev pub with_password : Option Text → (Text → SignIn) → SignIn
with_password none k = unconfigured
with_password (some password) k = k password

unfoldable pub sign_in : Platform → Environment → Text → Text → Form → ℕ → SignIn
sign_in p env locale next form now =
    with_password env.admin_password (λ password. sign_in_with p env password locale next form now)

unfoldable pub sign_out : Text → SignOut
sign_out locale =
    signed_out session_cookie (b'/' ∷ (locale_text (safe_locale locale) ++ codes "/login"))
