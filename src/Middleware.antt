-- ===== src/Middleware.antt =====
-- web/src/middleware.ts: what becomes of a request before any page sees it. `pass` hands it to the
-- internationalisation middleware, a library. The `matcher` of its configuration is the
-- framework's.
pub mod Laws
mod Tests
use sahel.Common.{ℕ, Bool, true, false, not, ◌&&◌, Option, none, some, [], ◌∷◌, ◌++◌, if◌then◌else◌}
use sahel.Common.Lists.{take, drop}
use sahel.Js.Text.{Text, codes, same}
use sahel.Paths.{is_dashboard_path, legacy_dashboard_target}
use sahel.Session.{Platform, verify_session_token}

pub record Request : Type 0 where
  pub pathname : Text
  pub search : Text
  pub method : Text
  -- the session cookie
  pub cookie : Option Text

-- Redirects are answered with status 307. A redirect to the login page names the page and its
-- `next` parameter.
pub data Answer : Type 0 where
  redirect : (target : Text) → Answer
  unauthorized : Answer
  login : (page next : Text) → Answer
  pass : Answer

-- pathname.slice(1, 3)
abbrev pub locale_of : Text → Text
locale_of pathname = take 2 (drop 1 pathname)

abbrev pub ask_login : Request → Answer
ask_login req =
    if not (same req.method (codes "GET")) && not (same req.method (codes "HEAD"))
    then unauthorized
    else login (b'/' ∷ (locale_of req.pathname ++ codes "/login")) (req.pathname ++ req.search)

abbrev pub guarded : Platform → Option Text → ℕ → Request → Answer
guarded p password now req =
    if is_dashboard_path req.pathname && not (verify_session_token p req.cookie password now)
    then ask_login req
    else pass

abbrev pub or_redirect : Option Text → Text → Answer → Answer
or_redirect none search k = k
or_redirect (some target) search k = redirect (target ++ search)

unfoldable pub middleware : Platform → Option Text → ℕ → Request → Answer
middleware p password now req =
    or_redirect (legacy_dashboard_target req.pathname) req.search (guarded p password now req)
