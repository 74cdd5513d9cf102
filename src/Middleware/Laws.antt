-- ===== src/Middleware/Laws.antt =====
-- No request reaches a page of the dashboard without a session, and a request that is sent to
-- sign in comes back to its page.
use mathlib.Core.List.{append_assoc}
use sahel.Common.{
  ap, ℕ, ◌+◌, ◌<◌, ◌≡◌, refl, ◌⊎◌, inl, inr, true, false, Option, none, some, [], ◌∷◌, ◌++◌, arith,
  Option-cases, lt→ltb,
}
use sahel.Js.Text.{Text, codes, same, is_empty}
use sahel.Paths.{
  Locale, ar, en, locale_text, dashboard, at_boundary, is_dashboard_path, legacy_dashboard_target,
  safe_locale,
}
use sahel.Paths.Laws.{is_dashboard_path-split}
use sahel.Session.{
  Platform, home, is_tail, safe_next, verify_session_token, create_session_token, session_ttl,
}
use sahel.Session.Next.{safe_next-append}
use sahel.Session.Tokens.{verify-create}
use sahel.SignIn.{signed_in, Cookie, Environment, Form, admin_cookie, sign_in}
use sahel.Middleware.{Request, login, pass, locale_of, middleware}

module _ (p : Platform) (password : Option Text) (now : ℕ) (req : Request) where
  -- A request that the middleware passes on is outside the dashboard, or its session cookie
  -- verifies.
  pub pass_secure :
      middleware p password now req ≡ pass
      → (is_dashboard_path req.pathname ≡ false)
        ⊎ (verify_session_token p req.cookie password now ≡ true)
  unfolding middleware
  pass_secure h = ground arith

  -- Only a dashboard request by GET or HEAD is sent to the sign-in page: that of its own locale,
  -- with the path and the query that were asked for.
  pub login_only_to_read :
      (page next : Text)
      → middleware p password now req ≡ login page next
      → (is_dashboard_path req.pathname ≡ true)
        × (next ≡ req.pathname ++ req.search)
        × (page ≡ b'/' ∷ (locale_of req.pathname ++ codes "/login"))
        × ((same req.method (codes "GET") ≡ true) ⊎ (same req.method (codes "HEAD") ≡ true))
  unfolding middleware
  login_only_to_read page next h = ground arith

-- The query of a URL is empty or begins with a question mark.
abbrev pub IsQuery : Text → Type 0
IsQuery [] = Unit
IsQuery (c ∷ s) = c ≡ b'?'

boundary-is_tail :
    (rest search : Text)
    → at_boundary rest ≡ true
    → IsQuery search
    → is_tail (rest ++ search) ≡ true
unfolding at_boundary is_tail
boundary-is_tail [] [] h q = refl
boundary-is_tail [] (c ∷ s) h q = ground arith
boundary-is_tail (c ∷ rest) search h q = ground arith

locale_of-dashboard : (l : Locale) (rest : Text) → locale_of (dashboard l ++ rest) ≡ locale_text l
locale_of-dashboard ar rest = refl
locale_of-dashboard en rest = refl

safe_locale-locale_text : (l : Locale) → safe_locale (locale_text l) ≡ l
unfolding safe_locale same
safe_locale-locale_text ar = refl
safe_locale-locale_text en = refl

-- Where a request's query is empty or starts with a question mark and the middleware sends it to
-- the login page, the sign-in at that locale sends the browser on to the very path and query that
-- were asked for.
pub login-safe_next :
    (p : Platform) (password : Option Text) (now : ℕ) (req : Request) (page next : Text)
    → IsQuery req.search
    → middleware p password now req ≡ login page next
    → safe_next (safe_locale (locale_of req.pathname)) (some next) ≡ req.pathname ++ req.search
login-safe_next p password now req page next q h =
    let (inside, asked, _, _) = login_only_to_read p password now req page next h in
    let (l, rest, e, boundary) = is_dashboard_path-split req.pathname inside in
    let back : safe_next l (some (home l ++ (rest ++ req.search)))
        ≡ home l ++ (rest ++ req.search) =
      safe_next-append l (rest ++ req.search) (boundary-is_tail rest req.search boundary q) in
    rw
      (
        asked,
        e,
        locale_of-dashboard l rest,
        safe_locale-locale_text l,
        append_assoc (dashboard l) rest req.search,
      )
      (unfold home in back)

opened :
    (p : Platform) (env : Environment) (locale next : Text) (form : Form) (now : ℕ)
    (cookie : Cookie) (target : Text)
    → sign_in p env locale next form now ≡ signed_in cookie target
    → (password : Text) × (env.admin_password ≡ some password)
      × (is_empty password ≡ false)
      × (cookie ≡ admin_cookie p env password now)
opened p env locale next form now cookie target h = elim (Option-cases env.admin_password) [
  | inl unset ↦ absurd (not_unset unset)
  | inr (password, set) ↦ let (full, made) = with_set password set in (password, set, full, made)
]
  where
    not_unset : env.admin_password ≡ none → ⊥
    not_unset unset = unfold sign_in in ground arith

    with_set :
        (password : Text)
        → env.admin_password ≡ some password
        → (is_empty password ≡ false) × (cookie ≡ admin_cookie p env password now)
    with_set password set = unfold sign_in in ground arith

-- For the SESSION_TTL_MS milliseconds after a sign-in, a request with the cookie that it set
-- passes the middleware, unless its path is an old one that is redirected.
pub sign_in-pass :
    (p : Platform) (env : Environment) (locale next : Text) (form : Form) (made now : ℕ)
    (cookie : Cookie) (target : Text) (req : Request)
    → sign_in p env locale next form made ≡ signed_in cookie target
    → now < made + session_ttl
    → legacy_dashboard_target req.pathname ≡ none
    → req.cookie ≡ some cookie.value
    → middleware p env.admin_password now req ≡ pass
unfolding middleware admin_cookie
sign_in-pass p env locale next form made now cookie target req h before_end current sent =
    let (password, set, full, made_so) = opened p env locale next form made cookie target h in
    let value : cookie.value ≡ create_session_token p password made session_ttl =
      ap (λ (c : Cookie). c.value) made_so in
    let valid : verify_session_token p (some cookie.value) (some password) now ≡ true =
      rw (value, verify-create p password full made session_ttl now) (lt→ltb _ _ before_end) in
    rw (current, set, sent, valid) (ground arith)
