-- ===== src/SignIn/Laws.antt =====
-- Who is signed in.
use sahel.Common.{ℕ, ◌≡◌, ◌↔◌, inl, inr, true, false, some, arith, Bool-cases}
use sahel.Js.Text.{Text, codes, is_empty}
use sahel.Js.Text.Trim.{trim}
use sahel.Paths.{safe_locale}
use sahel.Session.{Platform, check_credentials, safe_next}
use sahel.Session.Compare.{constant_time_equal_iff}
use sahel.SignIn.{
  signed_in, Environment, Form, or_blank, or_default, admin_cookie, admitted, sign_in,
}

module _ (p : Platform) (env : Environment) (password : Text)
    (full : is_empty password ≡ false) where
  admitted_iff :
      (form : Form)
      → (admitted p env password form ≡ true) ↔ (
          (p.encode (trim (or_blank form.username))
            ≡ p.encode (or_default env.admin_username (codes "admin")))
          × (p.encode (or_blank form.password) ≡ p.encode password))
  unfolding check_credentials
  admitted_iff form =
      let user =
        constant_time_equal_iff p (trim (or_blank form.username))
          (or_default env.admin_username (codes "admin")) in
      let word = constant_time_equal_iff p (or_blank form.password) password in
      (λ h. (user.0 (ground arith), word.0 (ground arith)), λ e. rw (full, user.1 e.0, word.1 e.1))

  -- With a configured password that is not empty, signing in sets a fresh cookie and redirects to
  -- a safe page exactly when the name, without its outer spaces, and the password have the
  -- encodings of the configured ones.
  pub sign_in_lem :
      (locale next : Text) (form : Form) (now : ℕ)
      → env.admin_password ≡ some password
      → (sign_in p env locale next form now
          ≡ signed_in
              (admin_cookie p env password now)
              (safe_next (safe_locale locale) (some next)))
        ↔ ((p.encode (trim (or_blank form.username))
              ≡ p.encode (or_default env.admin_username (codes "admin")))
            × (p.encode (or_blank form.password) ≡ p.encode password))
  unfolding sign_in
  sign_in_lem locale next form now set = elim (Bool-cases (admitted p env password form)) [
    | inl right ↦ (λ _. (admitted_iff form).0 right, λ _. rw (set, full, right))
    | inr wrong ↦
        (λ h. absurd (ground arith), λ e. absurd (ground (arith, (admitted_iff form).1 e)))
  ]
