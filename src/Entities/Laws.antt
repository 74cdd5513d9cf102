-- ===== src/Entities/Laws.antt =====
-- Where the deletion of a record leaves the browser.
use sahel.Common.{
  ◌≡◌, refl, Bool, true, false, some, none, Option, ◌∷◌, ◌++◌, Bool-cases, inl, inr, ◌==◌,
}
use mathlib.Core.List.{append-nil, append_assoc}
use sahel.Common.Lists.{any}
use sahel.Js.Text.{Text, codes, is_empty, starts_with}
use sahel.Api.{
  Result, returned, failed, Method, delete, Answer, shows, redirects, mutate, is_uuid, assert_id,
}
use sahel.Paths.{locale_text, safe_locale, dashboard_href}
use sahel.Results.{question, deleted, with_result, without_result, safe_return_query}
use sahel.Entities.{Platform, Ended, thrown, ended, delete_record}

-- The path is that of the page, with a query.
abbrev pub IsOnPage : Text → Text → Type 0
IsOnPage page path = (query : Text) × (path ≡ page ++ b'?' ∷ query)

abbrev pub AnswersOn : Text → Answer → Type 0
AnswersOn page (shows none) = ⊥
AnswersOn page (shows (some message)) = Unit
AnswersOn page (redirects path) = IsOnPage page path

abbrev pub EndsOn : Text → Bool → Ended → Type 0
EndsOn page valid (thrown failure) = valid ≡ false
EndsOn page valid (ended outcome) = (valid ≡ true) × AnswersOn page outcome.answer

module _ (p : Platform) where
  open p use {print, parse, stringify}

  -- A query that is put after a page is kept, and it gets the outcome.
  with_result-page :
      (page name query : Text)
      → IsOnPage page (with_result print (page ++ b'?' ∷ query) deleted name)
  unfolding with_result
  with_result-page page name query = (query ++ _, append_assoc page (b'?' ∷ query) _)

  with_result-question :
      (page name query : Text)
      → any (λ c. c == b'?') page ≡ false
      → IsOnPage page (with_result print (page ++ question query) deleted name)
  unfolding with_result
  with_result-question page name query plain = elim (Bool-cases (is_empty query)) [
    | inl e ↦ rw (e, append-nil page, plain) (_, refl)
    | inr e ↦ rw e (with_result-page page name query)
  ]

  with_result-safe_return_query :
      (page name back : Text)
      → any (λ c. c == b'?') page ≡ false
      → IsOnPage page (with_result print (page ++ safe_return_query print parse back) deleted name)
  unfolding safe_return_query without_result with_result
  with_result-safe_return_query page name back plain =
      elim (Bool-cases (starts_with back (codes "?"))) [
        | inl e ↦ rw e (with_result-question page name _ plain)
        | inr e ↦ rw (e, append-nil page, plain) (_, refl)
      ]

  mutate-AnswersOn :
      {V : Type 0}
      → (page : Text) (out : Result V) (next : V → Text) → ((v : V) → IsOnPage page (next v))
      → AnswersOn page (mutate out next).answer
  unfolding mutate
  mutate-AnswersOn page (failed e) next h = tt
  mutate-AnswersOn page (returned v) next h = h v

  module _ {B V : Type 0} (send : Method → Text → Option B → Result V) where
    -- The deletion of a record throws only for an identifier that is no UUID, and is sent only for
    -- one that is; it ends with a message or with a redirect to the list's own page followed by a
    -- query, whatever return query the client sends. The address of the list has no question mark.
    pub delete_record-EndsOn :
        (entity id locale name back : Text)
        → any (λ c. c == b'?') (dashboard_href (locale_text (safe_locale locale)) entity) ≡ false
        → EndsOn
            (dashboard_href (locale_text (safe_locale locale)) entity)
            (is_uuid id)
            (delete_record {B = B} p send entity id locale name back)
    unfolding delete_record assert_id
    delete_record-EndsOn entity id locale name back plain = elim (Bool-cases (is_uuid id)) [
      | inl e ↦ rw e (
        refl,
        mutate-AnswersOn _ (send delete (entity ++ b'/' ∷ id) none) _
            (λ v. with_result-safe_return_query _ name back plain),
      )
      | inr e ↦ rw e refl
    ]
