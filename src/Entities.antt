-- ===== src/Entities.antt =====
-- The server actions of the dashboard's records: actions.ts of areas, compounds, owners and units
-- under web/src/app/[locale]/dashboard. What they share is here and the actions are in the
-- children. `send` is adminSend: it answers with the record, or fails. A body is sent as JSON,
-- where a field that is none is left out or null. An identifier that assertId refuses is thrown
-- while the write is being made, before there is a promise, so that mutate does not catch it.
pub mod Areas
pub mod Compounds
pub mod Owners
pub mod Units
pub mod Laws
mod Tests
use sahel.Common.{Option, none, some, ◌++◌, ◌∷◌}
use sahel.Js.Text.{Text, codes}
use sahel.Api.{
  Failure, Result, returned, failed, Method, post, patch, delete, Outcome, mutate, assert_id,
}
use sahel.Paths.{Locale, locale_text, safe_locale, dashboard_href}
use sahel.Results.{ResultKind, created, saved, deleted, with_result, safe_return_query}
use sahel.SearchParams.{Entries}

pub data Ended : Type 0 where
  thrown : (failure : Failure) → Ended
  ended : (outcome : Outcome) → Ended

-- URLSearchParams, and JSON.stringify for a message.
pub record Platform : Type 0 where
  pub print : Entries → Text
  pub parse : Text → Entries
  pub stringify : Text → Text

abbrev pub on_id : Result Text → (Text → Ended) → Ended
on_id (failed e) k = thrown e
on_id (returned id) k = k id

module _ {B V : Type 0} (p : Platform) (send : Method → Text → Option B → Result V) where
  open p use {print, parse, stringify}

  -- The page of a record, with what was done to it.
  abbrev pub record_page : Locale → Text → ResultKind → (V → Text) → (V → Text) → V → Text
  record_page l entity kind id_of name_of v =
      with_result print (dashboard_href (locale_text l) (entity ++ b'/' ∷ id_of v)) kind (name_of v)

  unfoldable pub create_record : Text → Text → B → (V → Text) → (Locale → V → Text) → Ended
  create_record entity locale payload id_of name_of =
      let l = safe_locale locale in
      ended
        (mutate (send post entity (some payload)) (record_page l entity created id_of (name_of l)))

  unfoldable pub update_record : Text → Text → Text → B → (V → Text) → (Locale → V → Text) → Ended
  update_record entity id locale payload id_of name_of =
      let l = safe_locale locale in
      on_id (assert_id stringify id) (λ i. ended (
        mutate (send patch (entity ++ b'/' ∷ i) (some payload))
          (record_page l entity saved id_of (name_of l))))

  -- `back` is the query of the list from which a record is deleted.
  unfoldable pub delete_record : Text → Text → Text → Text → Text → Ended
  delete_record entity id locale name back = on_id (assert_id stringify id) (λ i. ended (
      mutate (send delete (entity ++ b'/' ∷ i) none) (λ v.
        with_result print
          (dashboard_href (locale_text (safe_locale locale)) entity
            ++ safe_return_query print parse back)
          deleted name)))
