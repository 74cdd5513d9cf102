-- ===== src/Results.antt =====
-- web/src/lib/admin/result.ts: how a server action tells the page that it redirects to what was
-- done. Parameters of a URL are their entries; `print` and `parse` are URLSearchParams.
pub mod Laws
pub mod Params
pub mod Plain
mod Tests
use sahel.Common.{
  Bool, true, false, not, ◌&&◌, ◌||◌, Option, none, some, List, [], ◌∷◌, ◌++◌, ◌==◌, if◌then◌else◌,
}
use sahel.Common.Lists.{any, keep}
use sahel.Js.Text.{Text, codes, same, is_empty, starts_with}
use sahel.SearchParams.{Entries}
use sahel.Labels.{text_or_blank}

pub data ResultKind : Type 0 where
  created : ResultKind
  saved : ResultKind
  deleted : ResultKind

abbrev pub kind_text : ResultKind → Text
kind_text created = codes "created"
kind_text saved = codes "saved"
kind_text deleted = codes "deleted"

pub record ActionResult : Type 0 where
  pub kind : ResultKind
  pub name : Text

-- params.get(key)
unfoldable pub get_param : Entries → Text → Option Text
get_param [] key = none
get_param ((k, v) ∷ es) key = if same k key then some v else get_param es key

-- params.delete(key)
unfoldable pub delete_param : Entries → Text → Entries
delete_param es key = keep (λ e. not (same e.0 key)) es

-- params.set(key, value): in the place of the first with that name, or at the end.
unfoldable pub set_param : Entries → Text → Text → Entries
set_param [] key value = (key, value) ∷ []
set_param ((k, v) ∷ es) key value =
    let rest = set_param es key value in
    if same k key then (key, value) ∷ delete_param es key else (k, v) ∷ rest

abbrev pub outcome_entries : ResultKind → Text → Entries
outcome_entries kind name = (codes "done", kind_text kind) ∷ (codes "name", name) ∷ []

unfoldable pub with_result : (Entries → Text) → Text → ResultKind → Text → Text
with_result print path kind name =
    path ++ ((if any (λ c. c == b'?') path then b'&' else b'?') ∷ print (outcome_entries kind name))

-- The kind that a text names.
unfoldable pub kind_of : Text → Option ResultKind
kind_of s =
    if same s (codes "created")
    then some created
    else if same s (codes "saved")
    then some saved
    else if same s (codes "deleted")
    then some deleted
    else none

abbrev pub result_of : Option ResultKind → Option Text → Option ActionResult
result_of none name = none
result_of (some kind) name = some (record { kind = kind; name = text_or_blank name })

abbrev pub read_kind : Option Text → Option ResultKind
read_kind none = none
read_kind (some s) = kind_of s

unfoldable pub read_result : Entries → Option ActionResult
read_result es = result_of (read_kind (get_param es (codes "done"))) (get_param es (codes "name"))

abbrev pub question : Text → Text
question query = if is_empty query then [] else b'?' ∷ query

unfoldable pub without_result : (Entries → Text) → Entries → Text
without_result print es =
    question (print (delete_param (delete_param es (codes "done")) (codes "name")))

unfoldable pub safe_return_query : (Entries → Text) → (Text → Entries) → Text → Text
safe_return_query print parse query =
    if starts_with query (codes "?") then without_result print (parse query) else []
