-- ===== src/ResultModal.antt =====
-- web/src/components/admin/action-result-modal.tsx: what a server action did is shown once, and its
-- parameters go from the URL. The router's navigation lands, with what URLSearchParams reads.
pub mod Laws
mod Tests
use sahel.Common.{Bool, true, false, Option, none, some, List, [], ◌∷◌, ◌++◌, if◌then◌else◌}
use sahel.Js.Text.{Text, codes}
use sahel.SearchParams.{Entries}
use sahel.Results.{
  ResultKind, created, saved, deleted, ActionResult, read_result, delete_param, without_result,
}
use sahel.Paths.{entity_base}

pub record State : Type 0 where
  pub result : Option ActionResult
  pub params : Entries

abbrev pub initial_state : Entries → State
initial_state params = record { result = none; params = params }

abbrev pub without : Entries → Entries
without es = delete_param (delete_param es (codes "done")) (codes "name")

abbrev pub shown : Option ActionResult → State → State
shown none s = s
shown (some found) s = record { result = some found; params = without s.params }

-- The effect on the parameters.
unfoldable pub effect : State → State
effect s = shown (read_result s.params) s

abbrev pub path_for : (Entries → Text) → Text → Entries → Option ActionResult → Option Text
path_for print pathname es none = none
path_for print pathname es (some found) = some (pathname ++ without_result print es)

-- Where the effect goes.
unfoldable pub replaces : (Entries → Text) → Text → State → Option Text
replaces print pathname s = path_for print pathname s.params (read_result s.params)

unfoldable pub close : State → State
close s = record s { result = none }

unfoldable pub is_open : State → Bool
is_open s = elim s.result [ none ↦ false | some found ↦ true ]

-- The link beside the closing button.
abbrev pub link_for : ResultKind → Option Text → Option Text
link_for kind none = none
link_for created (some base) = some (base ++ codes "/new")
link_for saved (some base) = some base
link_for deleted (some base) = none

abbrev pub kind_of_result : Option ActionResult → ResultKind
kind_of_result none = saved
kind_of_result (some found) = found.kind

unfoldable pub link : Text → State → Option Text
link pathname s = link_for (kind_of_result s.result) (entity_base pathname)
