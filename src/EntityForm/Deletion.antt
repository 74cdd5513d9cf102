-- ===== src/EntityForm/Deletion.antt =====
-- web/src/components/admin/confirm-delete.tsx and row-delete.tsx: the dialog of a deletion, and the
-- banner of the page that its failure is handed to.
use sahel.Common.{Bool, true, false, Option, none, some, if◌then◌else◌}
use sahel.Js.Text.{Text}
use sahel.EntityForm.{error_in}

pub record Dialog : Type 0 where
  pub is_open : Bool
  pub pending : Bool
  -- the banner of ListErrors
  pub banner : Option Text

abbrev pub closed : Dialog
closed = record { is_open = false; pending = false; banner = none }

unfoldable pub press_delete : Dialog → Dialog
press_delete d = record d { is_open = true }

-- The cancelling button and Escape, which are off while an answer is waited for.
unfoldable pub cancel : Dialog → Dialog
cancel d = if d.pending then d else record d { is_open = false }

-- The confirming button: the dialog, and whether the action is called.
unfoldable pub confirm : Dialog → Dialog × Bool
confirm d = if d.pending then (d, false) else (record d { pending = true }, true)

abbrev pub reported : Option Text → Dialog → Dialog
reported none d = record d { pending = false }
reported (some e) d = record { is_open = false; pending = false; banner = some e }

-- The answer of an action that does not redirect.
unfoldable pub answered : Option Text → Dialog → Dialog
answered message d = reported (error_in message) d
