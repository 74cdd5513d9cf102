-- ===== src/EntityForm.antt =====
-- web/src/components/admin/entity-form.tsx, with the guard of Unsaved that it reports to, and the
-- dialog of confirm-delete.tsx with the banner of row-delete.tsx beside it. An action answers with
-- none when it has no error; when it succeeds, the page is left by a redirect.
pub mod Deletion
pub mod Laws
mod Tests
use sahel.Common.{Bool, true, false, not, Option, none, some, List, [], ◌∷◌, if◌then◌else◌}
use sahel.Js.Text.{Text}
use sahel.FormFields.{unless_blank}
use sahel.Unsaved
use sahel.Unsaved.{set_dirty}

pub record State : Type 0 where
  pub dirty : Bool
  -- the error of the last answer
  pub error : Option Text
  pub pending : Bool
  pub guard : Unsaved.State

abbrev pub initial_state : State
initial_state = record {
  dirty = false;
  error = none;
  pending = false;
  guard = Unsaved.initial_state;
}

-- `state?.error`, without a blank one
abbrev pub error_in : Option Text → Option Text
error_in none = none
error_in (some e) = unless_blank e

module _ (form_id : Text) where
  unfoldable pub mark : Bool → State → State
  mark value s = record s { dirty = value; guard = set_dirty form_id value s.guard }

  -- onEdit: input in the form, but for what is placed after its fields.
  unfoldable pub edit : State → State
  edit s = let marked = mark true s in if s.dirty then s else marked

  -- onSubmit: the button is off while an answer is waited for.
  unfoldable pub submit : State → State
  submit s = if s.pending then s else record (mark false s) { pending = true }

  -- An answer, with the effect of one that has an error.
  abbrev pub failed_with : Option Text → State → State
  failed_with none s = record s { error = none; pending = false }
  failed_with (some e) s = mark true (record s { error = some e; pending = false })

  unfoldable pub answered : Option Text → State → State
  answered message s = failed_with (error_in message) s

  -- The form goes: what the effect of its mounting returns.
  unfoldable pub unmount : State → Unsaved.State
  unmount s = set_dirty form_id false s.guard

pub data Event : Type 0 where
  edits : Event
  submits : Event
  answers : (message : Option Text) → Event

module _ (form_id : Text) where
  unfoldable pub next : State → Event → State
  next s edits = edit form_id s
  next s submits = submit form_id s
  next s (answers message) = if s.pending then answered form_id message s else s

  -- The state after events, the last of which is the first of the list.
  unfoldable pub after : List Event → State
  after [] = initial_state
  after (e ∷ events) = next (after events) e
