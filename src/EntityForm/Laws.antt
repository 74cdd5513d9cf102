-- ===== src/EntityForm/Laws.antt =====
-- The guard knows of the form's edits.
use sahel.Common.{
  ◌≡◌, ◌≢◌, ◌∙◌, refl, ap, inl, inr, Bool, true, false, not, ◌&&◌, Option, none, some, List, [],
  ◌∷◌, Bool-cases, if◌then◌else◌,
}
use sahel.Js.Text.{Text, same_refl}
use sahel.Unsaved
use sahel.Unsaved.{Go, set_dirty, change_forms, noticed, is_dirty, confirm_leave}
use sahel.EntityForm.{
  State, error_in, mark, edit, submit, failed_with, answered, unmount, Event, edits, submits,
  answers, next, after,
}

noticed-forms : (was : Bool) (g : Unsaved.State) → (noticed was g).dirty_forms ≡ g.dirty_forms
noticed-forms was g = elim (Bool-cases (is_dirty g && not was)) [
  | inl e ↦ rw e refl
  | inr e ↦ rw e refl
]

module _ (form_id : Text) where
  abbrev pub listed : Bool → List Text
  listed dirty = if dirty then form_id ∷ [] else []

  changed : (value dirty : Bool) → change_forms (listed dirty) form_id value ≡ listed value
  changed true true = rw (same_refl form_id) refl
  changed true false = refl
  changed false true = rw (same_refl form_id) refl
  changed false false = refl

  marked :
      (value dirty : Bool) (g : Unsaved.State)
      → g.dirty_forms ≡ listed dirty
      → (set_dirty form_id value g).dirty_forms ≡ listed value
  unfolding set_dirty
  marked value dirty g h =
      noticed-forms (is_dirty g)
        (record g { dirty_forms = change_forms g.dirty_forms form_id value })
      ∙ ap (λ (forms : List Text). change_forms forms form_id value) h
      ∙ changed value dirty

  -- The guard lists the form exactly when it is dirty, and a form that shows an error, with no
  -- answer outstanding, is dirty.
  pub record IsSound (s : State) : Type 0 where
    pub listing : s.guard.dirty_forms ≡ listed s.dirty
    pub shown : s.pending ≡ false → s.error ≢ none → s.dirty ≡ true

  mark-IsSound :
      (value : Bool) (s : State)
      → s.guard.dirty_forms ≡ listed s.dirty
      → (s.pending ≡ false → s.error ≢ none → value ≡ true)
      → IsSound (mark form_id value s)
  unfolding mark
  mark-IsSound value s h g = record { listing = marked value s.dirty s.guard h; shown = g }

  chosen : (b : Bool) (s t : State) → IsSound s → IsSound t → IsSound (if b then s else t)
  chosen true s t h g = h
  chosen false s t h g = g

  edit-IsSound : (s : State) → IsSound s → IsSound (edit form_id s)
  unfolding edit
  edit-IsSound s h =
      chosen s.dirty s (mark form_id true s) h (mark-IsSound true s h.listing (λ p e. refl))

  submit-IsSound : (s : State) → IsSound s → IsSound (submit form_id s)
  unfolding submit mark
  submit-IsSound s h =
      chosen s.pending s (record (mark form_id false s) { pending = true }) h
        (record { listing = marked false s.dirty s.guard h.listing; shown = λ p. cc })

  failed-IsSound : (e : Option Text) (s : State) → IsSound s → IsSound (failed_with form_id e s)
  failed-IsSound none s h = record { listing = h.listing; shown = λ p e. elim (e refl) [ ] }
  failed-IsSound (some e) s h =
      mark-IsSound true (record s { error = some e; pending = false }) h.listing (λ p g. refl)

  next-IsSound : (s : State) (e : Event) → IsSound s → IsSound (next form_id s e)
  unfolding next answered
  next-IsSound s edits h = edit-IsSound s h
  next-IsSound s submits h = submit-IsSound s h
  next-IsSound s (answers message) h =
      chosen s.pending (failed_with form_id (error_in message) s) s
        (failed-IsSound (error_in message) s h) h

  after-IsSound_lem : (events : List Event) → IsSound (after form_id events)
  unfolding after
  after-IsSound_lem [] = record { listing = refl; shown = λ p e. elim (e refl) [ ] }
  after-IsSound_lem (e ∷ events) = next-IsSound (after form_id events) e (after-IsSound_lem events)

  dirty_lem : (dirty : Bool) (g : Unsaved.State) → g.dirty_forms ≡ listed dirty → is_dirty g ≡ dirty
  unfolding is_dirty
  dirty_lem true g h = ap (λ (forms : List Text). elim forms [ [] ↦ false | f ∷ fs ↦ true ]) h
  dirty_lem false g h = ap (λ (forms : List Text). elim forms [ [] ↦ false | f ∷ fs ↦ true ]) h

  asked :
      (dirty : Bool) (go : Go) (g : Unsaved.State)
      → g.dirty_forms ≡ listed dirty
      → (confirm_leave go g).1 ≡ (if dirty then none else some go)
  unfolding confirm_leave
  asked true go g h = rw (dirty_lem true g h) refl
  asked false go g h = rw (dirty_lem false g h) refl

  -- After any events of a form whose guard starts with no dirty form, edits, submissions and
  -- answers in any order: a navigation is held back exactly when the form is dirty; it is held
  -- back when the form shows an error and no answer is outstanding; and once the form is gone, it
  -- is let through.
  pub confirm_leave-after :
      (go : Go) (events : List Event)
      → let s = after form_id events in
        ((confirm_leave go s.guard).1 ≡ (if s.dirty then none else some go))
        × (s.pending ≡ false → s.error ≢ none → (confirm_leave go s.guard).1 ≡ none)
        × (confirm_leave go (unmount form_id s)).1 ≡ some go
  unfolding unmount
  confirm_leave-after go events =
      let s = after form_id events in
      let h = after-IsSound_lem events in
      (
        asked s.dirty go s.guard h.listing,
        (λ p e.
            asked s.dirty go s.guard h.listing
            ∙ ap (λ (dirty : Bool). if dirty then none else some go) (h.shown p e)),
        asked false go (unmount form_id s) (marked false s.dirty s.guard h.listing),
      )
