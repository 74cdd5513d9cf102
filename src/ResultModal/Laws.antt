-- ===== src/ResultModal/Laws.antt =====
-- A result is shown once.
use sahel.Common.{◌≡◌, refl, Option, none, some, ◌++◌}
use sahel.Common.Lists.{All}
use sahel.Js.Text.{Text, codes, same}
use sahel.SearchParams.{Entries}
use sahel.Results.{ResultKind, ActionResult, outcome_entries, delete_param, read_result}
use sahel.Results.Laws.{IsOwn, delete_outcome, read_own, kind_of-kind_text}
use sahel.Results.Params.{get_delete}
use sahel.ResultModal.{State, without, shown, effect, close}

-- Without the parameters of a result, there is none.
read_result-without : (es : Entries) → read_result (without es) ≡ none
unfolding read_result same
read_result-without es =
    rw
      (
        get_delete (delete_param es (codes "done")) (codes "name") (codes "done"),
        get_delete es (codes "done") (codes "done"),
      )
      refl

read_result-outcome :
    (es : Entries) (kind : ResultKind) (name : Text)
    → All IsOwn es
    → read_result (es ++ outcome_entries kind name) ≡ some (record { kind = kind; name = name })
unfolding read_result
read_result-outcome es kind name h =
    rw ((read_own es kind name h).0, (read_own es kind name h).1, kind_of-kind_text kind) refl

-- The effect has nothing left to do.
settled :
    (o : Option ActionResult) (s : State)
    → read_result s.params ≡ o
    → (effect (shown o s) ≡ shown o s) × (effect (close (shown o s)) ≡ close (shown o s))
unfolding effect close
settled none s h = (rw h refl, rw h refl)
settled (some found) s h =
    (rw (read_result-without s.params) refl, rw (read_result-without s.params) refl)

twice :
    (s : State) → (effect (effect s) ≡ effect s) × (effect (close (effect s)) ≡ close (effect s))
twice s = unfold effect in settled (read_result s.params) s refl

shows :
    (t : State) (found : ActionResult) (es : Entries)
    → read_result t.params ≡ some found
    → without t.params ≡ es
    → effect t ≡ record { result = some found; params = es }
unfolding effect
shows t found es read bare = rw (read, bare) refl

-- On a page whose own entries tell no outcome, the entries that an action adds are shown as its
-- kind and name and taken from the URL, which keeps the own entries; after that the effect has
-- nothing left to do, whether the dialog is open or closed.
pub effect_lem :
    (s : State) (es : Entries) (kind : ResultKind) (name : Text)
    → All IsOwn es
    → let landed : State = record s { params = es ++ outcome_entries kind name } in
      (effect landed ≡ record { result = some (record { kind = kind; name = name }); params = es })
      × (effect (effect landed) ≡ effect landed)
      × (effect (close (effect landed)) ≡ close (effect landed))
effect_lem s es kind name h =
    let landed : State = record s { params = es ++ outcome_entries kind name } in
    let read = read_result-outcome es kind name h in
    let bare = delete_outcome es kind name h in
    (
      shows landed (record { kind = kind; name = name }) es read bare,
      (twice landed).0,
      (twice landed).1,
    )
