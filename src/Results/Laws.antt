-- ===== src/Results/Laws.antt =====
-- What a page reads of the query to which a server action redirects it.
use sahel.Common.{◌≡◌, refl, ap, Bool, true, false, some, List, [], ◌∷◌, ◌++◌, ◌==◌, arith}
use mathlib.Core.List.{append_assoc}
use sahel.Common.Lists.{All, any, keep}
use sahel.Js.Text.{Text, codes, same}
use sahel.SearchParams.{Entries}
use sahel.Results.{
  ResultKind, created, saved, deleted, kind_text, get_param, delete_param, outcome_entries,
  with_result, kind_of, read_result, question, without_result,
}

-- The entry is not one of those that tell the outcome of an action.
abbrev pub IsOwn : Text × Text → Type 0
IsOwn e = (same e.0 (codes "done") ≡ false) × (same e.0 (codes "name") ≡ false)

keep-All {ℓ} :
    {A : Type ℓ} → (p : A → Bool) (xs : List A) → All (λ x. p x ≡ true) xs → keep p xs ≡ xs
keep-All p [] h = refl
keep-All p (x ∷ xs) h = ground (arith, h, keep-All p xs h.1)

any_here {ℓ} :
    {A : Type ℓ}
    → (p : A → Bool) (xs ys : List A) (x : A) → p x ≡ true
    → any p (xs ++ x ∷ ys) ≡ true
any_here p [] ys x h = ground (arith, h)
any_here p (y ∷ xs) ys x h = ground (arith, any_here p xs ys x h)

-- Entries of one's own are not deleted.
pub delete_own :
    (es : Entries)
    → All IsOwn es
    → delete_param (delete_param es (codes "done")) (codes "name") ≡ es
unfolding delete_param
delete_own [] h = refl
delete_own (e ∷ es) h = rw (h.0.0, h.0.1) (ap (λ r. e ∷ r) (delete_own es h.1))

pub delete_outcome :
    (es : Entries) (kind : ResultKind) (name : Text)
    → All IsOwn es
    → delete_param (delete_param (es ++ outcome_entries kind name) (codes "done")) (codes "name")
      ≡ es
unfolding delete_param same
delete_outcome [] kind name h = refl
delete_outcome (e ∷ es) kind name h =
    rw (h.0.0, h.0.1) (ap (λ r. e ∷ r) (delete_outcome es kind name h.1))

pub read_own :
    (es : Entries) (kind : ResultKind) (name : Text)
    → All IsOwn es
    → (get_param (es ++ outcome_entries kind name) (codes "done") ≡ some (kind_text kind))
      × (get_param (es ++ outcome_entries kind name) (codes "name") ≡ some name)
unfolding get_param same
read_own [] kind name h = (refl, refl)
read_own (e ∷ es) kind name h = rw (h.0.0, h.0.1) (read_own es kind name h.1)

pub kind_of-kind_text : (kind : ResultKind) → kind_of (kind_text kind) ≡ some kind
unfolding kind_of same
kind_of-kind_text created = refl
kind_of-kind_text saved = refl
kind_of-kind_text deleted = refl

module _ (print : Entries → Text) where
  -- The query of the page, with the outcome of an action.
  abbrev pub outcome_query : Entries → ResultKind → Text → Text
  outcome_query es kind name = print es ++ b'&' ∷ print (outcome_entries kind name)

  -- For a page with a query whose entries tell no outcome, where URLSearchParams reads the new
  -- query as its entries: withResult keeps the page and puts the outcome after that query,
  -- readResult of it is the kind and the name that were given, and withoutResult of it is the old
  -- query.
  pub read_result-with_result :
      (parse : Text → Entries) (base : Text) (es : Entries) (kind : ResultKind) (name : Text)
      → All IsOwn es
      → parse (b'?' ∷ outcome_query es kind name) ≡ es ++ outcome_entries kind name
      → (with_result print (base ++ b'?' ∷ print es) kind name
          ≡ base ++ b'?' ∷ outcome_query es kind name)
        × (read_result (parse (b'?' ∷ outcome_query es kind name))
            ≡ some (record { kind = kind; name = name }))
        × (without_result print (parse (b'?' ∷ outcome_query es kind name)) ≡ question (print es))
  unfolding with_result read_result without_result
  read_result-with_result parse base es kind name own h = (
    rw (any_here (λ c. c == b'?') base (print es) b'?' refl)
        (append_assoc base (b'?' ∷ print es) _),
    rw (h, (read_own es kind name own).0, (read_own es kind name own).1, kind_of-kind_text kind)
        refl,
    rw (h, delete_outcome es kind name own) refl,
  )
