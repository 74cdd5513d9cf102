-- ===== src/Filter/Laws.antt =====
-- The query of a list, which goes to the action that deletes one of its records and comes back.
use sahel.Common.{◌≡◌, refl, Bool, true, false, not, ◌&&◌, [], ◌∷◌, Bool-cases, inl, inr}
use sahel.Common.Lists.{All}
use sahel.Js.Text.{Text, codes, same, is_empty, starts_with}
use sahel.SearchParams.{Entries, first}
use sahel.Results.{without_result, safe_return_query}
use sahel.Results.Laws.{IsOwn, delete_own}
use sahel.Filter.{Params, query_entries, list_query}

own_key : (v a b : Bool) → (not v && not a && not b) ≡ true → (a ≡ false) × (b ≡ false)
own_key true a b h = cc
own_key false true b h = cc
own_key false false true h = cc
own_key false false false h = (refl, refl)

-- A list's query tells no outcome.
query_entries-IsOwn : (sp : Params) → All IsOwn (query_entries sp)
unfolding query_entries
query_entries-IsOwn [] = tt
query_entries-IsOwn ((k, v) ∷ sp) =
    elim (Bool-cases
      (not (is_empty (first v)) && not (same k (codes "done")) && not (same k (codes "name")))) [
        | inl e ↦ rw e (
          own_key (is_empty (first v)) (same k (codes "done")) (same k (codes "name")) e,
          query_entries-IsOwn sp,
        )
        | inr e ↦ rw e (query_entries-IsOwn sp)
      ]

-- The query of a list, which goes to the action that deletes one of its records, comes back from
-- safeReturnQuery unchanged, when URLSearchParams reads what it wrote.
pub safe_return_query-list_query :
    (print : Entries → Text) (parse : Text → Entries) (sp : Params)
    → parse (b'?' ∷ print (query_entries sp)) ≡ query_entries sp
    → safe_return_query print parse (list_query print sp) ≡ list_query print sp
unfolding list_query safe_return_query without_result starts_with
safe_return_query-list_query print parse sp h =
    elim (Bool-cases (is_empty (print (query_entries sp)))) [
      | inl e ↦ rw e refl
      | inr e ↦ rw (e, h, delete_own (query_entries sp) (query_entries-IsOwn sp), e) refl
    ]
