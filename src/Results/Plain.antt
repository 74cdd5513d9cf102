-- ===== src/Results/Plain.antt =====
-- URLSearchParams of names and values without special characters, for the tests.
use sahel.Common.{ℕ, Bool, true, false, [], ◌∷◌, ◌++◌, ◌==◌, if◌then◌else◌}
use sahel.Js.Text.{Text, is_empty}
use sahel.SearchParams.{Entries}

abbrev pub print : Entries → Text
print [] = []
print ((k, v) ∷ []) = k ++ b'=' ∷ v
print ((k, v) ∷ e ∷ es) = k ++ b'=' ∷ (v ++ b'&' ∷ print (e ∷ es))

abbrev pub add_key : ℕ → Entries → Entries
add_key c [] = (c ∷ [], []) ∷ []
add_key c ((k, v) ∷ es) = (c ∷ k, v) ∷ es

abbrev pub add_value : ℕ → Entries → Entries
add_value c [] = ([], c ∷ []) ∷ []
add_value c ((k, v) ∷ es) = (k, c ∷ v) ∷ es

abbrev pub move_value : Entries → Entries
move_value [] = []
move_value ((k, v) ∷ es) = ([], k ++ v) ∷ es

-- The entries of a query, of which the first one's key or value is being read.
abbrev pub entries_from : Bool → Text → Entries
entries_from in_key [] = ([], []) ∷ []
entries_from true (c ∷ s) =
    let value = entries_from false s in
    let more = entries_from true s in
    if c == b'=' then value else if c == b'&' then ([], []) ∷ more else add_key c more
entries_from false (c ∷ s) =
    let value = entries_from false s in
    let more = entries_from true s in if c == b'&' then ([], []) ∷ more else add_value c value

abbrev pub without_mark : Text → Text
without_mark [] = []
without_mark (c ∷ s) = if c == b'?' then s else c ∷ s

abbrev pub entries_of : Text → Entries
entries_of s = if is_empty s then [] else entries_from true s

abbrev pub parse : Text → Entries
parse s = entries_of (without_mark s)
