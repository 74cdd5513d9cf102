-- ===== src/FormFields/Laws.antt =====
-- A list that a form shows is read back.
use mathlib.Core.Path.{subst}
use mathlib.Core.List.{append_assoc}
use sahel.Common.{◌≡◌, refl, ap, sym, ◌∙◌, false, not, List, [], ◌∷◌, ◌++◌, map, arith}
use sahel.Common.Lists.{All, keep}
use sahel.Js.Text.{Text, is_empty, same_refl}
use sahel.Js.Text.Trim.{
  is_space, trim_start, trim_end, trim, StartsPlain, trim_start-StartsPlain, trim_start_fixed,
  trim_end-StartsPlain, trim_end_idem,
}
use sahel.FormFields.{
  FormData, typed, get_field, text, is_separator, grow_first, split, items_of, list, join_from,
  shown_list,
}

-- An item of a list: trimmed, not blank, and without what separates the items.
abbrev pub IsListItem : Text → Type 0
IsListItem x = (trim x ≡ x) × (is_empty x ≡ false) × All (λ c. is_separator c ≡ false) x

split-plain : (x : Text) → All (λ c. is_separator c ≡ false) x → split x ≡ x ∷ []
unfolding split
split-plain [] h = refl
split-plain (c ∷ x) h = rw (h.0, split-plain x h.1) refl

split-append :
    (x rest : Text)
    → All (λ c. is_separator c ≡ false) x
    → split (x ++ 0x060c ∷ rest) ≡ x ∷ split rest
unfolding split is_separator
split-append [] rest h = refl
split-append (c ∷ x) rest h = rw (split-append x rest h.1, h.0) refl

split-join_from :
    (x : Text) (ys : List Text)
    → All IsListItem (x ∷ ys)
    → split (join_from x ys) ≡ x ∷ map (λ y. 32 ∷ y) ys
unfolding split is_separator
split-join_from x [] h = split-plain x h.0.2
split-join_from x (y ∷ ys) h =
    split-append x (32 ∷ join_from y ys) h.0.2
    ∙ ap (λ parts. x ∷ grow_first 32 parts) (split-join_from y ys h.1)

trim_end_item : (x : Text) → trim x ≡ x → trim_end x ≡ x
unfolding trim
trim_end_item x h = ap trim_end (sym h) ∙ trim_end_idem (trim_start x) ∙ h

is_empty-append : (a b : Text) → is_empty b ≡ false → is_empty (a ++ b) ≡ false
unfolding is_empty
is_empty-append [] b h = h
is_empty-append (c ∷ a) b h = refl

trim_end-append : (a b : Text) → is_empty b ≡ false → trim_end b ≡ b → trim_end (a ++ b) ≡ a ++ b
unfolding trim_end is_empty
trim_end-append [] b h e = e
trim_end-append (c ∷ a) b h e =
    let nonempty = is_empty-append a b h in rw (trim_end-append a b h e, nonempty) ground (arith)

join_from-plain :
    (x : Text) (ys : List Text)
    → All IsListItem (x ∷ ys)
    → (is_empty (join_from x ys) ≡ false) × (trim_end (join_from x ys) ≡ join_from x ys)
join_from-plain x [] h = (h.0.1, trim_end_item x h.0.0)
join_from-plain x (y ∷ ys) h =
    let (some_text, ended) = join_from-plain y ys h.1 in
    let whole = append_assoc x (0x060c ∷ 32 ∷ []) (join_from y ys) in
    let here = trim_end-append (x ++ 0x060c ∷ 32 ∷ []) (join_from y ys) some_text ended in
    let filled = is_empty-append (x ++ 0x060c ∷ 32 ∷ []) (join_from y ys) some_text in
    (subst (λ t. is_empty t ≡ false) whole filled, subst (λ t. trim_end t ≡ t) whole here)

item-StartsPlain : (x : Text) → IsListItem x → StartsPlain x
unfolding trim
item-StartsPlain x h =
    subst StartsPlain h.0 (trim_end-StartsPlain (trim_start x) (trim_start-StartsPlain x))

StartsPlain-append : (x rest : Text) → is_empty x ≡ false → StartsPlain x → StartsPlain (x ++ rest)
unfolding is_empty
StartsPlain-append [] rest e h = cc
StartsPlain-append (c ∷ x) rest e h = h

join_from-StartsPlain :
    (x : Text) (ys : List Text) → All IsListItem (x ∷ ys) → StartsPlain (join_from x ys)
join_from-StartsPlain x [] h = item-StartsPlain x h.0
join_from-StartsPlain x (y ∷ ys) h = StartsPlain-append x _ h.0.1 (item-StartsPlain x h.0)

trim-shown_list :
    (items : List Text) → All IsListItem items → trim (shown_list items) ≡ shown_list items
unfolding trim trim_start trim_end
trim-shown_list [] h = refl
trim-shown_list (x ∷ xs) h =
    ap trim_end (trim_start_fixed (join_from x xs) (join_from-StartsPlain x xs h))
    ∙ (join_from-plain x xs h).1

trim_space : (y : Text) → trim (32 ∷ y) ≡ trim y
unfolding trim trim_start is_space
trim_space y = refl

items_back :
    (ys : List Text)
    → All IsListItem ys
    → keep (λ t. not (is_empty t)) (map trim (map (λ y. 32 ∷ y) ys)) ≡ ys
items_back [] h = refl
items_back (y ∷ ys) h = rw (trim_space y, h.0.0, h.0.1) (ap (λ t. y ∷ t) (items_back ys h.1))

items_of-shown_list :
    (items : List Text) → All IsListItem items → items_of (shown_list items) ≡ items
unfolding items_of split is_empty trim trim_start trim_end
items_of-shown_list [] h = refl
items_of-shown_list (x ∷ xs) h =
    rw (split-join_from x xs h, h.0.0, h.0.1) (ap (λ t. x ∷ t) (items_back xs h.1))

-- A list of trimmed items that are not blank and have no comma or line break comes back, as it
-- was, from the field that the form shows it in.
pub list-shown_list :
    (items : List Text) (fd : FormData) (key : Text)
    → All IsListItem items
    → list ((key, typed (shown_list items)) ∷ fd) key ≡ items
unfolding list text get_field
list-shown_list items fd key h =
    rw (same_refl key, trim-shown_list items h) (items_of-shown_list items h)
