-- ===== src/Amenities/Laws.antt =====
-- The merged list has each amenity once.
use sahel.Common.{
  ◌≡◌, refl, inl, inr, Bool, true, false, ◌||◌, Option, List, [], ◌∷◌, ◌++◌, map, Bool-cases,
}
use sahel.Common.Lists.{All}
use sahel.Js.Text.{Text, same, is_empty, same→eq, same_refl}
use sahel.Js.Text.Trim.{trim, trim_idem}
use sahel.Amenities.{or_none, has_key, merge_from, merge_amenities}

module _ (lower : Text → Text) where
  -- No two items have the same key.
  abbrev pub IsDistinct : List Text → Type 0
  IsDistinct [] = Unit
  IsDistinct (x ∷ xs) = All (λ y. same (lower x) (lower y) ≡ false) xs × IsDistinct xs

  -- An item is trimmed and not blank.
  abbrev pub IsItem : Text → Type 0
  IsItem x = (trim x ≡ x) × (is_empty x ≡ false)

  abbrev pub keys : List Text → List Text
  keys xs = map lower xs

  -- A key that was seen is not a key that was not seen.
  distinct_key :
      (seen : List Text) (key k : Text)
      → has_key seen key ≡ true
      → has_key seen k ≡ false
      → same key k ≡ false
  distinct_key seen key k h unseen_k = elim (Bool-cases (same key k)) [
    | inl e ↦ let eq = same→eq key k e in cc
    | inr e ↦ e
  ]

  or_true : (a b : Bool) → b ≡ true → (a || b) ≡ true
  or_true true b h = refl
  or_true false b h = h

  or_left : (a b : Bool) → a ≡ true → (a || b) ≡ true
  or_left true b h = refl
  or_left false b h = cc

  not_blank : (a b : Bool) → (a || b) ≡ false → (a ≡ false) × (b ≡ false)
  not_blank true b h = cc
  not_blank false b h = (refl, h)

  unseen :
      (seen rest : List Text) (key : Text)
      → has_key seen key ≡ true
      → All (λ y. same key (lower y) ≡ false) (merge_from lower seen rest)
  unfolding merge_from
  unseen seen [] key h = tt
  unseen seen (raw ∷ rest) key h =
      elim (Bool-cases (is_empty (trim raw) || has_key seen (lower (trim raw)))) [
        | inl skip ↦ rw skip (unseen seen rest key h)
        | inr keep ↦
            let (shown, fresh) =
              not_blank (is_empty (trim raw)) (has_key seen (lower (trim raw))) keep in
            rw keep (
              distinct_key seen key (lower (trim raw)) h fresh,
              unseen (lower (trim raw) ∷ seen) rest key
                  (or_true (same (lower (trim raw)) key) (has_key seen key) h),
            )
      ]

  merged :
      (seen rest : List Text)
      → IsDistinct (merge_from lower seen rest) × All IsItem (merge_from lower seen rest)
  unfolding merge_from
  merged seen [] = (tt, tt)
  merged seen (raw ∷ rest) =
      elim (Bool-cases (is_empty (trim raw) || has_key seen (lower (trim raw)))) [
        | inl skip ↦ rw skip (merged seen rest)
        | inr keep ↦
            let (shown, fresh) =
              not_blank (is_empty (trim raw)) (has_key seen (lower (trim raw))) keep in
            let (distinct, items) = merged (lower (trim raw) ∷ seen) rest in
            let here =
              or_left (same (lower (trim raw)) (lower (trim raw))) (has_key seen (lower (trim raw)))
                (same_refl (lower (trim raw))) in
            rw keep (
              (unseen (lower (trim raw) ∷ seen) rest (lower (trim raw)) here, distinct),
              ((trim_idem raw, shown), items),
            )
      ]

  -- The merged amenities are trimmed, none is blank, and no two of them are the same in lower
  -- case.
  pub merge_amenities_lem :
      (unit compound : Option (List Text))
      → IsDistinct (merge_amenities lower unit compound)
        × All IsItem (merge_amenities lower unit compound)
  unfolding merge_amenities
  merge_amenities_lem unit compound = merged [] (or_none unit ++ or_none compound)
