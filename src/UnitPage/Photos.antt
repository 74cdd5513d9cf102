-- ===== src/UnitPage/Photos.antt =====
-- The order of the gallery.
use mathlib.Core.List.{Perm}
use mathlib.Core.List.Perm
use sahel.Common.{◌≤◌, ◌≡◌, inl, inr, true, false, List, [], ◌∷◌, arith, Bool-cases}
use sahel.Common.Lists.{All}
use sahel.PublicTypes.{UnitImage}
use sahel.UnitPage.{comes_after, put_in, ordered}

-- A cover may stand before any other photo, and photos of one kind by their place.
abbrev pub InOrder : UnitImage → UnitImage → Type 0
InOrder i j = (j.is_cover ≡ true → i.is_cover ≡ true) × (i.is_cover ≡ j.is_cover → i.sort ≤ j.sort)

-- Every photo is in order with all that stand behind it.
abbrev pub IsOrdered : List UnitImage → Type 0
IsOrdered [] = Unit
IsOrdered (i ∷ images) = All (InOrder i) images × IsOrdered images

-- No photo comes after one that stands behind it.
abbrev IsSorted : List UnitImage → Type 0
IsSorted [] = Unit
IsSorted (i ∷ images) = All (λ j. comes_after i j ≡ false) images × IsSorted images

comes_after-InOrder : (i j : UnitImage) → comes_after i j ≡ false → InOrder i j
unfolding comes_after
comes_after-InOrder i j h = (ground (arith, h), ground (arith, h))

All-InOrder :
    (i : UnitImage) (images : List UnitImage)
    → All (λ j. comes_after i j ≡ false) images
    → All (InOrder i) images
All-InOrder i [] h = tt
All-InOrder i (j ∷ images) (h, g) = (comes_after-InOrder i j h, All-InOrder i images g)

IsOrdered-IsSorted : (images : List UnitImage) → IsSorted images → IsOrdered images
IsOrdered-IsSorted [] h = tt
IsOrdered-IsSorted (i ∷ images) (h, g) = (All-InOrder i images h, IsOrdered-IsSorted images g)

put_in-perm : (i : UnitImage) (images : List UnitImage) → Perm (put_in i images) (i ∷ images)
put_in-perm i [] = Perm.rfl
put_in-perm i (j ∷ images) = elim (Bool-cases (comes_after i j)) [
  | inl e ↦ rw e (Perm.trans (Perm.cons j (put_in-perm i images)) (Perm.swap i j images))
  | inr e ↦ rw e Perm.rfl
]

ordered-perm : (images : List UnitImage) → Perm (ordered images) images
unfolding ordered
ordered-perm [] = Perm.nil
ordered-perm (i ∷ images) =
    Perm.trans (put_in-perm i (ordered images)) (Perm.cons i (ordered-perm images))

comes_after_trans :
    (a b c : UnitImage)
    → comes_after a b ≡ false
    → comes_after b c ≡ false
    → comes_after a c ≡ false
unfolding comes_after
comes_after_trans a b c h g = ground (arith, h, g)

comes_after_asym : (a b : UnitImage) → comes_after a b ≡ true → comes_after b a ≡ false
unfolding comes_after
comes_after_asym a b h = ground (arith, h)

module _ (P : UnitImage → Type 0) where
  All-put_in :
      (i : UnitImage) (images : List UnitImage) → P i → All P images → All P (put_in i images)
  All-put_in i [] p h = (p, tt)
  All-put_in i (j ∷ images) p (q, h) = elim (Bool-cases (comes_after i j)) [
    | inl e ↦ rw e (q, All-put_in i images p h)
    | inr e ↦ rw e (p, (q, h))
  ]

behind_rest :
    (a b : UnitImage) (images : List UnitImage)
    → comes_after a b ≡ false
    → All (λ j. comes_after b j ≡ false) images
    → All (λ j. comes_after a j ≡ false) images
behind_rest a b [] h g = tt
behind_rest a b (c ∷ images) h (g, gs) = (comes_after_trans a b c h g, behind_rest a b images h gs)

put_in-IsSorted :
    (i : UnitImage) (images : List UnitImage) → IsSorted images → IsSorted (put_in i images)
put_in-IsSorted i [] h = (tt, tt)
put_in-IsSorted i (j ∷ images) (front, h) = elim (Bool-cases (comes_after i j)) [
  | inl e ↦ rw e (
    All-put_in (λ k. comes_after j k ≡ false) i images (comes_after_asym i j e) front,
    put_in-IsSorted i images h,
  )
  | inr e ↦ rw e ((e, behind_rest i j images e front), (front, h))
]

ordered-IsSorted : (images : List UnitImage) → IsSorted (ordered images)
unfolding ordered
ordered-IsSorted [] = tt
ordered-IsSorted (i ∷ images) = put_in-IsSorted i (ordered images) (ordered-IsSorted images)

-- The gallery of a unit has its photos, each as often as before, and in order: a cover never
-- stands behind a photo that is none, and among covers, and among the others, a photo never stands
-- behind one with a greater place.
pub ordered_lem :
    (images : List UnitImage) → Perm (ordered images) images × IsOrdered (ordered images)
ordered_lem images =
    (ordered-perm images, IsOrdered-IsSorted (ordered images) (ordered-IsSorted images))
