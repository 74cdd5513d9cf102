-- ===== src/ImageManager/Moves.antt =====
-- What a move of an image does to the places of the images.
use sahel.Common.{
  ℕ, zero, suc, ◌<◌, ◌≡◌, ◌≢◌, refl, ap, sym, ◌∙◌, true, Option, List, [], ◌∷◌, map, arith,
}
use sahel.Common.Lists.{All, length, get_or}
use sahel.Js.Text.{Text}
use sahel.AdminTypes.{UnitImage}
use sahel.Api.{Result, Method}
use sahel.InPlace.{Body}
use sahel.InPlace.Images.{reorder_images}
use sahel.InPlace.Order.{IsDistinct, SetsOne, get_or-reorder_images}
use sahel.ImageManager.{State, swap_next, move_later}

length-swap_next : (i : ℕ) (ids : List Text) → length (swap_next i ids) ≡ length ids
unfolding swap_next
length-swap_next i [] = refl
length-swap_next i (x ∷ []) = refl
length-swap_next zero (x ∷ y ∷ xs) = refl
length-swap_next (suc i) (x ∷ y ∷ xs) = ap suc (length-swap_next i (y ∷ xs))

All-swap_next : (P : Text → Type 0) (i : ℕ) (ids : List Text) → All P ids → All P (swap_next i ids)
unfolding swap_next
All-swap_next P i [] h = h
All-swap_next P i (x ∷ []) h = h
All-swap_next P zero (x ∷ y ∷ xs) (hx, (hy, h)) = (hy, (hx, h))
All-swap_next P (suc i) (x ∷ y ∷ xs) (hx, h) = (hx, All-swap_next P i (y ∷ xs) h)

IsDistinct-swap_next : (i : ℕ) (ids : List Text) → IsDistinct ids → IsDistinct (swap_next i ids)
unfolding swap_next
IsDistinct-swap_next i [] h = h
IsDistinct-swap_next i (x ∷ []) h = h
IsDistinct-swap_next zero (x ∷ y ∷ xs) ((xy, hx), (hy, h)) = (((λ e. xy (sym e)), hy), (hx, h))
IsDistinct-swap_next (suc i) (x ∷ y ∷ xs) (hx, h) =
    (All-swap_next (λ other. x ≢ other) i (y ∷ xs) hx, IsDistinct-swap_next i (y ∷ xs) h)

-- The two neighbours are exchanged, and the others stay.
get_or-swap_next :
    (i : ℕ) (ids : List Text)
    → suc i < length ids
    → (get_or (swap_next i ids) i [] ≡ get_or ids (suc i) [])
      × (get_or (swap_next i ids) (suc i) [] ≡ get_or ids i [])
unfolding swap_next
get_or-swap_next i [] h = absurd (omega arith)
get_or-swap_next i (x ∷ []) h = absurd (omega arith)
get_or-swap_next zero (x ∷ y ∷ xs) h = (refl, refl)
get_or-swap_next (suc i) (x ∷ y ∷ xs) h = get_or-swap_next i (y ∷ xs) (omega arith)

kept-swap_next :
    (i j : ℕ) (ids : List Text)
    → j ≢ i
    → j ≢ suc i
    → get_or (swap_next i ids) j [] ≡ get_or ids j []
unfolding swap_next
kept-swap_next i j [] a b = refl
kept-swap_next i j (x ∷ []) a b = refl
kept-swap_next zero zero (x ∷ y ∷ xs) a b = absurd (a refl)
kept-swap_next zero (suc zero) (x ∷ y ∷ xs) a b = absurd (b refl)
kept-swap_next zero (suc (suc j)) (x ∷ y ∷ xs) a b = refl
kept-swap_next (suc i) zero (x ∷ y ∷ xs) a b = refl
kept-swap_next (suc i) (suc j) (x ∷ y ∷ xs) a b =
    kept-swap_next i j (y ∷ xs) (λ e. a (ap suc e)) (λ e. b (ap suc e))

module _ {A V : Type 0} (stringify : Text → Text)
    (send : A → Method → Text → Option Body → A × Result V) (sort_of : A → Text → ℕ) where
  abbrev pub ids_of : List UnitImage → List Text
  ids_of images = map (λ i. i.id) images

  -- When the API's PATCH of an image sets the place of that image and of no other, the images of a
  -- unit have distinct identifiers and reorderImages of the exchanged order ends without an error:
  -- the move of an image that is not the last puts it one place later, the next image one place
  -- earlier, and every other image at its own place.
  pub get_or-move_later :
      (unit_id : Text)
      → SetsOne stringify send sort_of unit_id
      → (images : List UnitImage) (index : ℕ) (api : A) (s : State) → IsDistinct (ids_of images)
      → suc index < length (ids_of images)
      → (reorder_images stringify send api unit_id (swap_next index (ids_of images))).1.revalidated
        ≡ true
      → (sort_of
            (move_later stringify send unit_id index images api s).0
            (get_or (ids_of images) index [])
          ≡ suc index)
        × (sort_of
              (move_later stringify send unit_id index images api s).0
              (get_or (ids_of images) (suc index) [])
            ≡ index)
        × ((j : ℕ)
            → j ≢ index
            → j ≢ suc index
            → j < length (ids_of images)
            → sort_of
                (move_later stringify send unit_id index images api s).0
                (get_or (ids_of images) j [])
              ≡ j)
  unfolding move_later
  get_or-move_later unit_id sets images index api s distinct lt done =
      let ids = ids_of images in
      let (there, here) = get_or-swap_next index ids lt in
      let out = (reorder_images stringify send api unit_id (swap_next index ids)).0 in
      let same_length = length-swap_next index ids in
      let apart = IsDistinct-swap_next index ids distinct in
      let placed : (k : ℕ) → k < length ids → sort_of out (get_or (swap_next index ids) k []) ≡ k =
        λ k small.
          get_or-reorder_images stringify send sort_of unit_id sets api (swap_next index ids) k
            apart (omega (arith, same_length, small)) done in
      (
        ap (sort_of out) (sym here) ∙ placed (suc index) lt,
        ap (sort_of out) (sym there) ∙ placed index (omega (arith, lt)),
        λ j a b small. ap (sort_of out) (sym (kept-swap_next index j ids a b)) ∙ placed j small,
      )
