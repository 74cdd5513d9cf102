-- ===== src/InPlace/Order.antt =====
-- What a successful change of the order of a unit's images leaves behind.
use sahel.Common.{
  ℕ, zero, suc, ◌+◌, ◌<◌, ◌≡◌, ◌≢◌, refl, ap, ◌∙◌, sym, true, Option, some, List, [], ◌∷◌, arith,
}
use sahel.Common.Lists.{All, length, get_or}
use sahel.Js.Text.{Text}
use sahel.Api.{Result, returned, failed, Method, patch, attempt}
use sahel.InPlace.{Body, sort, send_to}
use sahel.InPlace.Images.{path_to, after, reorder_from, ending, reorder_images}

-- No image is listed twice.
abbrev pub IsDistinct : List Text → Type 0
IsDistinct [] = Unit
IsDistinct (id ∷ ids) = All (λ other. id ≢ other) ids × IsDistinct ids

module _ {S V : Type 0} (stringify : Text → Text)
    (send : S → Method → Text → Option Body → S × Result V) (sort_of : S → Text → ℕ) where
  -- What the API documents of a PATCH of an image: it sets the place of that image and of no other.
  abbrev pub SetsOne : Text → Type 0
  SetsOne unit_id =
      (s s' : S) (id path : Text) (index : ℕ) (v : V)
      → path_to stringify send unit_id id ≡ returned path
      → send s patch path (some (sort index)) ≡ (s', returned v)
      → (sort_of s' id ≡ index) × ((other : Text) → id ≢ other → sort_of s' other ≡ sort_of s other)

  module _ (unit_id : Text) (sets : SetsOne unit_id) where
    sent_one :
        (s : S) (id : Text) (index : ℕ) (rest : S × Result (Unit {0})) (path : Result Text)
        (out : S × Result V) (s' : S)
        → path_to stringify send unit_id id ≡ path
        → send_to stringify send s patch path (some (sort index)) ≡ out
        → after stringify send out rest ≡ (s', returned tt)
        → (sort_of out.0 id ≡ index)
          × ((other : Text) → id ≢ other → sort_of out.0 other ≡ sort_of s other)
          × (rest ≡ (s', returned tt))
    sent_one s id index rest path (t, failed e) s' p q h =
        let bad : ◌≡◌ {A = Result (Unit {0})} (failed e) (returned tt) = ap (λ x. x.1) h in
        absurd (cc)
    sent_one s id index rest (failed e) (t, returned v) s' p q h =
        let bad : ◌≡◌ {A = Result V} (failed e) (returned v) = ap (λ x. x.1) q in absurd (cc)
    sent_one s id index rest (returned path) (t, returned v) s' p q h =
        let (own, others) = sets s t id path index v p q in (own, others, h)

    kept :
        (s : S) (ids : List Text) (index : ℕ) (s' : S) (id : Text)
        → reorder_from stringify send s unit_id index ids ≡ (s', returned tt)
        → All (λ other. id ≢ other) ids
        → sort_of s' id ≡ sort_of s id
    unfolding reorder_from
    kept s [] index s' id h a = ap (λ x. sort_of x.0 id) (sym h)
    kept s (first ∷ ids) index s' id h (other, a) =
        let out =
          send_to stringify send s patch (path_to stringify send unit_id first)
            (some (sort index)) in
        let (_, others, rest) =
          sent_one s first index (reorder_from stringify send out.0 unit_id (suc index) ids)
            (path_to stringify send unit_id first) out s' refl refl h in
        kept out.0 ids (suc index) s' id rest a ∙ others id (λ e. other (sym e))

    placed :
        (s : S) (ids : List Text) (index : ℕ) (s' : S) (i : ℕ)
        → reorder_from stringify send s unit_id index ids ≡ (s', returned tt)
        → IsDistinct ids
        → i < length ids
        → sort_of s' (get_or ids i []) ≡ index + i
    unfolding reorder_from
    placed s [] index s' i h d lt = absurd (omega arith)
    placed s (first ∷ ids) index s' zero h (new, d) lt =
        let out =
          send_to stringify send s patch (path_to stringify send unit_id first)
            (some (sort index)) in
        let (own, _, rest) =
          sent_one s first index (reorder_from stringify send out.0 unit_id (suc index) ids)
            (path_to stringify send unit_id first) out s' refl refl h in
        kept out.0 ids (suc index) s' first rest new ∙ (own ∙ omega arith)
    placed s (first ∷ ids) index s' (suc i) h (new, d) lt =
        let out =
          send_to stringify send s patch (path_to stringify send unit_id first)
            (some (sort index)) in
        let (_, _, rest) =
          sent_one s first index (reorder_from stringify send out.0 unit_id (suc index) ids)
            (path_to stringify send unit_id first) out s' refl refl h in
        placed out.0 ids (suc index) s' i rest d (omega arith) ∙ omega arith

  -- When the API's PATCH of an image sets the place of that image and of no other, the identifiers
  -- are distinct and reorderImages ends without an error: the image at each index of the order has
  -- that index as its place.
  pub get_or-reorder_images :
      (unit_id : Text)
      → SetsOne unit_id
      → (s : S) (ids : List Text) (i : ℕ) → IsDistinct ids
      → i < length ids
      → (reorder_images stringify send s unit_id ids).1.revalidated ≡ true
      → sort_of (reorder_images stringify send s unit_id ids).0 (get_or ids i []) ≡ i
  unfolding reorder_images attempt
  get_or-reorder_images unit_id sets s ids i d lt h =
      finish (reorder_from stringify send s unit_id 0 ids) refl h
    where
      finish :
          (out : S × Result (Unit {0}))
          → reorder_from stringify send s unit_id 0 ids ≡ out
          → (ending stringify send out).1.revalidated ≡ true
          → sort_of (ending stringify send out).0 (get_or ids i []) ≡ i
      finish (t, failed e) q k = absurd (cc)
      finish (t, returned u) q k = placed unit_id sets s ids 0 t i q d lt ∙ omega arith
