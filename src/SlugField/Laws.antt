-- ===== src/SlugField/Laws.antt =====
-- What the field says of its slug.
use sahel.Common.{◌≡◌, refl, ap, ◌∙◌, Bool, true, false, List, [], ◌∷◌, ◌++◌, if◌then◌else◌}
use sahel.Js.Text.{Text, is_empty}
use sahel.Api.{Result, returned}
use sahel.Slug.{slugify}
use sahel.Slug.Words.{joined, words, slugify_lem}
use sahel.SlugField.{
  idle, checking, taken, free, State, check, told, blur, blur_all, answer, answer_each, answer_all,
}

module _ (ask : Text → Result Bool) where
  answer_each-append :
      (values : List Text) (v : Text) (s : State)
      → answer_each ask (values ++ v ∷ []) s ≡ answer ask v (answer_each ask values s)
  answer_each-append [] v s = refl
  answer_each-append (w ∷ values) v s = answer_each-append values v (answer ask w s)

  answer_each-value :
      (values : List Text) (s : State)
      → ((answer_each ask values s).value ≡ s.value) × ((answer_each ask values s).asked ≡ s.asked)
  unfolding answer
  answer_each-value [] s = (refl, refl)
  answer_each-value (w ∷ values) s = answer_each-value values (answer ask w s)

  abbrev pub told_of : Text → Bool → State
  told_of v b = record { value = v; status = (if b then taken else free); asked = [] }

  answered :
      (t : State) (v : Text) (b : Bool)
      → t.value ≡ v
      → t.asked ≡ []
      → ask v ≡ returned b
      → answer ask v t ≡ told_of v b
  unfolding answer
  answered t v true p q e = cc (ap (λ (r : Result Bool). told r t.status) e)
  answered t v false p q e = cc (ap (λ (r : Result Bool). told r t.status) e)

  module _ (fold : Text → Text) where
    blur_all-append :
        (texts : List Text) (typed : Text) (s : State)
        → blur_all fold (texts ++ typed ∷ []) s ≡ blur fold typed (blur_all fold texts s)
    unfolding blur_all
    blur_all-append [] typed s = refl
    blur_all-append (t ∷ texts) typed s = blur_all-append texts typed (blur fold t s)

    last :
        (typed : Text) (s : State) (b : Bool)
        → is_empty (slugify fold typed) ≡ false
        → ask (slugify fold typed) ≡ returned b
        → answer_all ask (blur fold typed s) ≡ told_of (slugify fold typed) b
    unfolding answer_all blur check
    last typed s b h e =
        let v = slugify fold typed in
        let start : State = record { value = v; status = checking; asked = [] } in
        let before = answer_each ask s.asked start in
        let kept = answer_each-value s.asked start in
        rw h (answer_each-append s.asked v start ∙ answered before v b kept.0 kept.1 e)

    -- When a slug field is left any number of times, the last text has a slug that is not empty,
    -- and its check is answered: once all checks are answered in order, the field holds the words
    -- of the last text joined by hyphens and tells the answer about that slug.
    pub answer_all-blur_all :
        (texts : List Text) (typed : Text) (s : State) (b : Bool)
        → is_empty (slugify fold typed) ≡ false
        → ask (slugify fold typed) ≡ returned b
        → answer_all ask (blur_all fold (texts ++ typed ∷ []) s)
          ≡ told_of (joined (words (fold typed))) b
    answer_all-blur_all texts typed s b h e =
        ap (λ (t : State). answer_all ask t) (blur_all-append texts typed s)
        ∙ last typed (blur_all fold texts s) b h e
        ∙ ap (λ (v : Text). told_of v b) (slugify_lem fold typed)

    -- A check that is under way when the field is emptied still tells its answer.
    answer_all-check :
        (v : Text) (b : Bool)
        → is_empty v ≡ false
        → ask v ≡ returned b
        → answer_all ask (
            check (record (check (record { value = v; status = idle; asked = [] })) { value = [] }))
          ≡ told_of [] b
    unfolding answer_all check is_empty answer
    answer_all-check [] b h e = cc
    answer_all-check (c ∷ v) true h e = rw e refl
    answer_all-check (c ∷ v) false h e = rw e refl
