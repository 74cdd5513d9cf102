-- ===== src/Slug/Words.antt =====
-- A slug is its words with hyphens between them.
use sahel.Common.{
  ℕ, ◌≡◌, refl, sym, inl, inr, Bool, true, false, not, List, [], ◌∷◌, ◌++◌, ◌==◌, Bool-cases, arith,
  if◌then◌else◌,
}
use sahel.Common.Lists.{keep}
use sahel.Js.Text.{Text, is_empty}
use sahel.Js.Digits.{is_digit}
use sahel.Slug.{is_slug_char, collapse, strip_start, strip_end, slugify}

abbrev pub put_first : ℕ → List Text → List Text
put_first c [] = (c ∷ []) ∷ []
put_first c (w ∷ ws) = (c ∷ w) ∷ ws

-- What stands between the characters that no slug has.
abbrev pub pieces : Text → List Text
pieces [] = [] ∷ []
pieces (c ∷ s) = if is_slug_char c then put_first c (pieces s) else [] ∷ pieces s

abbrev pub is_word : Text → Bool
is_word w = not (is_empty w)

abbrev pub words : Text → List Text
words s = keep is_word (pieces s)

abbrev pub hyphened : List Text → Text
hyphened [] = []
hyphened (w ∷ ws) = b'-' ∷ (w ++ hyphened ws)

abbrev pub joined : List Text → Text
joined [] = []
joined (w ∷ ws) = w ++ hyphened ws

abbrev rest_words : List Text → Text
rest_words [] = []
rest_words (w ∷ ws) = w ++ hyphened (keep is_word ws)

no_hyphen : (c : ℕ) → is_slug_char c ≡ true → (c == b'-') ≡ false
unfolding is_slug_char is_digit
no_hyphen c h = ground (arith, h)

rest_words-put_first : (c : ℕ) (ps : List Text) → rest_words (put_first c ps) ≡ c ∷ rest_words ps
rest_words-put_first c [] = refl
rest_words-put_first c (w ∷ ws) = refl

joined-put_first :
    (c : ℕ) (ps : List Text) → joined (keep is_word (put_first c ps)) ≡ c ∷ rest_words ps
unfolding is_empty
joined-put_first c [] = refl
joined-put_first c (w ∷ ws) = refl

-- A hyphen before what follows, if a word follows.
hyphened-keep :
    (ps : List Text)
    → (if is_empty (joined (keep is_word ps)) then [] else b'-' ∷ joined (keep is_word ps))
      ≡ hyphened (keep is_word ps)
unfolding is_empty
hyphened-keep [] = refl
hyphened-keep ([] ∷ ps) = hyphened-keep ps
hyphened-keep ((c ∷ v) ∷ ps) = refl

-- The rest of a text within a word, and within a run of other characters.
strip_end-collapse :
    (s : Text)
    → (strip_end (collapse false s) ≡ rest_words (pieces s))
      × (strip_end (collapse true s) ≡ joined (words s))
unfolding collapse strip_end is_empty
strip_end-collapse [] = (refl, refl)
strip_end-collapse (c ∷ s) = elim (Bool-cases (is_slug_char c)) [
  | inl e ↦
      let (within, run) = strip_end-collapse s in
      let kept = no_hyphen c e in
      rw (e, kept, within)
        (sym (rest_words-put_first c (pieces s)), sym (joined-put_first c (pieces s)))
  | inr e ↦ let (within, run) = strip_end-collapse s in rw (e, run) (hyphened-keep (pieces s), refl)
]

-- No hyphen begins what follows a run.
run-no_start : (s : Text) → strip_start (collapse true s) ≡ collapse true s
unfolding collapse strip_start
run-no_start [] = refl
run-no_start (c ∷ s) = elim (Bool-cases (is_slug_char c)) [
  | inl e ↦ let kept = no_hyphen c e in rw (e, kept) refl
  | inr e ↦ rw e (run-no_start s)
]

trimmed : (s : Text) → strip_end (strip_start (collapse false s)) ≡ joined (words s)
unfolding collapse strip_start strip_end is_empty
trimmed [] = refl
trimmed (c ∷ s) = elim (Bool-cases (is_slug_char c)) [
  | inl e ↦
      let (within, run) = strip_end-collapse s in
      let kept = no_hyphen c e in rw (e, kept, within, kept) (sym (joined-put_first c (pieces s)))
  | inr e ↦ rw (e, run-no_start s) ((strip_end-collapse s).1)
]

-- A slug is the words of the folded text, the longest runs of letters a to z and digits, in order
-- and with one hyphen between them.
pub slugify_lem :
    (fold : Text → Text) (input : Text) → slugify fold input ≡ joined (words (fold input))
unfolding slugify
slugify_lem fold input = trimmed (fold input)
