-- ===== src/Phone/Laws.antt =====
-- The spellings of one mobile number that pass the check before a form is sent.
use mathlib.Core.List.{append-nil}
use sahel.Common.{ℕ, zero, suc, ◌≡◌, refl, ap, ◌∙◌, sym, true, false, [], ◌∷◌, ◌++◌, arith}
use sahel.Common.Lists.{all, length, take, drop}
use sahel.Js.Text.{Text, codes, starts_with}
use sahel.Js.Text.Trim.{is_space}
use sahel.Js.Digits.{is_digit}
use sahel.Money.{to_latin}
use sahel.Phone.{
  is_decoration, bare, national, is_operator, is_mobile, looks_like_mobile, format_phone,
}

digit_kept : (c : ℕ) → is_digit c ≡ true → (to_latin c ≡ c) × (is_decoration c ≡ false)
unfolding is_digit to_latin is_decoration is_space
digit_kept c h = ground arith

bare-cons : (c : ℕ) (s : Text) → is_digit c ≡ true → bare (c ∷ s) ≡ c ∷ bare s
unfolding bare
bare-cons c s h = let (latin, kept) = digit_kept c h in rw (latin, kept) refl

bare-append : (a s : Text) → all is_digit a ≡ true → bare (a ++ s) ≡ a ++ bare s
bare-append [] s h = refl
bare-append (c ∷ a) s h =
    bare-cons c (a ++ s) (ground arith) ∙ ap (λ t. c ∷ t) (bare-append a s (ground arith))

bare-plus : (s : Text) → bare (b'+' ∷ s) ≡ bare s
unfolding bare to_latin is_decoration is_space
bare-plus s = refl

bare-space : (s : Text) → bare (b' ' ∷ s) ≡ bare s
unfolding bare to_latin is_decoration is_space
bare-space s = refl

bare-nil : bare [] ≡ []
unfolding bare
bare-nil = refl

bare_digits : (a : Text) → all is_digit a ≡ true → bare a ≡ a
bare_digits a h =
    ap bare (sym (append-nil a)) ∙ (bare-append a [] h ∙ (ap (λ t. a ++ t) bare-nil ∙ append-nil a))

all-take : (n : ℕ) (s : Text) → all is_digit s ≡ true → all is_digit (take n s) ≡ true
all-take zero s h = refl
all-take (suc n) [] h = refl
all-take (suc n) (c ∷ s) h = ground (arith, all-take n s)

all-drop : (n : ℕ) (s : Text) → all is_digit s ≡ true → all is_digit (drop n s) ≡ true
all-drop zero s h = h
all-drop (suc n) [] h = refl
all-drop (suc n) (c ∷ s) h = ground (arith, all-drop n s)

take-append-drop : (n : ℕ) (s : Text) → take n s ++ drop n s ≡ s
take-append-drop zero s = refl
take-append-drop (suc n) [] = refl
take-append-drop (suc n) (c ∷ s) = ap (λ t. c ∷ t) (take-append-drop n s)

module _ (c : ℕ) (s : Text) (op : is_operator c ≡ true) (ds : all is_digit s ≡ true)
    (size : length s ≡ 8) where
  operator_digit : is_digit c ≡ true
  unfolding is_digit is_operator
  operator_digit = ground arith

  mobile : is_mobile (b'0' ∷ b'1' ∷ c ∷ s) ≡ true
  unfolding is_mobile
  mobile = rw (op, ds, size) refl

  one : is_digit b'1' ≡ true
  unfolding is_digit
  one = refl

  zero_digit : is_digit b'0' ≡ true
  unfolding is_digit
  zero_digit = refl

  two : is_digit b'2' ≡ true
  unfolding is_digit
  two = refl

  local_digits : all is_digit (b'1' ∷ c ∷ s) ≡ true
  local_digits = rw (one, operator_digit, ds) refl

  home_number : looks_like_mobile (b'0' ∷ b'1' ∷ c ∷ s) ≡ true
  unfolding looks_like_mobile national starts_with
  home_number =
      let plain : bare (b'0' ∷ b'1' ∷ c ∷ s) ≡ b'0' ∷ b'1' ∷ c ∷ s =
        bare_digits (b'0' ∷ b'1' ∷ c ∷ s) (rw (zero_digit, local_digits) refl) in
      rw plain mobile

  abroad_number : looks_like_mobile (b'2' ∷ b'0' ∷ b'1' ∷ c ∷ s) ≡ true
  unfolding looks_like_mobile national starts_with
  abroad_number =
      let plain : bare (b'2' ∷ b'0' ∷ b'1' ∷ c ∷ s) ≡ b'2' ∷ b'0' ∷ b'1' ∷ c ∷ s =
        bare_digits (b'2' ∷ b'0' ∷ b'1' ∷ c ∷ s) (rw (two, zero_digit, local_digits) refl) in
      rw (plain, size) mobile

  plus_number : looks_like_mobile (codes "+20" ++ b'1' ∷ c ∷ s) ≡ true
  unfolding looks_like_mobile
  plus_number =
      ap (λ t. is_mobile (national t)) (bare-plus (b'2' ∷ b'0' ∷ b'1' ∷ c ∷ s)) ∙ abroad_number

  trunk_number : looks_like_mobile (codes "0020" ++ b'1' ∷ c ∷ s) ≡ true
  unfolding looks_like_mobile national starts_with
  trunk_number =
      let plain : bare (codes "0020" ++ b'1' ∷ c ∷ s) ≡ codes "0020" ++ b'1' ∷ c ∷ s =
        bare_digits (codes "0020" ++ b'1' ∷ c ∷ s) (rw (zero_digit, two, local_digits) refl) in
      rw plain mobile

  formatted_number : looks_like_mobile (format_phone (codes "+20" ++ b'1' ∷ c ∷ s)) ≡ true
  unfolding format_phone starts_with looks_like_mobile
  formatted_number =
      let first : bare (take 4 s ++ b' ' ∷ drop 4 s) ≡ s =
        bare-append (take 4 s) (b' ' ∷ drop 4 s) (all-take 4 s ds)
        ∙ (ap (λ t. take 4 s ++ t)
              (bare-space (drop 4 s) ∙ bare_digits (drop 4 s) (all-drop 4 s ds))
            ∙ take-append-drop 4 s) in
      let whole : bare (b'0' ∷ b'1' ∷ c ∷ b' ' ∷ (take 4 s ++ b' ' ∷ drop 4 s))
          ≡ b'0' ∷ b'1' ∷ c ∷ s =
        bare-append (b'0' ∷ b'1' ∷ c ∷ []) (b' ' ∷ (take 4 s ++ b' ' ∷ drop 4 s))
          (rw (zero_digit, one, operator_digit) refl)
        ∙ ap (λ t. b'0' ∷ b'1' ∷ c ∷ t) (bare-space (take 4 s ++ b' ' ∷ drop 4 s) ∙ first) in
      rw (operator_digit, ds, size, whole) (unfold national starts_with in mobile)

  -- A mobile number of an operator digit and eight digits passes looksLikeMobile when it is
  -- written with 01, with +201, with 00201 and as formatPhone shows it.
  pub looks_like_mobile_lem :
      (looks_like_mobile (b'0' ∷ b'1' ∷ c ∷ s) ≡ true)
      × (looks_like_mobile (codes "+20" ++ b'1' ∷ c ∷ s) ≡ true)
      × (looks_like_mobile (codes "0020" ++ b'1' ∷ c ∷ s) ≡ true)
      × (looks_like_mobile (format_phone (codes "+20" ++ b'1' ∷ c ∷ s)) ≡ true)
  looks_like_mobile_lem = (home_number, plus_number, trunk_number, formatted_number)
