-- ===== src/Money/Parsing.antt =====
-- What is printed is parsed back, in Latin and in Arabic digits.
use sahel.Common.{
  ℕ, ◌+◌, ◌-◌, ◌*◌, ◌/◌, ◌%◌, ◌<◌, ◌≡◌, refl, ◌≢◌, ap, inl, inr, Bool, true, false, ◌||◌, some, [],
  ◌∷◌, ◌++◌, map, ◌==◌, if◌then◌else◌, arith, Bool-cases,
}
use mathlib.Core.List.{append-nil}
use sahel.Common.{◌⊎◌, ◌∙◌}
use sahel.Common.Lists.{All, all, all-append}
use sahel.Js.Text.{Text, is_empty}
use sahel.Js.Text.Trim.{is_space}
use sahel.Js.Digits.{
  is_digit, number_from, numeral, pad2, number-numeral, numeral-is_digit, numeral-ne-nil,
}
use sahel.Money.{
  to_latin, to_dot, is_grouping, clean, span_digits, fraction, to_piasters, pounds, pounds_text,
}

-- Digits and dots are typed as they are printed.
abbrev is_plain : ℕ → Bool
is_plain c = is_digit c || (c == b'.')

clean_char : (c : ℕ) → is_plain c ≡ true → (to_dot (to_latin c) ≡ c) × (is_grouping c ≡ false)
unfolding is_digit to_latin to_dot is_grouping is_space
clean_char c h = ground arith

clean_fixed : (s : Text) → all is_plain s ≡ true → clean s ≡ s
unfolding clean
clean_fixed [] h = refl
clean_fixed (c ∷ s) h =
    let (kept, plain) = clean_char c (ground arith) in
    let rest : clean s ≡ s = clean_fixed s (ground arith) in rw (kept, plain) (ap (λ t. c ∷ t) rest)

all_plain : (s : Text) → all is_digit s ≡ true → all is_plain s ≡ true
all_plain [] h = refl
all_plain (c ∷ s) h = ground (arith, all_plain s)

-- A whole number and what follows it, up to the first code unit that is no digit.
span_digits-append :
    (digits rest : Text)
    → all is_digit digits ≡ true
    → span_digits rest ≡ ([], rest)
    → span_digits (digits ++ rest) ≡ (digits, rest)
unfolding span_digits
span_digits-append [] rest h k = k
span_digits-append (c ∷ digits) rest h k =
    let here : is_digit c ≡ true = ground arith in
    rw (here, span_digits-append digits rest (ground arith) k)

full_numeral : (n : ℕ) → is_empty (numeral n) ≡ false
full_numeral n = full (numeral n) (numeral-ne-nil n)
  where
    full : (s : Text) → s ≢ [] → is_empty s ≡ false
    full s h = unfold is_empty in ground arith

-- A number of pounds with a fraction of two digits.
whole_and_fraction :
    (n f : ℕ) (rest : Text)
    → all is_plain rest ≡ true
    → span_digits rest ≡ ([], rest)
    → fraction rest ≡ some f
    → to_piasters (numeral n ++ rest) ≡ some (n * 100 + f)
unfolding to_piasters
whole_and_fraction n f rest plain stop read =
    let typed : all is_plain (numeral n ++ rest) ≡ true =
      rw (all-append is_plain (numeral n) rest, all_plain (numeral n) (numeral-is_digit n)) plain in
    rw (
      clean_fixed (numeral n ++ rest) typed,
      span_digits-append (numeral n) rest (numeral-is_digit n) stop,
      full_numeral n,
      number-numeral n,
      read,
    )

digit_lem : (x : ℕ) → x < 10 → is_digit (b'0' + x) ≡ true
unfolding is_digit
digit_lem x h = ground arith

two_decimals : (n f : ℕ) → f < 100 → to_piasters (numeral n ++ b'.' ∷ pad2 f) ≡ some (n * 100 + f)
unfolding pad2 fraction span_digits is_digit
two_decimals n f h =
    let tens = digit_lem (f / 10) (omega arith) in
    let ones = digit_lem (f % 10) (omega arith) in
    whole_and_fraction n f (b'.' ∷ pad2 f) (rw (tens, ones)) refl
      (rw (tens, ones) (ap some (unfold number_from in omega arith)))

one_decimal :
    (n t : ℕ) → t < 10 → to_piasters (numeral n ++ b'.' ∷ (b'0' + t) ∷ []) ≡ some (n * 100 + t * 10)
unfolding fraction span_digits is_digit
one_decimal n t h =
    let tens = digit_lem t h in
    whole_and_fraction n (t * 10) (b'.' ∷ (b'0' + t) ∷ []) (rw tens) refl
      (rw tens (ap some (unfold number_from in omega arith)))

no_decimals : (n : ℕ) → to_piasters (numeral n) ≡ some (n * 100)
unfolding fraction span_digits
no_decimals n =
    let e : n * 100 + 0 ≡ n * 100 = omega arith in
    rw (e, append-nil (numeral n)) at (whole_and_fraction n 0 [] refl refl refl)

-- The two decimals that pounds prints for an amount, and the number of pounds that the booking
-- form fills in for it, are parsed by toPiasters to the same amount in piasters.
pub to_piasters-pounds :
    (n : ℕ) → (to_piasters (pounds n) ≡ some n) × (to_piasters (pounds_text n) ≡ some n)
unfolding pounds_text pounds
to_piasters-pounds n =
    let whole : n / 100 * 100 + n % 100 ≡ n = omega arith in
    let always : to_piasters (numeral (n / 100) ++ b'.' ∷ pad2 (n % 100)) ≡ some n =
      two_decimals (n / 100) (n % 100) (omega arith) ∙ ap some whole in
    (
      always,
      elim (Bool-cases (n % 100 == 0)) [
        | inl none_left ↦
            let e : n / 100 * 100 ≡ n = ground arith in
            rw none_left (no_decimals (n / 100) ∙ ap some e)
        | inr some_left ↦ elim (Bool-cases (n % 10 == 0)) [
          | inl one ↦
              let e : n / 100 * 100 + n / 10 % 10 * 10 ≡ n = ground arith in
              rw (some_left, one) (one_decimal (n / 100) (n / 10 % 10) (omega arith) ∙ ap some e)
          | inr two ↦ rw (some_left, two) always
        ]
      ],
    )

-- Typing Arabic digits and separators for the Latin ones.
abbrev pub to_arabic : ℕ → ℕ
to_arabic c =
    if is_digit c
    then c - b'0' + 0x0660
    else if c == b'.'
    then 0x066b
    else if c == b','
    then 0x066c
    else c

arabic_char :
    (c : ℕ)
    → c < 128
    → (is_grouping (to_dot (to_latin (to_arabic c))) ≡ is_grouping (to_dot (to_latin c)))
      × ((is_grouping (to_dot (to_latin c)) ≡ true)
          ⊎ (to_dot (to_latin (to_arabic c)) ≡ to_dot (to_latin c)))
unfolding is_digit to_latin to_dot is_grouping is_space
arabic_char c h = ground arith

clean-map-to_arabic : (s : Text) → All (λ c. c < 128) s → clean (map to_arabic s) ≡ clean s
unfolding clean
clean-map-to_arabic [] h = refl
clean-map-to_arabic (c ∷ s) (small, h) =
    let rest : clean (map to_arabic s) ≡ clean s = clean-map-to_arabic s h in
    let (group, same_char) = arabic_char c small in
    elim same_char [
      | inl grouping ↦ rw (group, grouping) rest
      | inr equal ↦ rw (group, equal) (ground (arith, rest))
    ]

-- A text of ASCII characters that is typed with Arabic-Indic digits and Arabic separators in place
-- of the Latin ones is parsed to the same amount, or to none where the Latin text is.
pub to_piasters-map-to_arabic :
    (s : Text) → All (λ c. c < 128) s → to_piasters (map to_arabic s) ≡ to_piasters s
unfolding to_piasters
to_piasters-map-to_arabic s h = rw (clean-map-to_arabic s h)
