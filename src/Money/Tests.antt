-- ===== src/Money/Tests.antt =====
-- Runs of the money parser, and its theorems at concrete amounts.
use sahel.Common.{◌≡◌, refl, none, some, [], ◌∷◌}
use sahel.Js.Text.{codes, is_empty}
use sahel.Js.Text.Trim.{is_space}
use sahel.Js.Digits.{is_digit, number_from, numeral, digits, pad2}
use sahel.Money.{
  to_latin, to_dot, is_grouping, clean, span_digits, fraction, to_piasters, pounds, pounds_text,
}

money : Unit {0}
unfolding is_empty is_space is_digit number_from numeral digits pad2 to_latin to_dot is_grouping
    clean span_digits fraction to_piasters pounds pounds_text
money = tt

runs :
    (to_piasters (codes "14,550.5") ≡ some 1455050)
    × (to_piasters (codes "0.1") ≡ some 10)
    × (to_piasters (0x0664 ∷ 0x066c ∷ 0x0665 ∷ 0x0660 ∷ 0x0660 ∷ 0x066b ∷ 0x0665 ∷ [])
        ≡ some 450050)
    × (to_piasters (codes "") ≡ none)
    × (to_piasters (codes "abc") ≡ none)
    × (to_piasters (codes "1.234") ≡ none)
    × (pounds 150000 ≡ codes "1500.00")
    × (pounds 12345 ≡ codes "123.45")
    × (pounds_text 12340 ≡ codes "123.4")
unfolding money
runs = (refl, refl, refl, refl, refl, refl, refl, refl, refl)
