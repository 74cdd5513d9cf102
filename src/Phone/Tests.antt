-- ===== src/Phone/Tests.antt =====
-- Spellings of a mobile number, and the theorem at one number.
use sahel.Common.{◌≡◌, refl, true, false}
use sahel.Js.Text.{codes, starts_with}
use sahel.Js.Text.Trim.{is_space}
use sahel.Js.Digits.{is_digit}
use sahel.Money.{to_latin}
use sahel.Phone.{
  is_decoration, bare, national, is_operator, is_mobile, looks_like_mobile, format_phone,
}

phone : Unit {0}
unfolding starts_with is_space is_digit to_latin is_decoration bare national is_operator is_mobile
    looks_like_mobile format_phone
phone = tt

runs :
    (format_phone (codes "+201012345678") ≡ codes "010 1234 5678")
    × (looks_like_mobile (codes "010-1234 5678") ≡ true)
    × (looks_like_mobile (codes "0131234567") ≡ false)
    × (format_phone (codes "+331012345678") ≡ codes "+331012345678")
unfolding phone
runs = (refl, refl, refl, refl)
