-- ===== src/Phone.antt =====
-- web/src/lib/public/phone.ts: Egyptian mobile numbers as guests type and read them.
pub mod Laws
mod Tests
use sahel.Common.{ℕ, Bool, true, false, not, ◌&&◌, ◌||◌, [], ◌∷◌, ◌++◌, map, ◌==◌, if◌then◌else◌}
use sahel.Common.Lists.{all, keep, length, take, drop}
use sahel.Js.Text.{Text, codes, starts_with}
use sahel.Js.Text.Trim.{is_space}
use sahel.Js.Digits.{is_digit}
use sahel.Money.{to_latin}

-- [\s\-().+]
unfoldable pub is_decoration : ℕ → Bool
is_decoration c =
    is_space c || (c == b'-') || (c == b'(') || (c == b')') || (c == b'.') || (c == b'+')

unfoldable pub bare : Text → Text
bare input = keep (λ c. not (is_decoration c)) (map to_latin input)

-- A country code becomes the 0 of a number within the country.
unfoldable pub national : Text → Text
national d =
    if starts_with d (codes "0020")
    then b'0' ∷ drop 4 d
    else if starts_with d (codes "20") && (length d == 12)
    then b'0' ∷ drop 2 d
    else d

-- [0125], the operators of mobile networks
unfoldable pub is_operator : ℕ → Bool
is_operator c = (c == b'0') || (c == b'1') || (c == b'2') || (c == b'5')

-- /^01[0125]\d{8}$/
unfoldable pub is_mobile : Text → Bool
is_mobile (z ∷ o ∷ c ∷ s) =
    (z == b'0') && (o == b'1') && is_operator c && all is_digit s && (length s == 8)
is_mobile (z ∷ o ∷ []) = false
is_mobile (z ∷ []) = false
is_mobile [] = false

unfoldable pub looks_like_mobile : Text → Bool
looks_like_mobile input = is_mobile (national (bare input))

-- The parts of +20 1x xxxx xxxx, and anything else as it is.
abbrev pub spaced : Text → Text → Text
spaced e164 [] = e164
spaced e164 (o ∷ []) = e164
spaced e164 (o ∷ c ∷ s) =
    if (o == b'1') && is_digit c && all is_digit s && (length s == 8)
    then b'0' ∷ o ∷ c ∷ b' ' ∷ (take 4 s ++ b' ' ∷ drop 4 s)
    else e164

unfoldable pub format_phone : Text → Text
format_phone e164 = if starts_with e164 (codes "+20") then spaced e164 (drop 3 e164) else e164
