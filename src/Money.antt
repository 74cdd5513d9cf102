-- ===== src/Money.antt =====
-- Money in integer piasters: `toPiasters` of web/src/lib/public/calendar.ts, which parses what an
-- admin types in pounds; `pounds` of web/src/lib/admin/csv.ts; and `String(piasters / 100)`, with
-- which web/src/app/[locale]/dashboard/bookings/new/manual-booking-form.tsx fills in a price. The
-- numbers stay below 2 ^ 53, where a quotient by 100 prints with at most two decimals.
pub mod Parsing
mod Tests
use sahel.Common.{
  ℕ, ◌+◌, ◌-◌, ◌*◌, ◌/◌, ◌%◌, Bool, true, false, not, ◌&&◌, ◌||◌, Option, none, some, [], ◌∷◌, ◌++◌,
  map, leb, ◌==◌, if◌then◌else◌,
}
use sahel.Common.Lists.{keep}
use sahel.Js.Text.{Text, is_empty}
use sahel.Js.Text.Trim.{is_space}
use sahel.Js.Digits.{is_digit, number, numeral, pad2}

-- The Arabic-Indic and then the Eastern Arabic digits, each to the Latin digit.
unfoldable pub to_latin : ℕ → ℕ
to_latin c =
    if leb 0x0660 c && leb c 0x0669
    then c - 0x0660 + b'0'
    else if leb 0x06f0 c && leb c 0x06f9
    then c - 0x06f0 + b'0'
    else c

-- The Arabic decimal separator to a dot.
unfoldable pub to_dot : ℕ → ℕ
to_dot c = if c == 0x066b then b'.' else c

-- The comma, the Arabic thousands separator and white space are taken out.
unfoldable pub is_grouping : ℕ → Bool
is_grouping c = (c == b',') || (c == 0x066c) || is_space c

unfoldable pub clean : Text → Text
clean s = keep (λ c. not (is_grouping c)) (map (λ c. to_dot (to_latin c)) s)

-- The leading digits, and what follows them.
unfoldable pub span_digits : Text → Text × Text
span_digits [] = ([], [])
span_digits (c ∷ s) =
    let more = span_digits s in if is_digit c then (c ∷ more.0, more.1) else ([], c ∷ s)

-- What may follow the whole pounds: nothing, or a dot and one or two digits. The answer is the
-- piasters, from the fraction padded to two digits.
unfoldable pub fraction : Text → Option ℕ
fraction [] = some 0
fraction (p ∷ []) = none
fraction (p ∷ a ∷ []) = if (p == b'.') && is_digit a then some (number (a ∷ b'0' ∷ [])) else none
fraction (p ∷ a ∷ b ∷ []) =
    if (p == b'.') && (is_digit a && is_digit b) then some (number (a ∷ b ∷ [])) else none
fraction (p ∷ a ∷ b ∷ c ∷ s) = none

abbrev pub add_piasters : ℕ → Option ℕ → Option ℕ
add_piasters whole none = none
add_piasters whole (some f) = some (whole * 100 + f)

abbrev pub amount : Text × Text → Option ℕ
amount (whole, rest) = if is_empty whole then none else add_piasters (number whole) (fraction rest)

unfoldable pub to_piasters : Text → Option ℕ
to_piasters pounds = amount (span_digits (clean pounds))

-- (piasters / 100).toFixed(2)
unfoldable pub pounds : ℕ → Text
pounds piasters = numeral (piasters / 100) ++ b'.' ∷ pad2 (piasters % 100)

-- String(piasters / 100)
unfoldable pub pounds_text : ℕ → Text
pounds_text piasters =
    if piasters % 100 == 0
    then numeral (piasters / 100)
    else if piasters % 10 == 0
    then numeral (piasters / 100) ++ b'.' ∷ (b'0' + piasters / 10 % 10) ∷ []
    else pounds piasters
