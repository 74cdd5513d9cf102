-- ===== src/Csv.antt =====
-- web/src/lib/admin/csv.ts: the spreadsheet of the dashboard's bookings. The numbers that it is
-- given are naturals.
pub mod Reader
pub mod Reading
mod Tests
use sahel.Common.{
  ℕ, Bool, true, false, not, ◌&&◌, ◌||◌, Option, none, some, List, [], ◌∷◌, ◌++◌, map, ◌==◌,
  if◌then◌else◌,
}
use sahel.Common.Lists.{any}
use sahel.Js.Text.{Text}
use sahel.Js.Digits.{numeral}

pub data Cell : Type 0 where
  number : (n : ℕ) → Cell
  text : (s : Text) → Cell

-- /[=+\-@\t\r]/ on the first code unit
unfoldable pub is_formula : Text → Bool
is_formula [] = false
is_formula (c ∷ s) =
    (c == b'=') || (c == b'+') || (c == b'-') || (c == b'@') || (c == 9) || (c == 13)

-- /[",\r\n]/
abbrev pub is_special : ℕ → Bool
is_special c = (c == b'"') || (c == b',') || (c == 13) || (c == 10)

-- s.replaceAll('"', '""')
unfoldable pub double_quotes : Text → Text
double_quotes [] = []
double_quotes (c ∷ s) =
    let rest = double_quotes s in if c == b'"' then b'"' ∷ b'"' ∷ rest else c ∷ rest

abbrev pub defuse : Text → Text
defuse s = if is_formula s then b'\'' ∷ s else s

abbrev pub enclose : Text → Text
enclose s = if any is_special s then b'"' ∷ double_quotes s ++ b'"' ∷ [] else s

unfoldable pub cell : Cell → Text
cell (number n) = numeral n
cell (text s) = enclose (defuse s)

-- xs.join(sep)
unfoldable pub join : Text → List Text → Text
join sep [] = []
join sep (x ∷ []) = x
join sep (x ∷ y ∷ xs) = x ++ (sep ++ join sep (y ∷ xs))

abbrev pub line_break : Text
line_break = 13 ∷ 10 ∷ []

abbrev pub row_text : List Cell → Text
row_text row = join (b',' ∷ []) (map cell row)

abbrev pub byte_order_mark : ℕ
byte_order_mark = 0xfeff

unfoldable pub to_csv : List (List Cell) → Text
to_csv rows = byte_order_mark ∷ join line_break (map row_text rows) ++ line_break
