-- ===== src/Csv/Tests.antt =====
-- A spreadsheet of the dashboard, and the theorems at it.
use sahel.Common.{◌≡◌, refl, some, List, [], ◌∷◌, map}
use sahel.Js.Text.{codes}
use sahel.Js.Digits.{numeral, digits}
use sahel.Csv.{Cell, number, text, is_formula, double_quotes, cell, join, to_csv}
use sahel.Csv.Reader.{next, read, read_file, shown}
use sahel.Csv.Reading.{read_file-to_csv}

csv : Unit {0}
unfolding numeral digits is_formula double_quotes cell join to_csv next read read_file
csv = tt

abbrev first_row : List Cell
first_row = text (codes "name") ∷ text (codes "nights") ∷ []

abbrev guests : List (List Cell)
guests = (text (codes "=1+1, a \"b\"") ∷ number 12 ∷ []) ∷ []

runs :
    (to_csv ((text (codes "-x") ∷ number 3 ∷ []) ∷ []) ≡ 0xfeff ∷ codes "'-x,3\r\n")
    × (read_file (to_csv (first_row ∷ guests))
        ≡ some (
            (codes "name" ∷ codes "nights" ∷ []) ∷ (codes "'=1+1, a \"b\"" ∷ codes "12" ∷ []) ∷ []))
unfolding csv
runs = (refl, refl)

read_file-to_csv_example :
    read_file (to_csv (first_row ∷ guests)) ≡ some (map (map shown) (first_row ∷ guests))
read_file-to_csv_example = read_file-to_csv first_row guests (λ e. cc, (λ e. cc, tt))
