-- ===== src/BookingsExport/Reading.antt =====
-- What a spreadsheet reads of the bookings' export.
use sahel.Common.{◌≡◌, refl, false, some, List, [], ◌∷◌, map}
use sahel.Common.Lists.{All, length}
use sahel.Js.Text.{Text}
use sahel.AdminTypes.Bookings.{BookingRow}
use sahel.Csv.{Cell, is_formula}
use sahel.Csv.Reader.{read_file, shown}
use sahel.Csv.Reading.{HasCells, read_file-to_csv, is_formula-shown}
use sahel.BookingsExport.{head_row, booking_cells, export_csv}

module _ (head status_text booked_at : Text → Text) (locale : Text) where
  -- A row of fourteen cells that are no formulas.
  abbrev pub IsPlainRow : List Text → Type 0
  IsPlainRow row = (length row ≡ 14) × All (λ s. is_formula s ≡ false) row

  abbrev pub read_rows : List BookingRow → List (List Text)
  read_rows rows = map (map shown) (map (booking_cells head status_text booked_at locale) rows)

  plain_cells : (cells : List Cell) → All (λ s. is_formula s ≡ false) (map shown cells)
  plain_cells [] = tt
  plain_cells (c ∷ cells) = (is_formula-shown c, plain_cells cells)

  plain_rows : (rows : List BookingRow) → All IsPlainRow (read_rows rows)
  unfolding booking_cells
  plain_rows [] = tt
  plain_rows (b ∷ rows) =
      ((refl, plain_cells (booking_cells head status_text booked_at locale b)), plain_rows rows)

  have_cells :
      (rows : List BookingRow)
      → All HasCells (map (booking_cells head status_text booked_at locale) rows)
  unfolding booking_cells
  have_cells [] = tt
  have_cells (b ∷ rows) = ((λ e. cc), have_cells rows)

  -- An RFC 4180 reader reads the export of any bookings as its head and a row for each booking, in
  -- order; every row has fourteen cells and none of them is a formula.
  pub read_file-export_csv :
      (rows : List BookingRow)
      → (read_file (export_csv head status_text booked_at locale rows)
          ≡ some (map shown (head_row head status_text booked_at locale) ∷ read_rows rows))
        × All IsPlainRow (map shown (head_row head status_text booked_at locale) ∷ read_rows rows)
  unfolding export_csv head_row
  read_file-export_csv rows = (
    read_file-to_csv _ _ ((λ e. cc), have_cells rows),
    ((refl, plain_cells (head_row head status_text booked_at locale)), plain_rows rows),
  )
