-- ===== src/BookingsExport/Tests.antt =====
-- The export of one booking.
use sahel.Common.{◌≡◌, refl, some, none, Option, [], ◌∷◌, map, if◌then◌else◌}
use sahel.Common.Lists.{All}
use sahel.Js.Text.{Text, codes, is_empty, same}
use sahel.AdminTypes.Bookings.{BookingRow}
use sahel.Csv.Reader.{read_file, shown}
use sahel.BookingsExport.{export_query, head_row, export_csv}
use sahel.BookingsExport.Reading.{IsPlainRow, read_rows, read_file-export_csv}

abbrev booking : BookingRow
booking = record {
  id = codes "b1";
  ref = codes "BES-12345";
  check_in = codes "2027-06-01T00:00:00Z";
  check_out = codes "2027-06-04T00:00:00Z";
  nights = 3;
  guests = 2;
  status = codes "confirmed";
  total = 900050;
  created_at = codes "2027-05-01T09:00:00Z";
  unit_id = codes "u1";
  unit_title_ar = [];
  unit_title_en = codes "Villa, by the sea";
  compound_name_ar = [];
  compound_name_en = codes "Ras";
  deposit_due = 100000;
  paid_total = 0;
  source = codes "web";
  customer_name = codes "=Mona";
  customer_phone = codes "+201012345678";
}

abbrev plain : Text → Text
plain s = s

abbrev asked : Text → Option Text
asked k =
    if same k (codes "q")
    then some (codes "Mona")
    else if same k (codes "page")
    then some (codes "2")
    else none

runs : export_query asked ≡ (codes "all", codes "1") ∷ (codes "q", codes "Mona") ∷ []
unfolding same is_empty export_query
runs = refl

read_file-export_csv_example :
    (read_file (export_csv plain plain plain (codes "en") (booking ∷ []))
      ≡ some (
          map shown (head_row plain plain plain (codes "en"))
          ∷ read_rows plain plain plain (codes "en") (booking ∷ [])))
    × All (IsPlainRow plain plain plain (codes "en")) (
        map shown (head_row plain plain plain (codes "en"))
        ∷ read_rows plain plain plain (codes "en") (booking ∷ []))
read_file-export_csv_example = read_file-export_csv plain plain plain (codes "en") (booking ∷ [])
