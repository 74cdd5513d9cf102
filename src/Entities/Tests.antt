-- ===== src/Entities/Tests.antt =====
-- The deletion of one area, with a query that names another site.
use sahel.Common.{refl, Option}
use sahel.Js.Text.{Text, codes, same}
use sahel.Api.{Method, Result, returned, is_uuid}
use sahel.Paths.{locale_text, safe_locale, dashboard_href}
use sahel.Results.Plain.{print, parse}
use sahel.Entities.{Platform, delete_record}
use sahel.Entities.Laws.{EndsOn, delete_record-EndsOn}

abbrev platform : Platform
platform = record { print = print; parse = parse; stringify = λ s. s }

abbrev id : Text
id = codes "123e4567-e89b-12d3-a456-426614174000"

-- The API deletes the record.
abbrev send : Method → Text → Option (Unit {0}) → Result (Unit {0})
send m path body = returned tt

delete_record-EndsOn_example :
    EndsOn (dashboard_href (locale_text (safe_locale (codes "en"))) (codes "/areas")) (is_uuid id) (
      delete_record platform send
        (codes "/areas")
        id
        (codes "en")
        (codes "Ras")
        (codes "//evil.example"))
unfolding dashboard_href safe_locale same
delete_record-EndsOn_example =
    delete_record-EndsOn platform send (codes "/areas") id (codes "en") (codes "Ras")
      (codes "//evil.example") refl
