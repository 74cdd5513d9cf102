-- ===== src/Entities/Units.antt =====
-- web/src/app/[locale]/dashboard/units/actions.ts.
use sahel.Common.{ℕ, Option, some, List}
use sahel.Js.Text.{Text, codes}
use sahel.AdminTypes.{UnitRecord}
use sahel.Api.{Result, Method}
use sahel.FormFields.{FormData, text, optional, ref, int, nullable_number, list, nullable_piasters}
use sahel.Labels.{pick}
use sahel.Paths.{Locale, locale_text}
use sahel.Entities.{Platform, Ended, create_record, update_record, delete_record}

pub record UnitPayload (N : Type 0) : Type 0 where
  pub owner_id : Option Text
  pub compound_id : Option Text
  pub slug : Option Text
  pub title_ar : Text
  pub title_en : Text
  pub description_ar : Text
  pub description_en : Text
  pub house_rules_ar : Text
  pub house_rules_en : Text
  pub kind : Text
  pub view : Text
  pub status : Text
  pub bedrooms : Option N
  pub bathrooms : Option N
  pub base_guests : Option N
  pub max_guests : Option N
  pub sea_distance_m : Option N
  pub area_sqm : Option N
  pub floor : Option N
  pub row_number : Option N
  pub amenities : List Text
  pub lat : Option N
  pub lng : Option N
  pub exact_address : Text
  pub nightly_price : Option ℕ
  pub buffer_days : Option N
  pub advance_notice_hours : Option N
  pub max_advance_days : Option N

-- `zero` is the number 0.
module _ {N : Type 0} (to_number : Text → N) (zero : N) where
  unfoldable pub unit_payload : FormData → UnitPayload N
  unit_payload fd = record {
    owner_id = ref fd (codes "owner_id");
    compound_id = ref fd (codes "compound_id");
    slug = optional fd (codes "slug");
    title_ar = text fd (codes "title_ar");
    title_en = text fd (codes "title_en");
    description_ar = text fd (codes "description_ar");
    description_en = text fd (codes "description_en");
    house_rules_ar = text fd (codes "house_rules_ar");
    house_rules_en = text fd (codes "house_rules_en");
    kind = text fd (codes "type");
    view = text fd (codes "view");
    status = text fd (codes "status");
    bedrooms = int to_number fd (codes "bedrooms");
    bathrooms = int to_number fd (codes "bathrooms");
    base_guests = int to_number fd (codes "base_guests");
    max_guests = int to_number fd (codes "max_guests");
    sea_distance_m = int to_number fd (codes "sea_distance_m");
    area_sqm = nullable_number to_number fd (codes "area_sqm");
    floor = nullable_number to_number fd (codes "floor");
    row_number = nullable_number to_number fd (codes "row_number");
    amenities = list fd (codes "amenities");
    lat = nullable_number to_number fd (codes "lat");
    lng = nullable_number to_number fd (codes "lng");
    exact_address = text fd (codes "exact_address");
    nightly_price = nullable_piasters fd (codes "nightly_price");
    buffer_days = int to_number fd (codes "buffer_days");
    advance_notice_hours = int to_number fd (codes "advance_notice_hours");
    max_advance_days = int to_number fd (codes "max_advance_days");
  }

  module _ (p : Platform) (send : Method → Text → Option (UnitPayload N) → Result UnitRecord) where
    abbrev pub name_of : Locale → UnitRecord → Text
    name_of = λ l x. pick (locale_text l) (some x.title_ar) (some x.title_en)

    unfoldable pub create_unit : Text → FormData → Ended
    create_unit locale fd =
        create_record p send (codes "/units") locale (unit_payload fd) (λ x. x.id) name_of

    unfoldable pub update_unit : Text → Text → FormData → Ended
    update_unit id locale fd =
        update_record p send (codes "/units") id locale (unit_payload fd) (λ x. x.id) name_of

    unfoldable pub delete_unit : Text → Text → Text → Text → Ended
    delete_unit id locale name back = delete_record p send (codes "/units") id locale name back
