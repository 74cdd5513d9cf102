-- ===== src/Entities/Areas.antt =====
-- web/src/app/[locale]/dashboard/areas/actions.ts.
use sahel.Common.{Option, some}
use sahel.Js.Text.{Text, codes}
use sahel.AdminTypes.{Area}
use sahel.Api.{Result, Method, or_else}
use sahel.FormFields.{FormData, text, optional, int, nullable_number}
use sahel.Labels.{pick}
use sahel.Paths.{Locale, locale_text}
use sahel.Entities.{Platform, Ended, create_record, update_record, delete_record}

pub record AreaPayload (N : Type 0) : Type 0 where
  pub slug : Option Text
  pub name_ar : Text
  pub name_en : Text
  pub region : Text
  pub km_marker : Option N
  pub sort_order : N

-- `zero` is the number 0.
module _ {N : Type 0} (to_number : Text → N) (zero : N) where
  unfoldable pub area_payload : FormData → AreaPayload N
  area_payload fd = record {
    slug = optional fd (codes "slug");
    name_ar = text fd (codes "name_ar");
    name_en = text fd (codes "name_en");
    region = text fd (codes "region");
    km_marker = nullable_number to_number fd (codes "km_marker");
    sort_order = or_else (int to_number fd (codes "sort_order")) zero;
  }

  module _ (p : Platform) (send : Method → Text → Option (AreaPayload N) → Result Area) where
    abbrev pub name_of : Locale → Area → Text
    name_of = λ l x. pick (locale_text l) (some x.name_ar) (some x.name_en)

    unfoldable pub create_area : Text → FormData → Ended
    create_area locale fd =
        create_record p send (codes "/areas") locale (area_payload fd) (λ x. x.id) name_of

    unfoldable pub update_area : Text → Text → FormData → Ended
    update_area id locale fd =
        update_record p send (codes "/areas") id locale (area_payload fd) (λ x. x.id) name_of

    unfoldable pub delete_area : Text → Text → Text → Text → Ended
    delete_area id locale name back = delete_record p send (codes "/areas") id locale name back
