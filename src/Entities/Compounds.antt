-- ===== src/Entities/Compounds.antt =====
-- web/src/app/[locale]/dashboard/compounds/actions.ts.
use sahel.Common.{Bool, Option, some, List}
use sahel.Js.Text.{Text, codes}
use sahel.AdminTypes.{Compound}
use sahel.Api.{Result, Method}
use sahel.FormFields.{FormData, text, optional, ref, nullable_number, checkbox, list}
use sahel.Labels.{pick}
use sahel.Paths.{Locale, locale_text}
use sahel.Entities.{Platform, Ended, create_record, update_record, delete_record}

pub record CompoundPayload (N : Type 0) : Type 0 where
  pub area_id : Option Text
  pub slug : Option Text
  pub name_ar : Text
  pub name_en : Text
  pub description_ar : Text
  pub description_en : Text
  pub amenities : List Text
  pub beach_type : Text
  pub gate_info_ar : Text
  pub gate_info_en : Text
  pub lat : Option N
  pub lng : Option N
  pub cover_image_url : Text
  pub is_featured : Bool

-- `zero` is the number 0.
module _ {N : Type 0} (to_number : Text → N) (zero : N) where
  unfoldable pub compound_payload : FormData → CompoundPayload N
  compound_payload fd = record {
    area_id = ref fd (codes "area_id");
    slug = optional fd (codes "slug");
    name_ar = text fd (codes "name_ar");
    name_en = text fd (codes "name_en");
    description_ar = text fd (codes "description_ar");
    description_en = text fd (codes "description_en");
    amenities = list fd (codes "amenities");
    beach_type = text fd (codes "beach_type");
    gate_info_ar = text fd (codes "gate_info_ar");
    gate_info_en = text fd (codes "gate_info_en");
    lat = nullable_number to_number fd (codes "lat");
    lng = nullable_number to_number fd (codes "lng");
    cover_image_url = text fd (codes "cover_image_url");
    is_featured = checkbox fd (codes "is_featured");
  }

  module _ (p : Platform)
      (send : Method → Text → Option (CompoundPayload N) → Result Compound) where
    abbrev pub name_of : Locale → Compound → Text
    name_of = λ l x. pick (locale_text l) (some x.name_ar) (some x.name_en)

    unfoldable pub create_compound : Text → FormData → Ended
    create_compound locale fd =
        create_record p send (codes "/compounds") locale (compound_payload fd) (λ x. x.id) name_of

    unfoldable pub update_compound : Text → Text → FormData → Ended
    update_compound id locale fd =
        update_record p send (codes "/compounds") id locale (compound_payload fd) (λ x. x.id)
          name_of

    unfoldable pub delete_compound : Text → Text → Text → Text → Ended
    delete_compound id locale name back =
        delete_record p send (codes "/compounds") id locale name back
