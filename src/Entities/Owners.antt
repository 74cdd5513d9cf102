-- ===== src/Entities/Owners.antt =====
-- web/src/app/[locale]/dashboard/owners/actions.ts.
use sahel.Common.{Option}
use sahel.Js.Text.{Text, codes}
use sahel.AdminTypes.{Owner}
use sahel.Api.{Result, Method, or_else}
use sahel.FormFields.{FormData, text, int}
use sahel.Paths.{Locale}
use sahel.Entities.{Platform, Ended, create_record, update_record, delete_record}

pub record OwnerPayload (N : Type 0) : Type 0 where
  pub name : Text
  pub phone : Text
  pub email : Text
  pub national_id : Text
  pub notes : Text
  pub commission_pct : N

-- `zero` is the number 0.
module _ {N : Type 0} (to_number : Text → N) (zero : N) where
  unfoldable pub owner_payload : FormData → OwnerPayload N
  owner_payload fd = record {
    name = text fd (codes "name");
    phone = text fd (codes "phone");
    email = text fd (codes "email");
    national_id = text fd (codes "national_id");
    notes = text fd (codes "notes");
    commission_pct = or_else (int to_number fd (codes "commission_pct")) zero;
  }

  module _ (p : Platform) (send : Method → Text → Option (OwnerPayload N) → Result Owner) where
    abbrev pub name_of : Locale → Owner → Text
    name_of = λ l x. x.name

    unfoldable pub create_owner : Text → FormData → Ended
    create_owner locale fd =
        create_record p send (codes "/owners") locale (owner_payload fd) (λ x. x.id) name_of

    unfoldable pub update_owner : Text → Text → FormData → Ended
    update_owner id locale fd =
        update_record p send (codes "/owners") id locale (owner_payload fd) (λ x. x.id) name_of

    unfoldable pub delete_owner : Text → Text → Text → Text → Ended
    delete_owner id locale name back = delete_record p send (codes "/owners") id locale name back
