-- ===== src/AdminTypes.antt =====
-- web/src/lib/admin/types.ts: the shapes that the admin API answers with. `null` is `none`; a shape
-- that extends another has it as `base`.
pub mod Bookings
pub mod Timelines
use sahel.Common.{ℕ, Bool, Option, List}
use sahel.Common.Int.{ℤ}
use sahel.Js.Text.{Text}

-- A column of the kind Numeric(9,6), as a number of millionths.
abbrev pub Decimal : Type 0
Decimal = ℤ

pub record Area : Type 0 where
  pub id : Text
  pub slug : Text
  pub name_ar : Text
  pub name_en : Text
  pub region : Text
  pub km_marker : Option Decimal
  pub sort_order : ℤ
  pub created_at : Text
  pub updated_at : Text

pub record Compound : Type 0 where
  pub id : Text
  pub area_id : Text
  pub slug : Text
  pub name_ar : Text
  pub name_en : Text
  pub description_ar : Text
  pub description_en : Text
  pub amenities : List Text
  pub beach_type : Text
  pub gate_info_ar : Option Text
  pub gate_info_en : Option Text
  pub lat : Option Decimal
  pub lng : Option Decimal
  pub cover_image_url : Option Text
  pub is_featured : Bool
  pub created_at : Text
  pub updated_at : Text

pub record CompoundRow : Type 0 where
  pub base : Compound
  pub area_name_ar : Text
  pub area_name_en : Text

pub record Owner : Type 0 where
  pub id : Text
  pub name : Text
  pub phone : Text
  pub email : Option Text
  pub national_id : Option Text
  pub notes : Option Text
  pub commission_pct : ℕ
  pub created_at : Text
  pub updated_at : Text

pub record UnitRecord : Type 0 where
  pub id : Text
  pub owner_id : Text
  pub compound_id : Text
  pub slug : Text
  pub title_ar : Text
  pub title_en : Text
  pub description_ar : Text
  pub description_en : Text
  pub house_rules_ar : Option Text
  pub house_rules_en : Option Text
  pub kind : Text
  pub bedrooms : ℕ
  pub bathrooms : ℕ
  pub base_guests : ℕ
  pub max_guests : ℕ
  pub area_sqm : Option ℕ
  pub floor : Option ℤ
  pub sea_distance_m : ℕ
  pub view : Text
  pub row_number : Option ℤ
  pub amenities : List Text
  pub lat : Option Decimal
  pub lng : Option Decimal
  pub exact_address : Option Text
  pub status : Text
  pub created_at : Text
  pub updated_at : Text
  pub nightly_price : Option ℕ
  pub buffer_days : ℕ
  pub advance_notice_hours : ℕ
  pub max_advance_days : ℕ

pub record UnitImage : Type 0 where
  pub id : Text
  pub unit_id : Text
  pub url : Text
  pub alt_ar : Option Text
  pub alt_en : Option Text
  pub sort : ℕ
  pub is_cover : Bool
  pub created_at : Text
  pub updated_at : Text

pub record UnitDetail : Type 0 where
  pub base : UnitRecord
  pub images : List UnitImage

pub record UnitRow : Type 0 where
  pub id : Text
  pub compound_id : Text
  pub slug : Text
  pub title_ar : Text
  pub title_en : Text
  pub kind : Text
  pub status : Text
  pub bedrooms : ℕ
  pub max_guests : ℕ
  pub sea_distance_m : ℕ
  pub updated_at : Text
  pub nightly_price : Option ℕ
  pub compound_name_ar : Text
  pub compound_name_en : Text
  pub owner_name : Text
  pub cover_url : Option Text

pub record Enums : Type 0 where
  pub region : List Text
  pub beach_type : List Text
  pub kind : List Text
  pub view : List Text
  pub unit_status : List Text
