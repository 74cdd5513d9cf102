-- ===== src/PublicTypes.antt =====
-- web/src/lib/public/types.ts: the shapes that the public API answers with. `null` and a field that
-- may be missing are `none`; a shape that extends another has it as `base`.
use sahel.AdminTypes.{Decimal}
use sahel.AdminTypes.Bookings.{PaymentStatus}
use sahel.Common.{ℕ, Bool, Option, List}
use sahel.Common.Int.{ℤ}
use sahel.Js.Text.{Text}

pub record Page {ℓ} (A : Type ℓ) : Type ℓ where
  pub items : List A
  pub page : ℕ
  pub size : ℕ
  pub total : ℕ

pub record AreaSummary : Type 0 where
  pub id : Text
  pub slug : Text
  pub name_ar : Text
  pub name_en : Text
  pub region : Text
  pub km_marker : Option Decimal
  pub sort_order : ℤ
  pub unit_count : ℕ

pub record CompoundSummary : Type 0 where
  pub id : Text
  pub slug : Text
  pub name_ar : Text
  pub name_en : Text
  pub description_ar : Text
  pub description_en : Text
  pub amenities : Option (List Text)
  pub beach_type : Text
  pub cover_image_url : Option Text
  pub is_featured : Bool
  pub area_slug : Option Text

pub record AreaDetail : Type 0 where
  pub id : Text
  pub slug : Text
  pub name_ar : Text
  pub name_en : Text
  pub region : Text
  pub km_marker : Option Decimal
  pub sort_order : ℤ
  pub featured_compounds : List CompoundSummary

pub record UnitCardData : Type 0 where
  pub id : Text
  pub slug : Text
  pub title_ar : Text
  pub title_en : Text
  pub kind : Text
  pub bedrooms : ℕ
  pub bathrooms : ℕ
  pub max_guests : ℕ
  pub sea_distance_m : ℕ
  pub view : Text
  pub cover_url : Option Text
  pub from_price : Option ℕ
  pub compound_slug : Option Text
  pub compound_name_ar : Option Text
  pub compound_name_en : Option Text
  pub area_slug : Option Text
  pub area_name_ar : Option Text
  pub area_name_en : Option Text

pub record Place : Type 0 where
  pub slug : Text
  pub name_ar : Text
  pub name_en : Text

pub record CompoundDetail : Type 0 where
  pub base : CompoundSummary
  pub gate_info_ar : Option Text
  pub gate_info_en : Option Text
  pub area : Place
  pub units : Page UnitCardData

pub record UnitImage : Type 0 where
  pub id : Text
  pub url : Text
  pub alt_ar : Option Text
  pub alt_en : Option Text
  pub sort : ℕ
  pub is_cover : Bool

pub record NamedPlace : Type 0 where
  pub id : Text
  pub slug : Text
  pub name_ar : Text
  pub name_en : Text

pub record UnitDetail : Type 0 where
  pub id : Text
  pub slug : Text
  pub title_ar : Text
  pub title_en : Text
  pub description_ar : Text
  pub description_en : Text
  pub house_rules_ar : Option Text
  pub house_rules_en : Option Text
  pub kind : Text
  pub bedrooms : ℕ
  pub bathrooms : ℕ
  pub base_guests : ℕ
  pub max_guests : ℕ
  pub area_sqm : Option ℕ
  pub floor : Option ℤ
  pub sea_distance_m : ℕ
  pub view : Text
  pub row_number : Option ℤ
  pub amenities : Option (List Text)
  pub lat : Option Decimal
  pub lng : Option Decimal
  pub compound : NamedPlace
  pub area : NamedPlace
  pub images : List UnitImage

pub data DayState : Type 0 where
  free : DayState
  blocked : DayState
  past : DayState

pub record AvailabilityDay : Type 0 where
  pub date : Text
  pub price : Option ℕ
  pub state : DayState

pub record QuoteBreakdown : Type 0 where
  pub nightly_price : ℕ
  pub night_count : ℕ
  pub total : ℕ
  pub deposit_due : ℕ

-- A priced stay, or the code of the first rule that it breaks.
pub data QuoteResult : Type 0 where
  priced : (quote : QuoteBreakdown) → QuoteResult
  refused : (code : Text) → QuoteResult

pub record Customer : Type 0 where
  pub id : Text
  pub phone : Text
  pub name : Text

pub record BookingView : Type 0 where
  pub id : Text
  pub ref : Text
  pub check_in : Text
  pub check_out : Text
  pub nights : ℕ
  pub guests : ℕ
  pub status : Text
  pub nightly_price : ℕ
  pub total : ℕ
  pub deposit_due : ℕ
  pub cancelled_at : Option Text
  pub cancel_reason : Option Text
  pub created_at : Text
  pub customer_id : Text
  pub hold_expires_at : Option Text
  pub paid_total : ℕ
  pub payment_rejection_count : ℕ
  pub unit_slug : Text
  pub unit_title_ar : Text
  pub unit_title_en : Text
  pub compound_name_ar : Text
  pub compound_name_en : Text
  pub customer_name : Text
  pub customer_phone : Text
  pub cover_url : Option Text

pub record MyBooking : Type 0 where
  pub id : Text
  pub ref : Text
  pub check_in : Text
  pub check_out : Text
  pub nights : ℕ
  pub guests : ℕ
  pub status : Text
  pub total : ℕ
  pub created_at : Text
  pub unit_slug : Text
  pub unit_title_ar : Text
  pub unit_title_en : Text
  pub cover_url : Option Text

pub record GuestPayment : Type 0 where
  pub status : PaymentStatus
  pub amount : ℕ
  pub rejection_reason : Option Text
  pub created_at : Text

pub record InstapayAddress : Type 0 where
  pub address : Text
  pub mobile : Text
  pub holder_name : Text

pub record GuestBooking : Type 0 where
  pub base : BookingView
  pub payments : List GuestPayment
  pub instapay : InstapayAddress
