-- ===== src/AdminTypes/Bookings.antt =====
-- web/src/lib/admin/types.ts: bookings, payments and customers.
use sahel.Common.{ℕ, Bool, Option}
use sahel.Js.Text.{Text}

pub data PaymentStatus : Type 0 where
  pending : PaymentStatus
  verified : PaymentStatus
  rejected : PaymentStatus

pub data Recorder : Type 0 where
  guest : Recorder
  admin : Recorder

pub record BookingRow : Type 0 where
  pub id : Text
  pub ref : Text
  pub check_in : Text
  pub check_out : Text
  pub nights : ℕ
  pub guests : ℕ
  pub status : Text
  pub total : ℕ
  pub created_at : Text
  pub unit_id : Text
  pub unit_title_ar : Text
  pub unit_title_en : Text
  pub compound_name_ar : Text
  pub compound_name_en : Text
  pub deposit_due : ℕ
  pub paid_total : ℕ
  pub source : Text
  pub customer_name : Text
  pub customer_phone : Text

pub record PaymentRow : Type 0 where
  pub id : Text
  pub status : PaymentStatus
  pub amount : ℕ
  pub sender_name : Text
  pub sender_number : Text
  pub rejection_reason : Option Text
  pub recorded_by : Recorder
  pub created_at : Text
  pub verified_at : Option Text
  pub has_proof : Bool
  pub proof_type : Option Text
  pub booking_id : Text
  pub ref : Text
  pub booking_status : Text
  pub deposit_due : ℕ
  pub paid_total : ℕ
  pub total : ℕ
  pub check_in : Text
  pub check_out : Text
  pub unit_title_ar : Text
  pub unit_title_en : Text
  pub customer_name : Text
  pub customer_phone : Text

pub record BookingPayment : Type 0 where
  pub id : Text
  pub status : PaymentStatus
  pub amount : ℕ
  pub sender_name : Text
  pub sender_number : Text
  pub rejection_reason : Option Text
  pub notes : Option Text
  pub recorded_by : Recorder
  pub verified_at : Option Text
  pub created_at : Text
  pub has_proof : Bool

pub record InstapayAccount : Type 0 where
  pub address : Text
  pub mobile : Text
  pub holder_name : Text

pub record CustomerRow : Type 0 where
  pub id : Text
  pub name : Text
  pub phone : Text
  pub created_at : Text
  pub bookings : ℕ
  pub stays : ℕ
  pub paid_total : ℕ
  pub last_booked_at : Option Text

pub record Customer : Type 0 where
  pub id : Text
  pub name : Text
  pub phone : Text
  pub email : Option Text
  pub created_at : Text
  pub has_password : Bool
