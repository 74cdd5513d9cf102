-- ===== src/AdminTypes/Timelines.antt =====
-- web/src/lib/admin/types.ts: the timeline, the panel of today and the reports.
use sahel.Common.{ℕ, List}
use sahel.Js.Text.{Text}

pub record TimelineBooking : Type 0 where
  pub id : Text
  pub ref : Text
  pub status : Text
  pub check_in : Text
  pub check_out : Text
  pub customer_name : Text

pub record TimelineBlock : Type 0 where
  pub id : Text
  pub unit_id : Text
  pub start : Text
  pub end : Text
  pub note : Text

pub record TimelineUnit : Type 0 where
  pub id : Text
  pub slug : Text
  pub title_ar : Text
  pub title_en : Text
  pub status : Text
  pub compound_name_ar : Text
  pub compound_name_en : Text
  pub bookings : List TimelineBooking
  pub blocks : List TimelineBlock

pub record Timeline : Type 0 where
  pub start_day : Text
  pub days : ℕ
  pub today : Text
  pub units : List TimelineUnit

pub record Movement : Type 0 where
  pub id : Text
  pub ref : Text
  pub status : Text
  pub check_in : Text
  pub check_out : Text
  pub nights : ℕ
  pub guests : ℕ
  pub customer_name : Text
  pub customer_phone : Text
  pub unit_id : Text
  pub unit_title_ar : Text
  pub unit_title_en : Text

pub record Today : Type 0 where
  pub today : Text
  pub arrivals : List Movement
  pub departures : List Movement
  pub staying_tonight : ℕ
  pub holds_expiring : ℕ
  pub active_units : ℕ
  pub occupied_nights : ℕ
  pub week_nights : ℕ

pub record ReportMonth : Type 0 where
  pub month : Text
  pub nights : ℕ
  pub revenue : ℕ
  pub blocked_nights : ℕ
  pub available_nights : ℕ
  pub collected : ℕ
  pub bookings_made : ℕ

pub record ReportUnit : Type 0 where
  pub id : Text
  pub title_ar : Text
  pub title_en : Text
  pub status : Text
  pub nights : ℕ
  pub revenue : ℕ
  pub blocked_nights : ℕ
  pub available_nights : ℕ

pub record Report : Type 0 where
  pub year : ℕ
  pub today : Text
  pub active_units : ℕ
  pub months : List ReportMonth
  pub units : List ReportUnit
