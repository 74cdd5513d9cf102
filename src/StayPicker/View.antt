-- ===== src/StayPicker/View.antt =====
-- web/src/components/admin/stay-picker.tsx: the months of the calendar and its days. `today` is a
-- day in the shape dddd-dd-dd. A view of none is a month of NaN, which no use of the buttons reaches
-- within the years of four digits.
pub mod Turning
use sahel.Common.{
  ℕ, ◌≡◌, Bool, true, false, not, ◌&&◌, ◌||◌, Option, none, some, List, [], ◌∷◌, ◌==◌, map,
  if◌then◌else◌,
}
use sahel.Common.Int.{ℤ, pos, negsuc}
use sahel.Common.Lists.{take, drop}
use sahel.Js.Text.{Text, before, same}
use sahel.Js.Digits.{number}
use sahel.Calendar.{Month, Range, add_months}
use sahel.StayPicker.{Taken, is_taken, can_pick, truthy}

unfoldable pub this_month : Text → Month
this_month today = record {
  year = pos (number (take 4 today));
  month = number (take 2 (drop 5 today));
}

abbrev pub same_year : ℤ → ℤ → Bool
same_year (pos a) (pos b) = a == b
same_year (pos a) (negsuc b) = false
same_year (negsuc a) (pos b) = false
same_year (negsuc a) (negsuc b) = a == b

unfoldable pub is_at : Month → Month → Bool
is_at view m = same_year view.year m.year && (view.month == m.month)

abbrev pub turned : ℤ → Option Month → Option Month
turned n none = none
turned n (some view) = add_months view.year view.month n

-- The two buttons beside the heading, and the one of this month.
unfoldable pub turn_back : Option Month → Option Month
turn_back view = turned (negsuc 0) view

unfoldable pub turn_on : Option Month → Option Month
turn_on view = turned (pos 1) view

unfoldable pub shows_this_month : Text → Option Month → Bool
shows_this_month today none = true
shows_this_month today (some view) = not (is_at view (this_month today))

unfoldable pub months : Option Month → List (Option Month)
months view = view ∷ turned (pos 1) view ∷ []

unfoldable pub picking_out : Range → Bool
picking_out value = truthy value.check_in && not (truthy value.check_out)

-- A day of a month, as a button.
pub record Cell : Type 0 where
  pub disabled : Bool
  pub pressed : Bool
  pub is_closed : Bool
  pub in_range : Bool
  pub is_today : Bool
  pub label : ℕ

abbrev pub is_day : Text → Option Text → Bool
is_day d none = false
is_day d (some e) = same d e

abbrev pub inside : Text → Option Text → Option Text → Bool
inside d (some check_in) (some check_out) =
    truthy (some check_in) && truthy (some check_out) && before check_in d && before d check_out
inside d (some check_in) none = false
inside d none check_out = false

unfoldable pub cell_of : Bool → Text → Taken → Range → Text → Cell
cell_of loading today taken value d = record {
  disabled =
      not (not loading && not (before d today) && can_pick d value.check_in value.check_out taken);
  pressed = is_day d value.check_in || is_day d value.check_out;
  is_closed = is_taken d taken;
  in_range = inside d value.check_in value.check_out;
  is_today = same d today;
  label = number (drop 8 d);
}
