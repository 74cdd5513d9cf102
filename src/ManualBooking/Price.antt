-- ===== src/ManualBooking/Price.antt =====
-- What a submit of the manual booking form asks the API for, and at which price.
use mathlib.Core.Path.{subst}
use sahel.Common.{
  ℕ, ◌+◌, ◌*◌, ◌<◌, ◌≡◌, refl, inl, inr, Bool, true, false, ◌||◌, Option, none, some, List, [], ltb,
  ◌==◌, arith, Bool-cases,
}
use sahel.Common.Int.{ℤ, pos, sub_ℕ}
use sahel.Js.Text.{Text, codes, is_empty}
use sahel.Js.Date.Shift.{InRange, round_days_lem}
use sahel.Js.Date.Days.{day_text, parse-day_text, before-day_text, day_text-ne_nil}
use sahel.Money.{to_piasters, pounds_text}
use sahel.Money.Parsing.{to_piasters-pounds}
use sahel.Timeline.{nights_between}
use sahel.Api.{or_else}
use sahel.StayPicker.Stays.{FreeBetween}
use sahel.AdminTypes.{UnitRow}
use sahel.ManualBooking.{State, find_unit, choose_unit}
use sahel.ManualBooking.Steps.{Reach, IsFree, Reach-IsSound}
use sahel.ManualBooking.Action.{
  ManualBookingInput, refused, calls, price_request, count_of, request, nights, total,
}

module _ (to_number : Text → Option ℤ) where
  -- What passes the guards of `submit`.
  abbrev pub IsBookable : State → ManualBookingInput → Type 0
  IsBookable s input =
      (input.unit_id ≡ s.unit_id)
      × (is_empty input.unit_id ≡ false)
      × (s.range.check_in ≡ some input.check_in)
      × (is_empty input.check_in ≡ false)
      × (s.range.check_out ≡ some input.check_out)
      × (is_empty input.check_out ≡ false)
      × (to_piasters s.price ≡ some input.nightly_price)
      × (0 < input.nightly_price)

  given : (o : Option Text) → is_empty (or_else o []) ≡ false → o ≡ some (or_else o [])
  unfolding is_empty
  given none h = absurd (cc)
  given (some t) h = refl

  abbrev input_of : State → Option ℤ → ℕ → ManualBookingInput
  input_of s g p = record {
    unit_id = s.unit_id;
    check_in = or_else s.range.check_in [];
    check_out = or_else s.range.check_out [];
    guests = g;
    phone = s.phone;
    name = s.name;
    nightly_price = p;
  }

  priced :
      (s : State) (g : Option ℤ) (p : Option ℕ) (input : ManualBookingInput)
      → price_request s g p ≡ calls input
      → is_empty s.unit_id ≡ false
      → is_empty (or_else s.range.check_in []) ≡ false
      → is_empty (or_else s.range.check_out []) ≡ false
      → to_piasters s.price ≡ p
      → IsBookable s input
  priced s g none input h u c d e = absurd (cc)
  priced s g (some p) input h u c d e = elim (Bool-cases (p == 0)) [
    | inl zero_price ↦
        let bad : refused (codes "errors.price_required") ≡ calls input = rw zero_price at h in
        absurd (cc)
    | inr some_price ↦
        let same_input : calls (input_of s g p) ≡ calls input = rw some_price at h in
        let q : input_of s g p ≡ input = cc in
        subst (λ i. IsBookable s i) q
          (
            refl,
            u,
            given s.range.check_in c,
            c,
            given s.range.check_out d,
            d,
            e,
            ground (arith, some_price),
          )
  ]

  -- When a submit calls the server action, it is with the chosen unit, the chosen check-in and
  -- check-out and the price that was typed; none of the three texts is empty, and the price is
  -- above zero.
  pub request-IsBookable :
      (s : State) (input : ManualBookingInput)
      → request to_number s ≡ calls input
      → IsBookable s input
  unfolding request
  request-IsBookable s input h = elim (Bool-cases (is_empty s.unit_id)) [
    | inl no_unit ↦
        let bad : refused (codes "errors.unit_required") ≡ calls input = rw no_unit at h in
        absurd (cc)
    | inr unit ↦
        elim (Bool-cases
          (is_empty (or_else s.range.check_in []) || is_empty (or_else s.range.check_out []))) [
            | inl no_date ↦
                let bad : refused (codes "errors.dates_required") ≡ calls input =
                  rw (unit, no_date) at h in
                absurd (cc)
            | inr dates ↦
                priced s (count_of to_number s.guests) (to_piasters s.price) input
                  (rw (unit, dates) at h) unit (ground arith) (ground arith) refl
          ]
  ]

  -- When a state that the manual booking form can reach asks for a booking, every night from its
  -- check-in to its check-out is free in the closed nights that the form knows. The answers of the
  -- API are assumed to have closed ranges of at least one night.
  pub request-FreeBetween :
      (over : Text → ℕ → Bool) (units : List UnitRow) (today : Text) (s : State)
      (input : ManualBookingInput)
      → Reach over units today s
      → request to_number s ≡ calls input
      → FreeBetween s.taken input.check_in input.check_out
  request-FreeBetween over units today s input r h =
      let (_, _, ci, full_in, co, full_out, _, _) = request-IsBookable s input h in
      let free : IsFree s.taken (some input.check_in) (some input.check_out) =
        rw (ci, co) at (Reach-IsSound over units today s r).1 in
      free full_in full_out

  -- Where the chosen unit is listed with a nightly price above zero, and the state right after
  -- choosing it asks for a booking, it asks for that unit at exactly that price in piasters.
  pub request-choose_unit :
      (over : Text → ℕ → Bool) (units : List UnitRow) (id : Text) (s : State) (u : UnitRow) (p : ℕ)
      (input : ManualBookingInput)
      → find_unit id units ≡ some u
      → u.nightly_price ≡ some p
      → 0 < p
      → request to_number (choose_unit over units id s) ≡ calls input
      → (input.unit_id ≡ id) × (input.nightly_price ≡ p)
  unfolding choose_unit
  request-choose_unit over units id s u p input found price full h =
      let (unit, _, _, _, _, _, typed, _) =
        request-IsBookable (choose_unit over units id s) input h in
      let zero_not : (p == 0) ≡ false = ground arith in
      let prefilled : to_piasters (pounds_text p) ≡ some input.nightly_price =
        rw (found, price, zero_not) at typed in
      let back : to_piasters (pounds_text p) ≡ some p = (to_piasters-pounds p).1 in (unit, cc)

-- For the days numbered d and d + n in the range of plain dates, with at least one night between,
-- and a typed price p above zero, the total that the form shows is p for each of the n nights.
pub total_lem :
    (engine : Text → Option ℤ) (s : State) (d n p : ℕ)
    → InRange d
    → InRange (d + n)
    → 0 < n
    → 0 < p
    → s.range.check_in ≡ some (day_text d)
    → s.range.check_out ≡ some (day_text (d + n))
    → to_piasters s.price ≡ some p
    → total engine s ≡ some (p * n)
unfolding total nights nights_between
total_lem engine s d n p rd re some_night some_price ci co price =
    let later : ltb d (d + n) ≡ true = ground arith in
    let count : sub_ℕ (d + n) d ≡ pos n = ground arith in
    rw
      (
        ci,
        co,
        price,
        day_text-ne_nil d rd,
        day_text-ne_nil (d + n) re,
        before-day_text d (d + n) rd re,
        later,
        parse-day_text d rd engine,
        parse-day_text (d + n) re engine,
        round_days_lem d (d + n),
        count,
      )
      (ground arith)
