-- ===== src/StayPlanner/Steps.antt =====
-- The states that the planner can reach: the price beside the calendar is the price of the stay.
use mathlib.Core.Path.{subst}
use sahel.Common.{
  ℕ, ◌+◌, ◌-◌, ◌<◌, ◌≤◌, ◌≡◌, ◌≢◌, refl, ◌⊎◌, inl, inr, true, Option, none, some, List, [], ◌∷◌,
  ◌++◌, arith,
}
use sahel.Common.Int.{ℤ}
use sahel.Js.Text.{Text}
use sahel.Calendar.{range_select}
use sahel.PublicTypes.{AvailabilityDay, QuoteBreakdown, QuoteResult, priced, refused}
use sahel.StayPlanner.{
  Request, Load, State, initial_state, turned, turn, Turn, go, request_of, add_request, requote,
  choose, change_guests, clear, open_booking, close_booking, quoted_with, days_loaded, enabled,
  StaySummary, priced_quote, summary_of, nights_of, summary,
}

-- `Answer r x`: the API answers the request r with x, at some time.
module _ (engine : Text → Option ℤ) (Answer : Request → QuoteResult → Type 0) (max_guests : ℕ) where
  pub data Step : State → State → Type 0 where
    choosing : (date : Text) (s : State) → enabled s date ≡ true → Step s (choose date s)
    adding : (s : State) → s.guests < max_guests → Step s (change_guests (s.guests + 1) s)
    removing : (s : State) → 1 < s.guests → Step s (change_guests (s.guests - 1) s)
    clearing : (s : State) → Step s (clear s)
    going : (delta : ℤ) (s : State) → Step s (go engine delta s)
    loaded :
        (more : List AvailabilityDay) (l : Load) (rest : List Load) (s : State)
        → s.loading ≡ l ∷ rest
        → Step s (days_loaded more rest s)
    answered :
        (r : Request) (x : QuoteResult) (rest : List Request) (s : State)
        → s.quoting ≡ r ∷ rest
        → Answer r x
        → Step s (quoted_with x rest s)
    opening : (s : State) → s.quoting ≡ [] → priced_quote s.quote ≢ none → Step s (open_booking s)
    closing : (s : State) → Step s (close_booking s)

  pub data Reach : State → Type 0 where
    shown :
        (today : Text) (days : List AvailabilityDay) → Reach (initial_state today days max_guests)
    stepped : (s t : State) → Reach s → Step s t → Reach t

  -- The last request that waits.
  abbrev pub EndsWith : List Request → Request → Type 0
  EndsWith [] r = ⊥
  EndsWith (x ∷ []) r = x ≡ r
  EndsWith (x ∷ y ∷ l) r = EndsWith (y ∷ l) r

  -- A complete stay is the last that is asked for, or it has its answer.
  abbrev pub IsFresh : Option Request → List Request → Option QuoteResult → Type 0
  IsFresh none waiting quote = Unit
  IsFresh (some r) waiting quote =
      EndsWith waiting r ⊎ ((waiting ≡ []) × (x : QuoteResult) × (quote ≡ some x) × Answer r x)

  abbrev pub stay_of : State → Option Request
  stay_of s = request_of s.range.check_in s.range.check_out s.guests

  abbrev pub IsSound : State → Type 0
  IsSound s = IsFresh (stay_of s) s.quoting s.quote × (1 ≤ s.guests) × (s.guests ≤ max_guests)

  EndsWith-append : (waiting : List Request) (r : Request) → EndsWith (waiting ++ r ∷ []) r
  EndsWith-append [] r = refl
  EndsWith-append (x ∷ []) r = refl
  EndsWith-append (x ∷ y ∷ l) r = EndsWith-append (y ∷ l) r

  IsFresh-add_request :
      (r : Option Request) (waiting : List Request) → IsFresh r (add_request r waiting) none
  IsFresh-add_request none waiting = tt
  IsFresh-add_request (some r) waiting = inl (EndsWith-append waiting r)

  IsFresh-answered :
      (stay : Option Request) (r : Request) (x : QuoteResult) (rest : List Request)
      (quote : Option QuoteResult)
      → IsFresh stay (r ∷ rest) quote
      → Answer r x
      → IsFresh stay rest (some x)
  IsFresh-answered none r x rest quote f a = tt
  IsFresh-answered (some t) r x rest quote (inr (e, _, _, _)) a = absurd (cc)
  IsFresh-answered (some t) r x [] quote (inl e) a = inr (refl, x, refl, rw⁻¹ e a)
  IsFresh-answered (some t) r x (y ∷ l) quote (inl e) a = inl e

  turned-IsSound : (t : Option Turn) (s : State) → IsSound s → IsSound (turned engine t s)
  turned-IsSound none s sound = sound
  turned-IsSound (some t) s sound = sound

  Step-IsSound : (s t : State) → Step s t → IsSound s → IsSound t
  unfolding choose change_guests requote clear go open_booking close_booking
  Step-IsSound s _ (choosing date _ on) (f, low, high) = (
    IsFresh-add_request
        (request_of (range_select s.range date).check_in (range_select s.range date).check_out
          s.guests)
        s.quoting,
    low,
    high,
  )
  Step-IsSound s _ (adding _ room) (f, low, high) = (
    IsFresh-add_request (request_of s.range.check_in s.range.check_out (s.guests + 1)) s.quoting,
    omega arith,
    omega (arith, room),
  )
  Step-IsSound s _ (removing _ room) (f, low, high) = (
    IsFresh-add_request (request_of s.range.check_in s.range.check_out (s.guests - 1)) s.quoting,
    omega (arith, room),
    omega (arith, high),
  )
  Step-IsSound s _ (clearing _) (f, low, high) = (tt, low, high)
  Step-IsSound s _ (going delta _) sound = turned-IsSound (turn engine s.view s.days delta) s sound
  Step-IsSound s _ (loaded more l rest _ e) sound = sound
  Step-IsSound s _ (answered r x rest _ e a) (f, low, high) =
      (IsFresh-answered (stay_of s) r x rest s.quote (rw e at f) a, low, high)
  Step-IsSound s _ (opening _ idle q) sound = sound
  Step-IsSound s _ (closing _) sound = sound

  Reach-IsSound_lem : 1 ≤ max_guests → (s : State) → Reach s → IsSound s
  unfolding initial_state
  Reach-IsSound_lem some_guest _ (shown today days) = (tt, omega arith, omega arith)
  Reach-IsSound_lem some_guest t (stepped s _ r step) =
      Step-IsSound s t step (Reach-IsSound_lem some_guest s r)

  -- In every state of the stay planner that its events reach, for a unit that takes a guest, the
  -- number of guests is at least 1 and at most what the unit takes.
  pub guests_bounds :
      1 ≤ max_guests → (s : State) → Reach s → (1 ≤ s.guests) × (s.guests ≤ max_guests)
  guests_bounds some_guest s r =
      let (_, low, high) = Reach-IsSound_lem some_guest s r in (low, high)

  -- What the offered stay is: a stay at a price that the API answered for it.
  abbrev pub IsQuoted : StaySummary → Type 0
  IsQuoted stay =
      (q : QuoteBreakdown) × Answer
        (record { check_in = stay.check_in; check_out = stay.check_out; guests = stay.guests })
        (priced q)
      × (stay.nightly_price ≡ q.nightly_price)
      × (stay.total ≡ q.total)
      × (stay.deposit ≡ q.deposit_due)

  -- After any events of the stay planner, as long as no price that was asked for is outstanding:
  -- the stay that is offered for booking has a check-in and a check-out, and its total, deposit
  -- and nightly price are those that the API answered to a request for exactly these dates and
  -- guests.
  pub summary-IsQuoted :
      1 ≤ max_guests
      → (s : State) (stay : StaySummary) → Reach s
      → s.quoting ≡ []
      → summary engine s ≡ some stay
      → IsQuoted stay
  unfolding summary
  summary-IsQuoted some_guest s stay r idle h =
      of_quote (stay_of s) s.quote (rw idle at (Reach-IsSound_lem some_guest s r).0)
        (nights_of engine (stay_of s)) h
    where
      of_quote :
          (t : Option Request) (quote : Option QuoteResult)
          → IsFresh t [] quote
          → (nights : Option ℤ) → summary_of nights t (priced_quote quote) ≡ some stay
          → IsQuoted stay
      of_quote none quote f n k = absurd (cc)
      of_quote (some t) none f n k = absurd (cc)
      of_quote (some t) (some (refused code)) f n k = absurd (cc)
      of_quote (some t) (some (priced q)) (inl never) n k = absurd never
      of_quote (some t) (some (priced q)) (inr (_, x, e, a)) n k =
          let found_quote : priced q ≡ x = cc in
          let stay_is : record {
            check_in = t.check_in;
            check_out = t.check_out;
            nights = n;
            guests = t.guests;
            nightly_price = q.nightly_price;
            total = q.total;
            deposit = q.deposit_due;
          }
              ≡ stay =
            cc in
          subst IsQuoted stay_is (q, rw found_quote a, refl, refl, refl)
