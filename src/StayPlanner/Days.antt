-- ===== src/StayPlanner/Days.antt =====
-- The loaded days, a Map in the source, after an answer.
use sahel.Common.{
  ◌≡◌, refl, ap, ◌∙◌, ◌↔◌, inl, inr, Bool, true, false, Option, none, some, List, [], ◌∷◌,
  Bool-cases, Option-cases, if◌then◌else◌,
}
use sahel.Common.Int.{ℤ, pos}
use sahel.Calendar.{Month, add_months}
use sahel.Js.Text.{Text, same, same→eq, same_refl}
use sahel.PublicTypes.{AvailabilityDay, DayState, free, blocked, past}
use sahel.StayPlanner.{
  State, Load, set_day, set_days, find_day, has_day, days_loaded, is_free, state_of, selectable,
  month_start, month_end, turn, go,
}

-- A Map from dates to days, as a function.
abbrev DayMap : Type 0
DayMap = Text → Option AvailabilityDay

abbrev update : DayMap → AvailabilityDay → DayMap
update m day key = if same day.date key then some day else m key

abbrev updates : DayMap → List AvailabilityDay → DayMap
updates m [] = m
updates m (day ∷ more) = updates (update m day) more

same_through : (a b key : Text) → same a b ≡ true → same a key ≡ same b key
same_through a b key e = let q = same→eq a b e in rw q refl

two_keys : (a b key : Text) → same a b ≡ false → same a key ≡ true → same b key ≡ false
two_keys a b key apart e = elim (Bool-cases (same b key)) [
  | inr other ↦ other
  | inl e2 ↦ let qa = same→eq a key e in let qb = same→eq b key e2 in let r = same_refl key in cc
]

find_day-set_day :
    (days : List AvailabilityDay) (day : AvailabilityDay) (key : Text)
    → find_day (set_day days day) key ≡ update (find_day days) day key
unfolding find_day set_day
find_day-set_day [] day key = refl
find_day-set_day (d ∷ days) day key = elim (Bool-cases (same d.date day.date)) [
  | inl e ↦ rw (e, same_through d.date day.date key e) (twice (same day.date key))
  | inr apart ↦ elim (Bool-cases (same d.date key)) [
    | inl e ↦ rw (apart, e, two_keys d.date day.date key apart e) refl
    | inr e ↦ rw (apart, e) (find_day-set_day days day key)
  ]
]
  where
    twice :
        (b : Bool)
        → (if b then some day else find_day days key)
          ≡ (if b then some day else if b then some d else find_day days key)
    twice true = refl
    twice false = refl

find_days :
    (days more : List AvailabilityDay) (m : DayMap) (key : Text)
    → ((k : Text) → find_day days k ≡ m k)
    → find_day (set_days days more) key ≡ updates m more key
unfolding set_days
find_days days [] m key h = h key
find_days days (day ∷ more) m key h =
    find_days (set_day days day) more (update m day) key
      (λ k. find_day-set_day days day k ∙ ap (λ o. if same day.date k then some day else o) (h k))

-- What an answer says last of a date.
abbrev pub answer_for : List AvailabilityDay → Text → Option AvailabilityDay
answer_for [] date = none
answer_for (d ∷ more) date = elim (answer_for more date) [
  | some later ↦ some later
  | none ↦ if same d.date date then some d else none
]

abbrev pub either : Option AvailabilityDay → Option AvailabilityDay → Option AvailabilityDay
either none old = old
either (some d) old = some d

updates_lem :
    (m : DayMap) (more : List AvailabilityDay) (date : Text)
    → updates m more date ≡ either (answer_for more date) (m date)
updates_lem m [] date = refl
updates_lem m (d ∷ more) date =
    updates_lem (update m d) more date ∙ elim (Option-cases (answer_for more date)) [
      | inr (later, e) ↦ rw (e) refl
      | inl e ↦ elim (Bool-cases (same d.date date)) [
        | inl here ↦ rw (e, here) refl
        | inr other ↦ rw (e, other) refl
      ]
    ]

loaded_day :
    (s : State) (more : List AvailabilityDay) (rest : List Load) (date : Text)
    → find_day (days_loaded more rest s).days date
      ≡ either (answer_for more date) (find_day s.days date)
loaded_day s more rest date =
    find_days s.days more (find_day s.days) date (λ k. refl)
    ∙ updates_lem (find_day s.days) more date

-- A day that can start a stay.
abbrev pub IsOpen : Option AvailabilityDay → Type 0
IsOpen none = ⊥
IsOpen (some d) = d.state ≡ free

known_day :
    (s : State) (more : List AvailabilityDay) (rest : List Load) (date : Text) (d : AvailabilityDay)
    → answer_for more date ≡ some d
    → has_day (days_loaded more rest s).days date ≡ true
known_day s more rest date d e =
    let q = loaded_day s more rest date in
    let found : find_day (days_loaded more rest s).days date ≡ some d = rw e at q in
    rw (has_day, found) refl

-- Turning to two months whose first days an answer has asks for nothing.
go-known :
    (engine : Text → Option ℤ) (s : State) (more : List AvailabilityDay) (rest : List Load)
    (delta : ℤ) (next second : Month)
    → add_months s.view.year s.view.month delta ≡ some next
    → add_months next.year next.month (pos 1) ≡ some second
    → (d e : AvailabilityDay) → answer_for more (month_start next) ≡ some d
    → answer_for more (month_start second) ≡ some e
    → (go engine delta (days_loaded more rest s)).loading ≡ rest
unfolding go turn
go-known engine s more rest delta next second hn hs d e hd he =
    let a = known_day s more rest (month_start next) d hd in
    let b = known_day s more rest (month_start second) e he in
    elim (Option-cases (month_end engine second)) [
      | inl never ↦ rw (hn, hs, never) refl
      | inr (day, ends) ↦ rw (hn, hs, ends, a, b) refl
    ]

-- After the answer of a month is merged into the days of a planner without a check-in: a date of
-- the answer has the day that the answer gives last for it, and any other date the day that it
-- had; a date can be selected exactly when the day that it so has is free; and turning to two
-- months whose first days are in the answer asks for nothing more.
pub days_loaded_lem :
    (engine : Text → Option ℤ) (s : State) (more : List AvailabilityDay) (rest : List Load)
    (date : Text)
    → s.range.check_in ≡ none
    → (find_day (days_loaded more rest s).days date
        ≡ either (answer_for more date) (find_day s.days date))
      × ((selectable (days_loaded more rest s) date ≡ true)
          ↔ IsOpen (either (answer_for more date) (find_day s.days date)))
      × ((delta : ℤ) (next second : Month)
          → add_months s.view.year s.view.month delta ≡ some next
          → add_months next.year next.month (pos 1) ≡ some second
          → (d e : AvailabilityDay) → answer_for more (month_start next) ≡ some d
          → answer_for more (month_start second) ≡ some e
          → (go engine delta (days_loaded more rest s)).loading ≡ rest)
unfolding selectable
days_loaded_lem engine s more rest date start =
    let q = loaded_day s more rest date in
    (
      q,
      rw (q, start) (open_iff (either (answer_for more date) (find_day s.days date))),
      go-known engine s more rest,
    )
  where
    free_iff : (x : DayState) → (is_free x ≡ true) ↔ (x ≡ free)
    free_iff free = (λ h. refl, λ h. refl)
    free_iff blocked = (λ h. absurd cc, λ h. absurd cc)
    free_iff past = (λ h. absurd cc, λ h. absurd cc)

    open_iff : (o : Option AvailabilityDay) → (is_free (state_of o) ≡ true) ↔ IsOpen o
    open_iff none = (λ h. absurd cc, λ h. absurd h)
    open_iff (some d) = free_iff d.state
