-- ===== src/TimelineGrid/Steps.antt =====
-- The states that the timeline can reach, and the nights that it asks to block.
use Prim.Native.Nat.{min, max}
use mathlib.Core.Path.{subst}
use sahel.Common.{
  ℕ, zero, suc, ◌+◌, ◌-◌, ◌<◌, ◌≤◌, ◌≡◌, refl, sym, ◌∙◌, inl, inr, Bool, true, false, ◌||◌, Option,
  none, some, List, Bool-cases, arith, ltb,
}
use sahel.Common.Int.{ℤ, pos}
use sahel.Common.Lists.{any}
use sahel.Js.Text.{Text, codes, before, same, is_empty, same→eq}
use sahel.Js.Date.Shift.{InRange}
use sahel.Js.Date.Days.{day_text, before-day_text}
use sahel.AdminTypes.Timelines.{Timeline, TimelineUnit, TimelineBlock}
use sahel.Timeline.{selection}
use sahel.Timeline.Days.{texts_from, day_range_lem, selection_lem}
use sahel.TimelineGrid.{
  Start, Pending, State, initial_state, shown_count, shown_days, is_button, press_escape,
  click_with, click_day, close_all, click_block, type_note, BlockCall, call_of, save_block,
  block_answered, unblock_answered,
}

module _ (engine : Text → Option ℤ) (phone : Bool) (timeline : Timeline) where
  -- What can happen: clicks are on buttons, which the days of the window have.
  pub data Step : State → State → Type 0 where
    clicking :
        (unit : TimelineUnit) (d : Text) (days : List Text) (s : State)
        → shown_days engine phone timeline ≡ some days
        → any (same d) days ≡ true
        → is_button timeline d ≡ true
        → Step s (click_day engine unit d s)
    escaping : (s : State) → Step s (press_escape s)
    closing : (s : State) → Step s (close_all s)
    opening :
        (unit : TimelineUnit) (block : TimelineBlock) (s : State)
        → Step s (click_block unit block s)
    typing : (note : Text) (s : State) → Step s (type_note note s)
    blocked : (code : Option Text) (s : State) → Step s (block_answered code s)
    unblocked : (code : Option Text) (s : State) → Step s (unblock_answered code s)

  pub data Reach : State → Type 0 where
    loaded : Reach initial_state
    stepped : (s t : State) → Reach s → Step s t → Reach t

module _ (engine : Text → Option ℤ) (phone : Bool) (timeline : Timeline) (f t : ℕ) where
  -- A day of the window that is not past.
  abbrev pub IsOpen : ℕ → Type 0
  IsOpen a = (f ≤ a) × (a < f + shown_count phone timeline) × (t ≤ a)

  abbrev pub IsChosen : Option Start → Type 0
  IsChosen none = Unit
  IsChosen (some x) = (a : ℕ) × IsOpen a × (x.day ≡ day_text a)

  -- The nights from one open day to another, both included.
  abbrev pub IsNights : Text → Text → Type 0
  IsNights start end =
      (a : ℕ) × (b : ℕ) × IsOpen a
      × IsOpen b
      × (a ≤ b)
      × (start ≡ day_text a)
      × (end ≡ day_text (b + 1))

  abbrev pub IsPending : Option Pending → Type 0
  IsPending none = Unit
  IsPending (some p) = IsNights p.start p.end

  abbrev pub IsSound : State → Type 0
  IsSound s = IsChosen s.start × IsPending s.pending

module _ (engine : Text → Option ℤ) where
  find_day :
      (d n : ℕ) (x : Text)
      → any (same x) (texts_from engine d n) ≡ true
      → (e : ℕ) × (d ≤ e) × (e < d + n) × (x ≡ day_text e)
  find_day d zero x h = absurd (cc)
  find_day d (suc n) x h = elim (Bool-cases (same x (day_text d))) [
    | inl here ↦ (d, omega arith, omega arith, same→eq x (day_text d) here)
    | inr other ↦
        let (e, low, high, q) = find_day (suc d) n x (rw other at h) in
        (e, omega (arith, low), omega (arith, high), q)
  ]

module _ (engine : Text → Option ℤ) (phone : Bool) (timeline : Timeline) (f t : ℕ)
    (starts : timeline.start_day ≡ day_text f) (now : timeline.today ≡ day_text t) (rf : InRange f)
    (rt : InRange t) (re : InRange (f + shown_count phone timeline)) where
  within : (a : ℕ) → f ≤ a → a < f + shown_count phone timeline → InRange a
  within a low high = omega (arith, rf, re)

  IsOpen-day :
      (x : Text) (days : List Text)
      → shown_days engine phone timeline ≡ some days
      → any (same x) days ≡ true
      → is_button timeline x ≡ true
      → (a : ℕ) × IsOpen engine phone timeline f t a × (x ≡ day_text a)
  unfolding shown_days is_button
  IsOpen-day x days shown member button =
      let range : some (texts_from engine f (shown_count phone timeline)) ≡ some days =
        sym (day_range_lem engine f (shown_count phone timeline) rf re) ∙ rw⁻¹ starts shown in
      let listed : texts_from engine f (shown_count phone timeline) ≡ days = cc in
      let (a, low, high, q) = find_day engine f (shown_count phone timeline) x (rw listed member) in
      let clickable : before x timeline.today ≡ false = ground (arith, button) in
      let not_before : ltb a t ≡ false =
        sym (before-day_text a t (within a low high) rt) ∙ rw (q, now) at clickable in
      (a, (low, high, ground (arith, not_before)), q)

  start_IsChosen :
      (s : State) (unit : TimelineUnit) (d : Text) (a : ℕ)
      → IsOpen engine phone timeline f t a
      → d ≡ day_text a
      → (start : Option Start) → IsChosen engine phone timeline f t start
      → IsPending engine phone timeline f t s.pending
      → IsSound engine phone timeline f t (click_with engine start unit d s)
  start_IsChosen s unit d a is_open q none c p = ((a, is_open, q), p)
  start_IsChosen s unit d a is_open q (some x) (b, was, e) p =
      elim (Bool-cases (same x.unit_id unit.id)) [
        | inr other ↦ rw other ((a, is_open, q), p)
        | inl again ↦
            let before_end : max b a + 1 ≤ f + shown_count phone timeline =
              omega (arith, is_open.1, was.1) in
            let last : InRange (max b a + 1) = omega (arith, rf, re, is_open.0) in
            let chosen : selection engine x.day d
                ≡ some (record {
                  start = day_text (min b a);
                  end = day_text (max b a + 1);
                  nights = some (pos (max b a + 1 - min b a));
                }) =
              rw (e, q)
                (selection_lem engine b a (within b was.0 was.1) (within a is_open.0 is_open.1)
                  last) in
            rw (again, chosen)
              (
                tt,
                (
                  min b a,
                  max b a,
                  omega (arith, is_open, was),
                  omega (arith, is_open, was),
                  omega arith,
                  refl,
                  refl,
                ),
              )
      ]

  closed-IsSound :
      (s : State)
      → IsSound engine phone timeline f t s
      → IsSound engine phone timeline f t (close_all s)
  unfolding close_all
  closed-IsSound s (c, p) = (c, tt)

  Step-IsSound :
      (s u : State)
      → Step engine phone timeline s u
      → IsSound engine phone timeline f t s
      → IsSound engine phone timeline f t u
  unfolding click_day press_escape close_all click_block type_note block_answered unblock_answered
  Step-IsSound s _ (clicking unit d days _ shown member button) (c, p) =
      let (a, is_open, q) = IsOpen-day d days shown member button in
      start_IsChosen s unit d a is_open q s.start c p
  Step-IsSound s _ (escaping _) (c, p) = (tt, p)
  Step-IsSound s _ (closing _) (c, p) = (c, tt)
  Step-IsSound s _ (opening unit block _) sound = sound
  Step-IsSound s _ (typing note _) sound = sound
  Step-IsSound s _ (blocked none _) (c, p) = (c, tt)
  Step-IsSound s _ (blocked (some code) _) (c, p) = elim (Bool-cases (is_empty code)) [
    | inl e ↦ rw e (c, tt)
    | inr e ↦ rw e (c, p)
  ]
  Step-IsSound s _ (unblocked none _) (c, p) = (c, tt)
  Step-IsSound s _ (unblocked (some code) _) (c, p) =
      elim (Bool-cases (is_empty code || same code (codes "not_found"))) [
        | inl e ↦ rw e (c, tt)
        | inr e ↦ rw e (c, p)
      ]

  Reach-IsSound_lem :
      (s : State) → Reach engine phone timeline s → IsSound engine phone timeline f t s
  Reach-IsSound_lem _ loaded = (tt, tt)
  Reach-IsSound_lem u (stepped s _ r step) = Step-IsSound s u step (Reach-IsSound_lem s r)

  -- In any state that clicks on the grid reach, where the days of the grid are those from its
  -- first day and can be written: the nights that saveBlock asks the API to block run from a day
  -- that is open to clicks up to the day after such a day that is not earlier; both days are in
  -- the window and neither is before today.
  pub save_block-IsNights :
      (s : State) (call : BlockCall)
      → Reach engine phone timeline s
      → save_block s ≡ some call
      → IsNights engine phone timeline f t call.start call.end
  unfolding save_block
  save_block-IsNights s call r h = of_pending s.pending (Reach-IsSound_lem s r).1 h
    where
      of_pending :
          (p : Option Pending)
          → IsPending engine phone timeline f t p
          → call_of s.note p ≡ some call
          → IsNights engine phone timeline f t call.start call.end
      of_pending none i k = absurd (cc)
      of_pending (some p) i k =
          let q : record { unit_id = p.unit.id; start = p.start; end = p.end; note = s.note }
              ≡ call =
            cc in
          subst (λ c. IsNights engine phone timeline f t c.start c.end) q i
