-- ===== src/Countdown/Laws.antt =====
-- The parts of the time left.
use sahel.Common.{
  ℕ, ◌+◌, ◌-◌, ◌*◌, ◌/◌, ◌<◌, ◌≡◌, refl, ◌↔◌, inl, inr, false, Option, some, ltb, arith, Bool-cases,
}
use sahel.Js.Text.{Text, is_empty}
use sahel.Countdown.{Remaining, split_time, remaining}

-- The hours, minutes and seconds add up to that many seconds.
abbrev pub AddsUp : Remaining → ℕ → Type 0
AddsUp r total =
    (r.hours * 3600 + r.minutes * 60 + r.seconds ≡ total) × (r.minutes < 60) × (r.seconds < 60)

split_time-AddsUp : (total : ℕ) → AddsUp (split_time total) total
unfolding split_time
split_time-AddsUp total = (omega arith, omega arith, omega arith)

-- Of a timestamp that is not empty and that Date.parse reads as a time: the time left is not over
-- exactly when now is before that time, and the hours, minutes and seconds add up to the whole
-- seconds from now to then, with fewer than 60 minutes and 60 seconds.
pub remaining_lem :
    (parse_time : Text → Option ℕ) (until : Text) (now time : ℕ)
    → is_empty until ≡ false
    → parse_time until ≡ some time
    → (((remaining parse_time (some until) now).over ≡ false) ↔ (now < time))
      × AddsUp (remaining parse_time (some until) now) ((time - now) / 1000)
unfolding remaining split_time
remaining_lem parse_time until now time full e =
    rw (full, e)
      (elim (Bool-cases (ltb now time)) [
        | inl before ↦
            rw before ((λ _. ground arith, λ _. refl), split_time-AddsUp ((time - now) / 1000))
        | inr after ↦
            let gone : (time - now) / 1000 ≡ 0 = ground arith in
            rw (after, gone)
              ((λ h. absurd (cc), λ h. ground arith), (refl, omega arith, omega arith))
      ])
