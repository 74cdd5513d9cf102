-- ===== src/Unsaved/Laws.antt =====
-- When the browser leaves a page of the dashboard.
use sahel.Common.{
  ◌≡◌, refl, ◌⊎◌, inl, inr, Bool, true, false, Option, none, some, List, [], ◌∷◌, arith, Bool-cases,
}
use sahel.Js.Text.{Text, codes, starts_with}
use sahel.Unsaved.{
  needs_leave_prompt, Go, push, State, is_dirty, set_dirty, confirm_leave, press_back, stay, leave,
  Click, click_link, Event, edits, clicks, backs, stays, leaves, next, after,
}

abbrev pub is_some : Option Go → Bool
is_some none = false
is_some (some go) = true

-- The dialog asks exactly while a navigation is put off.
abbrev pub IsSound : State → Type 0
IsSound s = s.asking ≡ is_some s.pending

next-IsSound : (s : State) (e : Event) → IsSound s → IsSound (next s e).0
unfolding next set_dirty click_link confirm_leave press_back stay leave
next-IsSound s (edits id value) h = ground arith
next-IsSound s (clicks c href) h = ground arith
next-IsSound s backs h = ground arith
next-IsSound s stays h = refl
next-IsSound s leaves h = ground arith

anchored :
    (c : Click) (href : Text) (s : State) (go : Go)
    → is_dirty s ≡ true
    → starts_with href (codes "#") ≡ true
    → (click_link c href s).1 ≡ some go
    → go ≡ push href
unfolding click_link confirm_leave needs_leave_prompt
anchored c href s go dirty anchor h = ground arith

-- When an event leaves the page while a form has unsaved changes, the event is the answer of the
-- dialog to leave, for the navigation that was put off, or it is a click on a link to a place of
-- the same page or on one that the browser opens by itself.
pub next_lem :
    (s : State) (e : Event) (go : Go)
    → (next s e).1 ≡ some go
    → (is_dirty s ≡ false)
      ⊎ ((e ≡ leaves) × (s.asking ≡ true) × (s.pending ≡ some go))
      ⊎ ((href : Text) × (go ≡ push href) × (starts_with href (codes "#") ≡ true))
unfolding next set_dirty click_link confirm_leave press_back stay leave needs_leave_prompt
next_lem s (edits id value) go h = absurd (cc)
next_lem s (clicks c href) go h = elim (Bool-cases (is_dirty s)) [
  | inr clean ↦ ground arith
  | inl dirty ↦ elim (Bool-cases (starts_with href (codes "#"))) [
    | inl anchor ↦ ground (arith, anchored c href s go dirty anchor)
    | inr away ↦ ground arith
  ]
]
next_lem s backs go h = ground arith
next_lem s stays go h = absurd (cc)
next_lem s leaves go h = ground arith

-- After any events, the dialog asks exactly while a navigation is put off.
pub after-IsSound : (events : List Event) → IsSound (after events)
unfolding after
after-IsSound [] = refl
after-IsSound (e ∷ events) = next-IsSound (after events) e (after-IsSound events)
