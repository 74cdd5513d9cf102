-- ===== src/GuestFlow/Laws.antt =====
-- Who can book, and what an account is created with.
use sahel.Common.{
  ◌≤◌, ◌≡◌, refl, ap, sym, ◌∙◌, ◌⊎◌, Bool, true, false, Option, none, some, List, [], ◌∷◌, ◌++◌,
  arith,
}
use sahel.Common.Lists.{any, length}
use sahel.Js.Text.{Text, codes}
use sahel.Js.Text.Trim.{trim}
use sahel.Phone.{looks_like_mobile}
use sahel.GuestFlow.{
  Stay, State, Call, book_stay, Event, open_dialog, choose_tab, type_name, type_phone,
  type_password, toggle_show, press_submit, auth_ok, auth_refused, book_ok, book_refused,
  is_confirm, is_register, can_submit, auth_call, calls, submit_auth, submit, signed, next, after,
}

-- The guest was signed in when the dialog opened, or a sign-in or a new account was accepted.
abbrev pub shows_guest : Event → Bool
shows_guest (open_dialog signed_in) = signed_in
shows_guest (choose_tab is_new) = false
shows_guest (type_name s) = false
shows_guest (type_phone s) = false
shows_guest (type_password s) = false
shows_guest toggle_show = false
shows_guest press_submit = false
shows_guest auth_ok = true
shows_guest (auth_refused code) = false
shows_guest (book_ok ref) = false
shows_guest (book_refused code) = false

same_phase : (stay : Option Stay) (s : State) → (submit stay s).state.phase ≡ s.phase
unfolding submit submit_auth
same_phase none s = ground arith
same_phase (some stay) s = ground arith

tab_kept :
    (locale : Text) (stay : Option Stay) (is_new : Bool) (s : State)
    → is_confirm (next locale stay s (choose_tab is_new)).state.phase ≡ true
    → is_confirm s.phase ≡ true
unfolding next
tab_kept locale stay true s h = ground arith
tab_kept locale stay false s h = ground arith

tab_call :
    (locale : Text) (stay : Option Stay) (is_new : Bool) (s : State)
    → (next locale stay s (choose_tab is_new)).call ≡ none
unfolding next
tab_call locale stay is_new s = ground arith

signed_call : (stay : Option Stay) (s : State) → (signed stay s).call ≡ none
unfolding signed
signed_call none s = refl
signed_call (some stay) s = refl

submit-book :
    (stay : Option Stay) (s : State) (st : Stay)
    → (submit stay s).call ≡ some (book_stay st)
    → (is_confirm s.phase ≡ true) × (stay ≡ some st)
unfolding submit submit_auth
submit-book none s st h = ground arith
submit-book (some stay) s st h = ground arith

-- Outside the step of confirmation, a submission that calls the API calls it with the fields of
-- the dialog, where the phone looks like a mobile number, the password has 8 code units or more,
-- and the name has 2 or more when an account is created.
pub submit-auth_call :
    (stay : Option Stay) (s : State) (c : Call)
    → (submit stay s).call ≡ some c
    → is_confirm s.phase ≡ false
    → (looks_like_mobile s.phone ≡ true)
      × (8 ≤ length s.password)
      × (c ≡ auth_call s)
      × ((is_register s.phase ≡ false) ⊎ (2 ≤ length (trim s.name)))
unfolding submit submit_auth can_submit
submit-auth_call none s c h e = ground arith
submit-auth_call (some stay) s c h e = ground arith

module _ (locale : Text) (stay : Option Stay) where
  confirm-shows_guest :
      (events : List Event)
      → is_confirm (after locale stay events).phase ≡ true
      → any shows_guest events ≡ true
  unfolding after next signed
  confirm-shows_guest [] h = absurd (cc)
  confirm-shows_guest (open_dialog true ∷ events) h = refl
  confirm-shows_guest (open_dialog false ∷ events) h = absurd (cc)
  confirm-shows_guest (choose_tab is_new ∷ events) h =
      confirm-shows_guest events (tab_kept locale stay is_new (after locale stay events) h)
  confirm-shows_guest (type_name s ∷ events) h = confirm-shows_guest events h
  confirm-shows_guest (type_phone s ∷ events) h = confirm-shows_guest events h
  confirm-shows_guest (type_password s ∷ events) h = confirm-shows_guest events h
  confirm-shows_guest (toggle_show ∷ events) h = confirm-shows_guest events h
  confirm-shows_guest (press_submit ∷ events) h =
      confirm-shows_guest events (rw (same_phase stay (after locale stay events)) at h)
  confirm-shows_guest (auth_ok ∷ events) h = refl
  confirm-shows_guest (auth_refused code ∷ events) h = confirm-shows_guest events h
  confirm-shows_guest (book_ok ref ∷ events) h = confirm-shows_guest events h
  confirm-shows_guest (book_refused code ∷ events) h = confirm-shows_guest events h

  -- When an event makes the dialog call bookStay, the call is for the stay of the dialog, and
  -- either the guest was signed in when the dialog was opened or a sign-in or a registration was
  -- accepted before.
  pub book_stay-shows_guest :
      (events : List Event) (e : Event) (st : Stay)
      → (next locale stay (after locale stay events) e).call ≡ some (book_stay st)
      → (any shows_guest events ≡ true) × (stay ≡ some st)
  unfolding next signed
  book_stay-shows_guest events press_submit st h =
      let (at_confirm, it) = submit-book stay (after locale stay events) st h in
      (confirm-shows_guest events at_confirm, it)
  book_stay-shows_guest events (open_dialog signed_in) st h = absurd (cc)
  book_stay-shows_guest events (choose_tab is_new) st h =
      let bad : ◌≡◌ {A = Option Call} none (some (book_stay st)) =
        sym (tab_call locale stay is_new (after locale stay events)) ∙ h in
      absurd (cc)
  book_stay-shows_guest events (type_name s) st h = absurd (cc)
  book_stay-shows_guest events (type_phone s) st h = absurd (cc)
  book_stay-shows_guest events (type_password s) st h = absurd (cc)
  book_stay-shows_guest events toggle_show st h = absurd (cc)
  book_stay-shows_guest events auth_ok st h =
      let bad : ◌≡◌ {A = Option Call} none (some (book_stay st)) =
        sym (signed_call stay (after locale stay events)) ∙ h in
      absurd (cc)
  book_stay-shows_guest events (auth_refused code) st h = absurd (cc)
  book_stay-shows_guest events (book_ok ref) st h = absurd (cc)
  book_stay-shows_guest events (book_refused code) st h = absurd (cc)

-- A submission with fields that are filled in calls the API.
submit_ready :
    (stay : Stay) (s : State)
    → s.busy ≡ false
    → is_confirm s.phase ≡ false
    → can_submit s ≡ true
    → looks_like_mobile s.phone ≡ true
    → submit (some stay) s ≡ calls (auth_call s) s
unfolding submit submit_auth can_submit
submit_ready stay s idle asks ready mobile = rw (idle, ready, asks, mobile) refl

-- The four events of a booking by a guest who fills in the fields, the last of which is first.
abbrev pub booked_events : Text → List Event → List Event
booked_events ref events = book_ok ref ∷ press_submit ∷ auth_ok ∷ press_submit ∷ events

-- A guest who is not yet at the confirmation, with no call outstanding and with fields that are
-- filled in and a mobile phone, reaches the page of the booking in four events: submitting calls
-- the sign-in or the registration, once that is accepted submitting again calls bookStay for the
-- stay of the dialog, and its answer goes to the booking with that reference and leaves no call
-- outstanding.
pub next-book_ok :
    (locale : Text) (stay : Stay) (ref : Text) (events : List Event)
    → (after locale (some stay) events).busy ≡ false
    → is_confirm (after locale (some stay) events).phase ≡ false
    → can_submit (after locale (some stay) events) ≡ true
    → looks_like_mobile (after locale (some stay) events).phone ≡ true
    → ((next locale (some stay) (after locale (some stay) events) press_submit).call
        ≡ some (auth_call (after locale (some stay) events)))
      × ((next locale
            (some stay)
            (after locale (some stay) (auth_ok ∷ press_submit ∷ events))
            press_submit).call
          ≡ some (book_stay stay))
      × ((next locale
            (some stay)
            (after locale (some stay) (press_submit ∷ auth_ok ∷ press_submit ∷ events))
            (book_ok ref)).push
          ≡ some (b'/' ∷ (locale ++ (codes "/booking/" ++ ref))))
      × ((after locale (some stay) (booked_events ref events)).busy ≡ false)
unfolding next after submit signed can_submit
next-book_ok locale stay ref events idle asks ready mobile = (
  ap (λ n. n.call) (submit_ready stay (after locale (some stay) events) idle asks ready mobile),
  refl,
  refl,
  refl,
)
