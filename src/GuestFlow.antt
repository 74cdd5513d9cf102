-- ===== src/GuestFlow.antt =====
-- web/src/components/public/guest-flow.tsx: signing in or creating an account, and then confirming a
-- booking, in one dialog. Events are what the guest does and what the server actions of
-- web/src/app/[locale]/(public)/guest-actions.ts answer; a failed call ends the dialog.
pub mod Laws
mod Tests
use sahel.Common.{
  ℕ, Bool, true, false, not, ◌&&◌, ◌||◌, Option, none, some, List, [], ◌∷◌, ◌++◌, leb,
  if◌then◌else◌,
}
use sahel.Common.Lists.{length, take}
use sahel.Js.Text.{Text, codes, is_empty}
use sahel.Js.Text.Trim.{trim}
use sahel.Phone.{looks_like_mobile}

pub data Phase : Type 0 where
  signin : Phase
  register : Phase
  confirm : Phase

pub record Stay : Type 0 where
  pub slug : Text
  pub check_in : Text
  pub check_out : Text
  pub guests : ℕ

pub record State : Type 0 where
  pub phase : Phase
  pub name : Text
  pub phone : Text
  pub password : Text
  pub show : Bool
  pub error : Option Text
  -- a call that waits for its answer
  pub busy : Bool

abbrev pub initial_state : State
initial_state = record {
  phase = signin;
  name = [];
  phone = [];
  password = [];
  show = false;
  error = none;
  busy = false;
}

-- What a server action is called with.
pub data Call : Type 0 where
  sign_up : (name phone password : Text) → Call
  sign_in : (phone password : Text) → Call
  book_stay : (stay : Stay) → Call

pub data Event : Type 0 where
  open_dialog : (signed_in : Bool) → Event
  choose_tab : (is_new : Bool) → Event
  type_name : (s : Text) → Event
  type_phone : (s : Text) → Event
  type_password : (s : Text) → Event
  toggle_show : Event
  press_submit : Event
  -- the answers, with the code of a refusal
  auth_ok : Event
  auth_refused : (code : Text) → Event
  book_ok : (ref : Text) → Event
  book_refused : (code : Text) → Event

-- What an event makes of the dialog: its state, a call, a page to go to, and whether it closes.
pub record Next : Type 0 where
  pub state : State
  pub call : Option Call
  pub push : Option Text
  pub close : Bool

abbrev pub still : State → Next
still s = record { state = s; call = none; push = none; close = false }

abbrev pub fail : Text → State → State
fail code s = record s { error = some code }

abbrev pub is_confirm : Phase → Bool
is_confirm signin = false
is_confirm register = false
is_confirm confirm = true

abbrev pub is_register : Phase → Bool
is_register signin = false
is_register register = true
is_register confirm = false

unfoldable pub can_submit : State → Bool
can_submit s =
    is_confirm s.phase
    || (not (is_empty (trim s.phone))
        && leb 8 (length s.password)
        && (not (is_register s.phase) || leb 2 (length (trim s.name))))

abbrev pub auth_call : State → Call
auth_call s =
    if is_register s.phase then sign_up s.name s.phone s.password else sign_in s.phone s.password

abbrev pub calls : Call → State → Next
calls c s = record { state = record s { busy = true }; call = some c; push = none; close = false }

unfoldable pub submit_auth : State → Next
submit_auth s =
    if looks_like_mobile s.phone
    then calls (auth_call s) s
    else still (fail (codes "invalid_phone") s)

abbrev pub confirm_stay : Option Stay → State → Next
confirm_stay none s = still s
confirm_stay (some stay) s = calls (book_stay stay) s

-- The button is off while a call waits and where the fields are not filled in.
unfoldable pub submit : Option Stay → State → Next
submit stay s =
    if s.busy || not (can_submit s)
    then still s
    else if is_confirm s.phase
    then confirm_stay stay s
    else submit_auth s

abbrev pub has_stay : Option Stay → Bool
has_stay none = false
has_stay (some stay) = true

-- `done`, after an answer that is no refusal.
unfoldable pub signed : Option Stay → State → Next
signed none s = record {
  state = record s { error = none; password = []; busy = false };
  call = none;
  push = none;
  close = true;
}
signed (some stay) s =
    still (record s { error = none; password = []; busy = false; phase = confirm })

module _ (locale : Text) (stay : Option Stay) where
  unfoldable pub next : State → Event → Next
  next s (open_dialog signed_in) =
      still
        (record s { error = none; phase = if signed_in && has_stay stay then confirm else signin })
  next s (choose_tab is_new) =
      if is_confirm s.phase
      then still s
      else still (record s { phase = if is_new then register else signin; error = none })
  next s (type_name t) = still (record s { name = take 80 t })
  next s (type_phone t) = still (record s { phone = t })
  next s (type_password t) = still (record s { password = take 72 t })
  next s toggle_show = still (record s { show = not s.show })
  next s press_submit = submit stay s
  next s auth_ok = signed stay s
  next s (auth_refused code) = still (fail code (record s { busy = false }))
  next s (book_ok ref) = record {
    state = record s { busy = false };
    call = none;
    push = some (b'/' ∷ (locale ++ (codes "/booking/" ++ ref)));
    close = false;
  }
  next s (book_refused code) = still (fail code (record s { busy = false }))

  -- The state after events, the last of which is the first of the list.
  unfoldable pub after : List Event → State
  after [] = initial_state
  after (e ∷ events) = (next (after events) e).state
