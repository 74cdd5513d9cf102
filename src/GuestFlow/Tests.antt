-- ===== src/GuestFlow/Tests.antt =====
-- A guest makes an account and books, and the theorems there.
use sahel.Common.{◌≡◌, refl, true, false, Option, some, List, [], ◌∷◌}
use sahel.Common.Lists.{any}
use sahel.Js.Text.{codes, is_empty, starts_with}
use sahel.Js.Text.Trim.{is_space, trim, trim_start, trim_end}
use sahel.Js.Digits.{is_digit}
use sahel.Money.{to_latin}
use sahel.Phone.{is_decoration, bare, national, is_operator, is_mobile, looks_like_mobile}
use sahel.GuestFlow.{
  Stay, Event, open_dialog, choose_tab, type_name, type_phone, type_password, press_submit, auth_ok,
  book_ok, sign_up, book_stay, can_submit, submit, submit_auth, signed, next, after, auth_call,
}
use sahel.GuestFlow.Laws.{booked_events, next-book_ok, shows_guest, book_stay-shows_guest}

flow : Unit {0}
unfolding is_empty starts_with is_space trim trim_start trim_end is_digit to_latin is_decoration
    bare national is_operator is_mobile looks_like_mobile can_submit submit submit_auth signed next
    after
flow = tt

abbrev stay : Stay
stay = record {
  slug = codes "chalet";
  check_in = codes "2027-06-05";
  check_out = codes "2027-06-07";
  guests = 2;
}

-- Last first.
abbrev filled : List Event
filled =
    type_password (codes "longenough")
    ∷ type_phone (codes "010 1234 5678")
    ∷ type_name (codes "Mona")
    ∷ choose_tab true
    ∷ open_dialog false
    ∷ []

abbrev accepted : List Event
accepted = auth_ok ∷ press_submit ∷ filled

runs :
    ((next (codes "en") (some stay) (after (codes "en") (some stay) filled) press_submit).call
      ≡ some (sign_up (codes "Mona") (codes "010 1234 5678") (codes "longenough")))
    × ((next
          (codes "en")
          (some stay)
          (after (codes "en") (some stay) accepted)
          (book_ok (codes "BES-1"))).push
        ≡ some (codes "/en/booking/BES-1"))
    × ((after (codes "en") (some stay) accepted).password ≡ [])
unfolding flow
runs = (refl, refl, refl)

book_stay-shows_guest_example :
    (any shows_guest accepted ≡ true) × (◌≡◌ {A = Option Stay} (some stay) (some stay))
unfolding flow
book_stay-shows_guest_example =
    book_stay-shows_guest (codes "en") (some stay) accepted press_submit stay refl

next-book_ok_example :
    ((next (codes "en") (some stay) (after (codes "en") (some stay) filled) press_submit).call
      ≡ some (auth_call (after (codes "en") (some stay) filled)))
    × ((next (codes "en") (some stay) (after (codes "en") (some stay) accepted) press_submit).call
        ≡ some (book_stay stay))
    × ((next
          (codes "en")
          (some stay)
          (after (codes "en") (some stay) (press_submit ∷ accepted))
          (book_ok (codes "BES-1"))).push
        ≡ some (codes "/en/booking/BES-1"))
    × ((after (codes "en") (some stay) (booked_events (codes "BES-1") filled)).busy ≡ false)
unfolding flow
next-book_ok_example = next-book_ok (codes "en") stay (codes "BES-1") filled refl refl refl refl
