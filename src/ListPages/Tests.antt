-- ===== src/ListPages/Tests.antt =====
-- A toast, a dialog and the link to the other language.
use sahel.Common.{◌≡◌, refl, true, false, none}
use sahel.Js.Text.{codes, same, is_empty}
use sahel.ListPages.{is_running, locale_href, show_toast, dismiss, follow, press_escape}

runs :
    (locale_href (codes "ar") (codes "/search") (codes "page=2") ≡ codes "/en/search?page=2")
    × (dismiss 3005 (show_toast 5 (codes "saved") none) ≡ none)
    × (press_escape true (follow true false) ≡ true)
    × (is_running (codes "expired") ≡ false)
unfolding locale_href same is_empty show_toast dismiss follow press_escape
runs = (refl, refl, refl, refl)
