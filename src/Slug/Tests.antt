-- ===== src/Slug/Tests.antt =====
-- Slugs of titles; the folding of the platform is given for plain texts only.
use sahel.Common.{◌≡◌, refl, [], ◌∷◌}
use sahel.Js.Text.{codes, is_empty}
use sahel.Js.Digits.{is_digit}
use sahel.Slug.{is_slug_char, collapse, strip_start, strip_end, slugify}
use sahel.Slug.Words.{joined, words, slugify_lem}

slugs : Unit {0}
unfolding is_digit is_empty is_slug_char collapse strip_start strip_end slugify
slugs = tt

runs :
    (slugify (λ s. s) (codes " sea view -- 2 ") ≡ codes "sea-view-2")
    × (slugify (λ s. s) (codes "--") ≡ [])
    × (words (codes "a, b") ≡ codes "a" ∷ codes "b" ∷ [])
unfolding slugs
runs = (refl, refl, refl)

slugify_lem_example : slugify (λ s. s) (codes " sea view! ") ≡ joined (words (codes " sea view! "))
slugify_lem_example = slugify_lem (λ s. s) (codes " sea view! ")
