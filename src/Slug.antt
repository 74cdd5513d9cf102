-- ===== src/Slug.antt =====
-- web/src/lib/slug.ts. `fold` is NFD without the marks of \p{Mn}, in lower case, which the
-- platform gives.
pub mod Words
mod Tests
use sahel.Common.{ℕ, Bool, true, false, ◌&&◌, ◌||◌, List, [], ◌∷◌, leb, ◌==◌, if◌then◌else◌}
use sahel.Js.Text.{Text, is_empty}
use sahel.Js.Digits.{is_digit}

-- [a-z0-9]
unfoldable pub is_slug_char : ℕ → Bool
is_slug_char c = (leb b'a' c && leb c b'z') || is_digit c

-- .replace(/[^a-z0-9]+/g, "-"), where `in_run` says that a run is replaced already.
unfoldable pub collapse : Bool → Text → Text
collapse in_run [] = []
collapse in_run (c ∷ s) =
    let within = collapse false s in
    let run = collapse true s in
    if is_slug_char c then c ∷ within else if in_run then run else b'-' ∷ run

unfoldable pub strip_start : Text → Text
strip_start [] = []
strip_start (c ∷ s) = if c == b'-' then strip_start s else c ∷ s

unfoldable pub strip_end : Text → Text
strip_end [] = []
strip_end (c ∷ s) = let rest = strip_end s in if (c == b'-') && is_empty rest then [] else c ∷ rest

unfoldable pub slugify : (Text → Text) → Text → Text
slugify fold input = strip_end (strip_start (collapse false (fold input)))
