-- ===== src/Labels.antt =====
-- web/src/lib/admin/labels.ts: the tone of a status, and the choice between the two languages.
-- formatWhen is a call of Intl and is left out.
use sahel.Common.{Bool, Option, none, some, List, [], ◌∷◌, map, if◌then◌else◌}
use sahel.Common.Lists.{any}
use sahel.Js.Text.{Text, codes, same, is_empty}

pub data Tone : Type 0 where
  free : Tone
  held : Tone
  confirmed : Tone
  neutral : Tone
  muted : Tone
  blocked : Tone
  attention : Tone
  danger : Tone

abbrev is : Text → Text → Bool
is status s = same status s

unfoldable pub unit_status_tone : Text → Tone
unit_status_tone status =
    if is status (codes "active")
    then confirmed
    else if is status (codes "paused")
    then attention
    else if is status (codes "archived")
    then muted
    else neutral

unfoldable pub booking_status_tone : Text → Tone
booking_status_tone status =
    if any (is status) (codes "confirmed" ∷ codes "checked_in" ∷ [])
    then confirmed
    else if is status (codes "completed")
    then neutral
    else if any (is status) (codes "pending_payment" ∷ codes "awaiting_verification" ∷ [])
    then held
    else if is status (codes "refund_pending")
    then attention
    else muted

-- a || b, of texts that may be missing.
unfoldable pub first_full : Option Text → Option Text → Option Text
first_full none b = b
first_full (some a) b = if is_empty a then b else some a

-- a ?? ""
abbrev pub text_or_blank : Option Text → Text
text_or_blank none = []
text_or_blank (some s) = s

unfoldable pub pick : Text → Option Text → Option Text → Text
pick locale ar en =
    text_or_blank (if same locale (codes "ar") then first_full ar en else first_full en ar)

unfoldable pub other : Text → Option Text → Option Text → Text
other locale ar en = text_or_blank (if same locale (codes "ar") then en else ar)

pub record Choice : Type 0 where
  pub value : Text
  pub label : Text

unfoldable pub enum_options : List Text → (Text → Text) → List Choice
enum_options values label = map (λ v. record { value = v; label = label v }) values
