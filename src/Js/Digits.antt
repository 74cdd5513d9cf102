-- ===== src/Js/Digits.antt =====
-- Decimal numerals: `String(n)` and `Number(s)` for natural numbers, `\d`, and the fixed-width
-- numerals of `Date.prototype.toISOString`.
use Prim.Native.Nat.{ℕ, zero, suc, ◌+◌, ◌-◌, ◌*◌, ◌/◌, ◌%◌, ◌<◌}
use mathlib.Core.Path.{◌≡◌, refl}
use mathlib.Core.Logic.{◌≢◌, inl, inr}
use mathlib.Core.Bool.{Bool, true, ◌&&◌}
use mathlib.Core.List.{[], ◌∷◌, ◌++◌}
use native.Mathlib.Omega.{arith}
use sahel.Common.{ltb, leb, if◌then◌else◌, Bool-cases}
use sahel.Common.Lists.{all, all-append, append-cons-ne-nil}
use sahel.Js.Text.{Text}

-- The class \d.
unfoldable pub is_digit : ℕ → Bool
is_digit c = leb b'0' c && leb c b'9'

-- The value of a numeral, read after `n`.
unfoldable pub number_from : ℕ → Text → ℕ
number_from n [] = n
number_from n (c ∷ s) = number_from (n * 10 + (c - b'0')) s

-- Number(s) for a string of digits.
abbrev pub number : Text → ℕ
number s = number_from 0 s

-- The digits of `n`, of which there are fewer than the fuel.
unfoldable pub digits : ℕ → ℕ → Text
digits zero n = []
digits (suc fuel) n =
    let more = digits fuel (n / 10) ++ (b'0' + n % 10) ∷ [] in
    if ltb n 10 then (b'0' + n) ∷ [] else more

-- String(n) for a natural number.
unfoldable pub numeral : ℕ → Text
unfolding digits
numeral n = digits (suc n) n

pub number_from-append :
    (n : ℕ) (s t : Text) → number_from n (s ++ t) ≡ number_from (number_from n s) t
unfolding number_from
number_from-append n [] t = refl
number_from-append n (c ∷ s) t = number_from-append (n * 10 + (c - b'0')) s t

number-digits : (fuel n : ℕ) → n < fuel → number (digits fuel n) ≡ n
unfolding digits number_from
number-digits zero n h = absurd (omega arith)
number-digits (suc fuel) n h = elim (Bool-cases (ltb n 10)) [
  | inl small ↦ rw small (omega arith)
  | inr large ↦
      rw (large, number_from-append 0 (digits fuel (n / 10)) ((b'0' + n % 10) ∷ []))
        (ground (arith, number-digits fuel (n / 10)))
]

-- Reading back a printed number gives the number.
pub number-numeral : (n : ℕ) → number (numeral n) ≡ n
unfolding numeral
number-numeral n = number-digits (suc n) n (omega arith)

digits-is_digit : (fuel n : ℕ) → all is_digit (digits fuel n) ≡ true
unfolding digits is_digit
digits-is_digit zero n = refl
digits-is_digit (suc fuel) n = elim (Bool-cases (ltb n 10)) [
  | inl small ↦ rw small (ground arith)
  | inr large ↦
      rw (large, all-append is_digit (digits fuel (n / 10)) ((b'0' + n % 10) ∷ []))
        (ground (arith, digits-is_digit fuel (n / 10)))
]

-- A printed number has only digits.
pub numeral-is_digit : (n : ℕ) → all is_digit (numeral n) ≡ true
unfolding numeral
numeral-is_digit n = digits-is_digit (suc n) n

-- A printed number has at least one digit.
pub numeral-ne-nil : (n : ℕ) → numeral n ≢ []
unfolding numeral digits
numeral-ne-nil n = elim (Bool-cases (ltb n 10)) [
  | inl small ↦ rw small (λ e. cc)
  | inr large ↦ rw large (λ e. append-cons-ne-nil _ _ e)
]

-- n.toString().padStart(2, "0") and its four-digit form, for numbers of at most that many digits.
unfoldable pub pad2 : ℕ → Text
pad2 n = (b'0' + n / 10) ∷ (b'0' + n % 10) ∷ []

unfoldable pub pad4 : ℕ → Text
pad4 n = (b'0' + n / 1000) ∷ (b'0' + n / 100 % 10) ∷ (b'0' + n / 10 % 10) ∷ (b'0' + n % 10) ∷ []
