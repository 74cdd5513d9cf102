-- ===== src/Session/Compare.antt =====
-- The comparison in constant time is equality of the encoded bytes.
use Prim.Native.Nat.{bit_or, bit_xor, max}
use mathlib.Core.Path.{ap₂}
use sahel.Common.{ℕ, zero, suc, ◌≤◌, ◌≡◌, refl, ◌↔◌, ap, true, [], ◌∷◌, ==_iff, arith}
use sahel.Common.Lists.{length, get_or}
use sahel.Js.Text.{Text}
use sahel.Js.Bits.{bit_xor-zero_iff, bit_or-zero_iff}
use sahel.Session.{fold_diff, equal_bytes, Platform, constant_time_equal}

-- The bytes agree at the indices from `i` on, for so many rounds.
abbrev Agree : Text → Text → ℕ → ℕ → Type 0
Agree x y zero i = Unit
Agree x y (suc rounds) i = (get_or x i 0 ≡ get_or y i 0) × Agree x y rounds (suc i)

-- The loop ends at zero exactly when it began at zero and the bytes agree.
fold_diff-zero :
    (x y : Text) (rounds i diff : ℕ)
    → (fold_diff x y rounds i diff ≡ 0) ↔ ((diff ≡ 0) × Agree x y rounds i)
unfolding fold_diff
fold_diff-zero x y zero i diff = (λ h. (h, tt), λ h. h.0)
fold_diff-zero x y (suc rounds) i diff =
    let here = bit_xor (get_or x i 0) (get_or y i 0) in
    let rest = fold_diff-zero x y rounds (suc i) (bit_or diff here) in
    (
      λ h.
          let (both, later) = rest.0 h in
          let (start, same) = (bit_or-zero_iff diff here).0 both in
          (start, ((bit_xor-zero_iff _ _).0 same, later)),
      λ h. rest.1 ((bit_or-zero_iff diff here).1 (h.0, (bit_xor-zero_iff _ _).1 h.1.0), h.1.1),
    )

Agree-self : (x : Text) (rounds i : ℕ) → Agree x x rounds i
Agree-self x zero i = tt
Agree-self x (suc rounds) i = (refl, Agree-self x rounds (suc i))

-- Agreement from the second byte on is that of the tails.
Agree-tail :
    (c d : ℕ) (x y : Text) (rounds i : ℕ)
    → Agree (c ∷ x) (d ∷ y) rounds (suc i)
    → Agree x y rounds i
Agree-tail c d x y zero i h = tt
Agree-tail c d x y (suc rounds) i (now, later) = (now, Agree-tail c d x y rounds (suc i) later)

Agree-eq :
    (x y : Text) (rounds : ℕ) → length x ≡ length y → length x ≤ rounds → Agree x y rounds 0 → x ≡ y
Agree-eq [] [] rounds e h a = refl
Agree-eq [] (d ∷ y) rounds e h a = absurd (omega arith)
Agree-eq (c ∷ x) [] rounds e h a = absurd (omega arith)
Agree-eq (c ∷ x) (d ∷ y) zero e h a = absurd (omega arith)
Agree-eq (c ∷ x) (d ∷ y) (suc rounds) e h (now, later) =
    ap₂ (λ b s. b ∷ s) now
      (Agree-eq x y rounds (omega arith) (omega arith) (Agree-tail c d x y rounds 0 later))

equal_bytes_iff : (x y : Text) → (equal_bytes x y ≡ true) ↔ (x ≡ y)
unfolding equal_bytes
equal_bytes_iff x y =
    let rounds = max (length x) (length y) in
    let start = bit_xor (length x) (length y) in
    let loop = fold_diff-zero x y rounds 0 start in
    let test = ==_iff (fold_diff x y rounds 0 start) 0 in
    (
      λ h.
          let (same_length, agree) = loop.0 (test.0 h) in
          Agree-eq x y rounds ((bit_xor-zero_iff _ _).0 same_length) (omega arith) agree,
      λ e. test.1 (loop.1 ((bit_xor-zero_iff _ _).1 (ap length e), rw e (Agree-self y _ 0))),
    )

-- The comparison answers true exactly for texts with the same encoding.
pub constant_time_equal_iff :
    (p : Platform) (a b : Text) → (constant_time_equal p a b ≡ true) ↔ (p.encode a ≡ p.encode b)
unfolding constant_time_equal
constant_time_equal_iff p a b = equal_bytes_iff (p.encode a) (p.encode b)
