-- ===== src/Reports/Laws.antt =====
-- The average rate, and the years that can be reached.
use sahel.Common.{
  ℕ, ◌+◌, ◌*◌, ◌/◌, ◌≤◌, ◌<◌, ◌≡◌, Option, none, some, ltb, arith, Bool-cases, inl, inr,
}
use native.Mathlib.Nat.{div-mul-le_self, lt-div-mul-add, mul_left_comm}
use sahel.AdminTypes.Timelines.{Report}
use sahel.Reports.{rate, sum, tiles}

-- The quotient by 2 * n, with the sides doubled.
rounded :
    (r n : ℕ)
    → 0 < n
    → let a = (2 * r + n) / (2 * n) in (2 * (a * n) ≤ 2 * r + n) × (2 * r < 2 * (a * n) + n)
rounded r n h =
    let a = (2 * r + n) / (2 * n) in
    let below = div-mul-le_self (2 * r + n) (2 * n) in
    let above = lt-div-mul-add {a = 2 * r + n} {b = 2 * n} (omega (arith, h)) in
    let e : a * (2 * n) ≡ 2 * (a * n) = mul_left_comm a 2 n in
    (omega (arith, below, e), omega (arith, above, e))

rate_lem :
    (r n a : ℕ)
    → rate r n ≡ some a
    → (0 < n) × (2 * (a * n) ≤ 2 * r + n) × (2 * r < 2 * (a * n) + n)
unfolding rate
rate_lem r n a h = elim (Bool-cases (ltb 0 n)) [
  | inl e ↦
      let p : 0 < n = ground (arith, e) in
      let q : (2 * r + n) / (2 * n) ≡ a =
        (let t : ◌≡◌ {A = Option ℕ} (some ((2 * r + n) / (2 * n))) (some a) = rw e at h in cc) in
      (p, rw (← q) (rounded r n p).0, rw (← q) (rounded r n p).1)
  | inr e ↦ let t : ◌≡◌ {A = Option ℕ} none (some a) = rw e at h in absurd cc
]

-- The average rate of the tiles is the one nearest to the revenue by nights, in whole piasters.
pub tiles_lem :
    (percent : ℕ → ℕ → ℕ) (r : Report) (a : ℕ)
    → (tiles percent r).average ≡ some a
    → let t = tiles percent r in
      (0 < t.nights)
      × (2 * (a * t.nights) ≤ 2 * t.revenue + t.nights)
      × (2 * t.revenue < 2 * (a * t.nights) + t.nights)
unfolding tiles
tiles_lem percent r a h =
    rate_lem (sum (λ m. m.revenue) r.months) (sum (λ m. m.nights) r.months) a h
