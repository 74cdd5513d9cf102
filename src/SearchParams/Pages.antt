-- ===== src/SearchParams/Pages.antt =====
-- The pages that pageWindow counts.
use native.Mathlib.Nat.{div-add-mod, mod-lt, mul-suc, mul_comm}
use sahel.Common.{
  ℕ, zero, suc, ◌+◌, ◌-◌, ◌*◌, ◌/◌, ◌%◌, ◌<◌, ◌≤◌, ◌≡◌, ◌↔◌, ap, refl, none, some, ltb, inl, inr,
  Bool-cases, arith, if◌then◌else◌,
}
use sahel.SearchParams.Controls.{page_window}

abbrev at_least_one : ℕ → ℕ
at_least_one n = if ltb n 1 then 1 else n

at_least_one-suc : (m : ℕ) → at_least_one (suc m) ≡ suc m
at_least_one-suc m = ground (arith)

-- A quotient that is rounded up.
tiles :
    (q size total r : ℕ)
    → size * q + r ≡ total + (size - 1)
    → r < size
    → (total ≤ at_least_one q * size)
      × ((k : ℕ) → at_least_one q ≡ suc (suc k) → suc k * size < total)
tiles zero size total r whole part = (omega (arith, whole, part), λ k e. absurd (omega (arith, e)))
tiles (suc m) size total r whole part = rw (at_least_one-suc m) (
  let flip = mul_comm size (suc m) in omega (arith, whole, part, flip),
  λ k e.
      let q : m ≡ suc k = omega (arith, e) in
      let same : m * size ≡ suc k * size = ap (λ n. n * size) q in
      let grown = mul-suc size m in
      let flip = mul_comm size m in omega (arith, whole, part, grown, flip, same),
)

ends :
    (page pages : ℕ) → ((if ltb page pages then some (page + 1) else none) ≡ none) ↔ (pages ≤ page)
ends page pages = elim (Bool-cases (ltb page pages)) [
  | inl e ↦ (
    λ h. let bad : some (page + 1) ≡ none = rw e at h in absurd (cc),
    λ h. absurd (ground (arith, e, h)),
  )
  | inr e ↦ (λ h. ground (arith, e), λ h. rw e refl)
]

-- For pages of a size above 0: the pages hold all of the total, no page after the first is empty,
-- and there is a next page exactly when the page is before the last.
pub page_window_lem :
    (page size total : ℕ)
    → 0 < size
    → (total ≤ (page_window page size total).pages * size)
      × ((k : ℕ) → (page_window page size total).pages ≡ suc (suc k) → suc k * size < total)
      × (((page_window page size total).next ≡ none) ↔ ((page_window page size total).pages ≤ page))
unfolding page_window
page_window_lem page size total h =
    let a = total + (size - 1) in
    let (fits, tight) = tiles (a / size) size total (a % size) (div-add-mod a size) (mod-lt a h) in
    (fits, tight, ends page (at_least_one (a / size)))
