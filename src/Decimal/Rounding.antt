-- ===== src/Decimal/Rounding.antt =====
-- ROUND_HALF_EVEN of a quotient of natural numbers.
use trueup.Prelude.{
  ℕ, ◌+◌, ◌*◌, ◌/◌, ◌%◌, ◌≤◌, ◌<◌, ◌≡◌, ap, ltb, ◌==◌, if◌then◌else◌, arith, ◌⊎◌, inl, inr,
}
use native.Mathlib.Nat.{div-add-mod, mod-lt, mul-div_cancel, le-div_iff_mul-le}

-- n / d to the nearest integer, a tie to the even one.
unfoldable pub half_even : ℕ → ℕ → ℕ
half_even n d =
    let q = n / d in
    let r = n % d in
    if ltb (2 * r) d then q else if ltb d (2 * r) then q + 1 else if q % 2 == 0 then q else q + 1

pub half_even-cases :
    (n d : ℕ)
    → (half_even n d ≡ n / d) × (2 * (n % d) ≤ d) × (2 * (n % d) ≡ d → n / d % 2 ≡ 0)
      ⊎ (half_even n d ≡ n / d + 1) × (d ≤ 2 * (n % d)) × (2 * (n % d) ≡ d → (n / d + 1) % 2 ≡ 0)
unfolding half_even
half_even-cases n d = pick (n / d) (n % d)
  where
    pick :
        (q r : ℕ)
        → let t =
            if ltb (2 * r) d
            then q
            else if ltb d (2 * r)
            then q + 1
            else if q % 2 == 0
            then q
            else q + 1 in
          (t ≡ q) × (2 * r ≤ d) × (2 * r ≡ d → q % 2 ≡ 0)
          ⊎ (t ≡ q + 1) × (d ≤ 2 * r) × (2 * r ≡ d → (q + 1) % 2 ≡ 0)
    pick q r = ground arith

-- The rounding error is at most half of the divisor, on either side; a tie rounds to an even
-- result.
pub half_even_nearest :
    (n d : ℕ)
    → 0 < d
    → (2 * (half_even n d * d) ≤ 2 * n + d)
      × (2 * n ≤ 2 * (half_even n d * d) + d)
      × (2 * (half_even n d * d) ≡ 2 * n + d → half_even n d % 2 ≡ 0)
      × (2 * n ≡ 2 * (half_even n d * d) + d → half_even n d % 2 ≡ 0)
half_even_nearest n d h = elim (half_even-cases n d) [
  | inl (e, low, tie) ↦ rw e (grind (arith, div-add-mod n d, mod-lt n h))
  | inr (e, high, tie) ↦ rw e (grind (arith, div-add-mod n d, mod-lt n h))
]

-- An exact quotient is not changed.
pub half_even-mul : (q d : ℕ) → 0 < d → half_even (q * d) d ≡ q
half_even-mul q d h = elim (half_even-cases (q * d) d) [
  | inl (e, low, tie) ↦ rw e (mul-div_cancel q h)
  | inr (e, high, tie) ↦ absurd (
      omega (
        arith,
        mod-lt (q * d) h,
        div-add-mod (q * d) d,
        ap (λ (t : ℕ). d * t) (mul-div_cancel q h),
      ))
]

-- Rounding is monotone below a multiple: what is below q wholes by more than half stays below q.
pub half_even-lt : (n d q : ℕ) → 0 < d → 2 * n + d < 2 * (q * d) → half_even n d < q
half_even-lt n d q h below = ground (arith, half_even_nearest n d h, scale)
  where
    scale : q ≤ half_even n d → q * d ≤ half_even n d * d
    scale le = grind arith

pub half_even-ge : (n d q : ℕ) → 0 < d → q * d ≤ n → q ≤ half_even n d
half_even-ge n d q h above = elim (half_even-cases n d) [
  | inl (e, low, tie) ↦ rw e ((le-div_iff_mul-le h).1 above)
  | inr (e, high, tie) ↦ rw e (omega (arith, (le-div_iff_mul-le h).1 above))
]
