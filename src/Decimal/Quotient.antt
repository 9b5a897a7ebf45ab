-- ===== src/Decimal/Quotient.antt =====
-- Where the context rounding cannot be seen: the integer part of a quotient.
use native.Mathlib.Nat.{div-add-mod, mod-lt, le-div_iff_mul-le, mul-div-le, mul-le-mul_right}
use native.Mathlib.Nat.{pow-suc}
use trueup.Prelude.{
  ℕ, zero, suc, ◌+◌, ◌-◌, ◌*◌, ◌/◌, ◌^◌, ◌≤◌, ◌<◌, ◌≡◌, ltb, if◌then◌else◌, inl, inr, arith,
  Bool-cases,
}
use trueup.Decimal.{digits, prec, quotient, floor}
use trueup.Decimal.Rounding.{half_even, half_even-lt, half_even-ge}
use trueup.Decimal.Digits.{pow_pos, digits_iff}

-- What lies between q and q + 1 wholes has the quotient q.
div_between : (c e q : ℕ) → 0 < e → q * e ≤ c → c < (q + 1) * e → c / e ≡ q
div_between c e q h low high = omega (arith, (le-div_iff_mul-le h).1 low, above)
  where
    above : ¬ (q + 1 ≤ c / e)
    above le = absurd (omega (arith, (le-div_iff_mul-le h).0 le))

-- With a scale at least as fine as the divisor, rounding does not reach the next integer.
floor_half_even : (p w e : ℕ) → 0 < w → w ≤ e → half_even (p * e) w / e ≡ p / w
floor_half_even p w e h fine =
    div_between (half_even (p * e) w) e (p / w) (omega arith)
      (half_even-ge (p * e) w (p / w * e) h low) (half_even-lt (p * e) w ((p / w + 1) * e) h high)
  where
    low : p / w * e * w ≤ p * e
    low = omega (arith, mul-le-mul_right e (mul-div-le p w))

    room : (p + 1) * e ≤ (w * (p / w) + w) * e
    room = mul-le-mul_right e (omega (arith, div-add-mod p w, mod-lt p h))

    high : 2 * (p * e) + w < 2 * ((p / w + 1) * e * w)
    high = omega (arith, room)

-- The scale that `quotient` picks is finer than the divisor if the dividend is below 10^27.
unfoldable pub scale_of : ℕ → ℕ → ℕ
scale_of n d =
    let s = prec + digits d - digits n in if ltb (n * 10 ^ s / d) (10 ^ prec) then s else s - 1

quotient-scale_of :
    (n d : ℕ)
    → quotient n d ≡ record { coef = half_even (n * 10 ^ scale_of n d) d; scale = scale_of n d }
unfolding quotient scale_of
quotient-scale_of n d =
    elim (Bool-cases (ltb (n * 10 ^ (prec + digits d - digits n) / d) (10 ^ prec))) [
      | inl fits ↦ rw fits
      | inr over ↦ rw over
    ]

pow_mono : (j k : ℕ) → j ≤ k → 10 ^ j ≤ 10 ^ k
pow_mono zero k h = pow_pos k
pow_mono (suc j) zero h = absurd (omega arith)
pow_mono (suc j) (suc k) h = rw (pow-suc, pow-suc) (omega (arith, pow_mono j k (omega arith)))

digits-le-scale_of : (n d : ℕ) → digits n ≤ 27 → digits d ≤ scale_of n d
unfolding scale_of
digits-le-scale_of n d h = ground arith

divisor-le-pow : (d k : ℕ) → d < 10 ^ 63 → digits d ≤ k → d ≤ 10 ^ k
divisor-le-pow d k small h = omega (
  arith,
  (digits_iff (digits d) d (omega (arith, (digits_iff 63 d (omega arith)).1 small))).0
      (omega arith),
  pow_mono (digits d) k h,
)

-- The integer part of a rounded quotient is the integer quotient.
pub floor-quotient : (n d : ℕ) → 0 < d → n < 10 ^ 27 → d < 10 ^ 63 → floor (quotient n d) ≡ n / d
unfolding floor
floor-quotient n d h small dsmall = rw quotient-scale_of (
    floor_half_even n d (10 ^ scale_of n d) h (
      divisor-le-pow d (scale_of n d) dsmall
        (digits-le-scale_of n d ((digits_iff 27 n (omega arith)).1 small))))
