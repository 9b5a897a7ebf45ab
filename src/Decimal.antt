-- ===== src/Decimal.antt =====
-- Python's `decimal` under its default context (28 significant digits, ROUND_HALF_EVEN), as
-- backend/app/core/money.py uses it. A magnitude is a count of units of 10^-scale; the sign is
-- kept apart, since every rounding there is symmetric.
pub mod Rounding
pub mod Digits
pub mod Quotient
pub mod Signed
use trueup.Prelude.{ℕ, zero, suc, ◌+◌, ◌-◌, ◌*◌, ◌/◌, ◌%◌, ◌^◌, Bool, ltb, leb, ◌==◌, if◌then◌else◌}
use trueup.Decimal.Rounding.{half_even}

pub record Magnitude : Type 0 where
  pub coef : ℕ
  pub scale : ℕ

abbrev pub prec : ℕ
prec = 28

-- The number of decimal digits; 64 rounds exceed those of a product of two coefficients.
digits_on : ℕ → ℕ → ℕ
digits_on zero n = 0
digits_on (suc fuel) n = let rest = digits_on fuel (n / 10) in if n == 0 then 0 else suc rest

unfoldable pub digits : ℕ → ℕ
unfolding digits_on
digits n = digits_on 64 n

-- An integer result, rounded to the context.
unfoldable pub in_context : ℕ → ℕ
in_context n =
    let k = digits n - prec in if leb (digits n) prec then n else half_even n (10 ^ k) * 10 ^ k

-- n / d to 28 significant digits. The first scale gives 28 or 29 digits.
unfoldable pub quotient : ℕ → ℕ → Magnitude
quotient n d =
    let s = prec + digits d - digits n in
    if ltb (n * 10 ^ s / d) (10 ^ prec)
    then record { coef = half_even (n * 10 ^ s) d; scale = s }
    else record { coef = half_even (n * 10 ^ (s - 1)) d; scale = s - 1 }

-- `to_integral_value(rounding=ROUND_DOWN)`
unfoldable pub floor : Magnitude → ℕ
floor m = m.coef / 10 ^ m.scale

-- `raw - base`, where `base` is the floor.
unfoldable pub fraction : Magnitude → Magnitude
fraction m = record { coef = m.coef % 10 ^ m.scale; scale = m.scale }

-- `a <= b` on magnitudes.
unfoldable pub le_magnitude : Magnitude → Magnitude → Bool
le_magnitude a b = leb (a.coef * 10 ^ b.scale) (b.coef * 10 ^ a.scale)

-- `quantize` of m * 10^shift to an integer count of units.
unfoldable pub quantize : Magnitude → ℕ → ℕ
quantize m shift = half_even (m.coef * 10 ^ shift) (10 ^ m.scale)
