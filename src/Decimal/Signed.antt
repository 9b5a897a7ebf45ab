-- ===== src/Decimal/Signed.antt =====
-- Python's `decimal` with a sign, under the same context: the numbers that are no Money, Units or
-- Price (ratios, returns, weights).
use trueup.Prelude.{ℕ, ◌+◌, ◌-◌, ◌*◌, ◌^◌, Result, ok, err, leb, ltb, if◌then◌else◌}
use trueup.Prelude.Int.{ℤ, pos, ◌+ℤ◌, ◌-ℤ◌, ◌*ℤ◌, abs, with_sign}
use trueup.Errors.{Error, invalid_operation}
use trueup.Decimal.{prec, digits, in_context, quotient}
use trueup.Decimal.Rounding.{half_even}

-- value * 10^-scale
pub record SignedDecimal : Type 0 where
  pub value : ℤ
  pub scale : ℕ

abbrev pub one : SignedDecimal
one = record { value = pos 1; scale = 0 }

abbrev pub of_quanta : ℤ → ℕ → SignedDecimal
of_quanta value scale = record { value = value; scale = scale }

-- The rounding of an exact result to the context's 28 digits.
unfoldable pub rounded : SignedDecimal → SignedDecimal
rounded d =
    let k = digits (abs d.value) - prec in
    if leb k d.scale
    then record {
      value = with_sign d.value (half_even (abs d.value) (10 ^ k));
      scale = d.scale - k;
    }
    else record d { value = with_sign d.value (in_context (abs d.value)) }

abbrev pub larger : ℕ → ℕ → ℕ
larger a b = if ltb a b then b else a

-- The value counted in units of 10^-scale, for a scale that is fine enough.
abbrev pub at_scale : ℕ → SignedDecimal → ℤ
at_scale scale d = d.value *ℤ pos (10 ^ (scale - d.scale))

unfoldable pub plus : SignedDecimal → SignedDecimal → SignedDecimal
plus a b =
    let scale = larger a.scale b.scale in
    rounded (record { value = at_scale scale a +ℤ at_scale scale b; scale = scale })

unfoldable pub minus : SignedDecimal → SignedDecimal → SignedDecimal
minus a b =
    let scale = larger a.scale b.scale in
    rounded (record { value = at_scale scale a -ℤ at_scale scale b; scale = scale })

unfoldable pub product : SignedDecimal → SignedDecimal → SignedDecimal
product a b = rounded (record { value = a.value *ℤ b.value; scale = a.scale + b.scale })

-- The quotient of two counts of one quantum, by a divisor that is not 0.
unfoldable pub ratio : ℤ → ℤ → SignedDecimal
ratio a b =
    let q = quotient (abs a) (abs b) in
    record { value = with_sign b (q.coef) *ℤ with_sign a 1; scale = q.scale }

-- `quantize` to that many places, half-even; a result past the context's digits is refused.
unfoldable pub quantize_to : ℕ → SignedDecimal → Result Error ℤ
quantize_to places d =
    let q = half_even (abs d.value * 10 ^ places) (10 ^ d.scale) in
    if leb (digits q) prec then ok (with_sign d.value q) else err invalid_operation
