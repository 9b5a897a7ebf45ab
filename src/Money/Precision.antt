-- ===== src/Money/Precision.antt =====
-- `_validate_precision` is the bound of the column type, and the operations are exact within it.
use trueup.Prelude.{◌+◌, ◌/◌, ◌^◌, ◌<◌, ◌≡◌, ◌↔◌, inl, inr, Bool-cases, true, ok, leb, arith}
use trueup.Prelude.Int.{ℤ, abs}
use trueup.Decimal.Digits.{digits_iff}
use trueup.Money.{Kind, money, units, price, scale, precision, integer_digits, make}

-- A value that the column `NUMERIC(precision, scale)` holds.
abbrev pub InRange : Kind → ℤ → Type 0
InRange k z = abs z < 10 ^ precision k

leb_range :
    (k : Kind) (z : ℤ) → (leb (integer_digits k z + scale k) (precision k) ≡ true) ↔ InRange k z
unfolding integer_digits
leb_range money z = ground (arith, digits_iff 14 (abs z / 10 ^ 4) (omega arith))
leb_range units z = ground (arith, digits_iff 22 (abs z / 10 ^ 6) (omega arith))
leb_range price z = ground (arith, digits_iff 12 (abs z / 10 ^ 6) (omega arith))

pub make_ok : (k : Kind) (z : ℤ) → InRange k z → make k z ≡ ok z
unfolding make
make_ok k z h = rw ((leb_range k z).1 h)

pub make-InRange : (k : Kind) (z : ℤ) {r : ℤ} → make k z ≡ ok r → (r ≡ z) × InRange k z
unfolding make
make-InRange k z e = elim (Bool-cases (leb (integer_digits k z + scale k) (precision k))) [
  | inl fits ↦ (ground arith, (leb_range k z).0 fits)
  | inr over ↦ absurd (ground arith)
]

-- The constructor accepts exactly the values of the column type, and changes none of them.
pub make_iff : (k : Kind) (z : ℤ) → (make k z ≡ ok z) ↔ InRange k z
make_iff k z = (λ e. (make-InRange k z e).1, make_ok k z)
