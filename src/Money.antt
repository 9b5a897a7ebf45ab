-- ===== src/Money.antt =====
-- backend/app/core/money.py: `Money`, `Units` and `Price`. A value is the integer count of its
-- quanta (10^-4 for Money, 10^-6 for Units and Price), which is what `_value` holds after
-- `quantize`; a Python value of another class is a type error there and is not written here.
pub mod Precision
pub mod Products
pub mod Allocate
use trueup.Prelude.{
  ℕ, ◌+◌, ◌-◌, ◌*◌, ◌/◌, ◌^◌, Bool, true, false, Result, ok, err, leb, ◌==◌, if◌then◌else◌,
}
use trueup.Prelude.Int.{ℤ, pos, negsuc, ◌+ℤ◌, ◌-ℤ◌, ◌*ℤ◌, neg, abs, with_sign}
use trueup.Decimal.{digits, quotient, quantize}
use trueup.Decimal.Rounding.{half_even}
use trueup.Errors.{Error, precision_exceeded, zero_division}

-- The three concrete classes.
pub data Kind : Type 0 where
  money units price : Kind

abbrev pub Money : Type 0
Money = ℤ

abbrev pub Units : Type 0
Units = ℤ

abbrev pub Price : Type 0
Price = ℤ

-- `_scale`
abbrev pub scale : Kind → ℕ
scale money = 4
scale units = 6
scale price = 6

-- `_precision`
abbrev pub precision : Kind → ℕ
precision money = 18
precision units = 28
precision price = 18

-- `len(str(...))` of the integer part: a zero has one digit.
unfoldable pub integer_digits : Kind → ℤ → ℕ
integer_digits k z = let n = abs z / 10 ^ scale k in if n == 0 then 1 else digits n

-- The constructor on a value that is already a count of quanta: `_validate_precision`.
unfoldable pub make : Kind → ℤ → Result Error ℤ
make k z = if leb (integer_digits k z + scale k) (precision k) then ok z else err precision_exceeded

unfoldable pub add : Kind → ℤ → ℤ → Result Error ℤ
add k a b = make k (a +ℤ b)

unfoldable pub sub : Kind → ℤ → ℤ → Result Error ℤ
sub k a b = make k (a -ℤ b)

unfoldable pub negate : Kind → ℤ → Result Error ℤ
negate k a = make k (neg a)

unfoldable pub absolute : Kind → ℤ → Result Error ℤ
absolute k a = make k (pos (abs a))

-- `self * n` for an int scalar. A product past the context's 28 digits is past the precision too.
unfoldable pub times : Kind → ℤ → ℤ → Result Error ℤ
times k a n = make k (a *ℤ n)

abbrev pub is_negative : ℤ → Bool
is_negative (pos _) = false
is_negative (negsuc _) = true

abbrev pub is_zero : ℤ → Bool
is_zero a = abs a == 0

-- A magnitude with the sign of a product or quotient.
abbrev pub signed : Bool → Bool → ℕ → ℤ
signed false false n = pos n
signed true true n = pos n
signed false true n = neg (pos n)
signed true false n = neg (pos n)

-- `Price * Units` and `Units * Price`: 12 decimals, quantized to 4. A product that the context
-- would round has more than 16 integer digits, and is refused with or without that rounding.
unfoldable pub mul_price_units : Price → Units → Result Error Money
mul_price_units p u =
    make money (signed (is_negative p) (is_negative u) (half_even (abs p * abs u) (10 ^ 8)))

-- `Money / Units -> Price`: the quotient to 28 digits, then quantized; 10^-4 over 10^-6 leaves a
-- factor 10^2 and the quantum 10^-6 another 10^6.
unfoldable pub div_money_units : Money → Units → Result Error Price
div_money_units m u =
    if is_zero u
    then err zero_division
    else make price (signed (is_negative m) (is_negative u) (quantize (quotient (abs m) (abs u)) 8))

-- `Money / Price -> Units`.
unfoldable pub div_money_price : Money → Price → Result Error Units
div_money_price m p =
    if is_zero p
    then err zero_division
    else make units (signed (is_negative m) (is_negative p) (quantize (quotient (abs m) (abs p)) 8))
