-- ===== src/Money/Products.antt =====
-- `Price * Units` is the nearest Money, and is refused exactly where that does not fit.
use trueup.Prelude.{ℕ, ◌+◌, ◌*◌, ◌^◌, ◌≤◌, ◌≡◌, true, false, Bool, ok, arith}
use trueup.Prelude.Int.{ℤ, pos, abs, neg, ◌≤ℤ◌, ◌<ℤ◌}
use trueup.Decimal.Rounding.{half_even, half_even_nearest}
use trueup.Money.{money, mul_price_units, signed, is_negative}
use trueup.Money.Precision.{InRange, make-InRange}

pub abs-signed : (a b : Bool) (n : ℕ) → abs (signed a b n) ≡ n
unfolding neg
abs-signed false false n = ground arith
abs-signed true true n = ground arith
abs-signed false true n = ground arith
abs-signed true false n = ground arith

signed-sign :
    (p u : ℤ) (n : ℕ)
    → (pos 0 ≤ℤ p → pos 0 ≤ℤ u → pos 0 ≤ℤ signed (is_negative p) (is_negative u) n)
      × (p <ℤ pos 0 → u <ℤ pos 0 → pos 0 ≤ℤ signed (is_negative p) (is_negative u) n)
      × (pos 0 ≤ℤ p → u <ℤ pos 0 → signed (is_negative p) (is_negative u) n ≤ℤ pos 0)
      × (p <ℤ pos 0 → pos 0 ≤ℤ u → signed (is_negative p) (is_negative u) n ≤ℤ pos 0)
unfolding neg
signed-sign p u n = ground arith

-- A product that is returned has the sign of the exact one, or is zero, its magnitude is off by at most
-- half a quantum of Money, and it fits the column.
pub mul_price_units_nearest :
    (p u : ℤ) {r : ℤ}
    → mul_price_units p u ≡ ok r
    → (2 * (abs r * 10 ^ 8) ≤ 2 * (abs p * abs u) + 10 ^ 8)
      × (2 * (abs p * abs u) ≤ 2 * (abs r * 10 ^ 8) + 10 ^ 8)
      × InRange money r
      × (pos 0 ≤ℤ p → pos 0 ≤ℤ u → pos 0 ≤ℤ r)
      × (p <ℤ pos 0 → u <ℤ pos 0 → pos 0 ≤ℤ r)
      × (pos 0 ≤ℤ p → u <ℤ pos 0 → r ≤ℤ pos 0)
      × (p <ℤ pos 0 → pos 0 ≤ℤ u → r ≤ℤ pos 0)
unfolding mul_price_units
mul_price_units_nearest p u {r} h =
    let (e, fits) = make-InRange money _ h in
    let n = half_even (abs p * abs u) (10 ^ 8) in
    let m : abs r ≡ n = rw e (abs-signed (is_negative p) (is_negative u) n) in
    let near = half_even_nearest (abs p * abs u) (10 ^ 8) (omega arith) in
    let (pp, nn, pn, np) = signed-sign p u n in
    rw m (
      near.0,
      near.1,
      rw (← m) (rw e fits),
      λ x y. rw e (pp x y),
      λ x y. rw e (nn x y),
      λ x y. rw e (pn x y),
      λ x y. rw e (np x y),
    )
