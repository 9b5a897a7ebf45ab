-- ===== src/Tests/Values.antt =====
-- backend/app/core/money.py and clock.py at concrete values.
use trueup.Prelude.{
  ℕ, ◌%◌, ◌/◌, ◌+◌, ◌*◌, ◌^◌, ◌≤◌, ◌<◌, ◌≡◌, refl, true, false, none, some, List, [], ◌∷◌, length,
  ok, leb, if◌then◌else◌, arith,
}
use trueup.Prelude.Int.{◌≤ℤ◌, ◌<ℤ◌, ℤ, pos, sum_ℤ}
use trueup.Decimal.Rounding.{half_even, half_even_nearest}
use trueup.Money.{money, units, make, mul_price_units}
use trueup.Money.Precision.{InRange}
use trueup.Money.Products.{mul_price_units_nearest}
use trueup.Money.Allocate.{allocate}
use trueup.Money.Allocate.Exact.{allocate_exact}
use trueup.Clock.{MarketClock, next_trading_day, previous_trading_day, max_calendar_search_days}
use trueup.Clock.Search.{next_trading_day-first, previous-next_trading_day}

half_even_nearest_example :
    (2 * (half_even 25 10 * 10) ≤ 2 * 25 + 10)
    × (2 * 25 ≤ 2 * (half_even 25 10 * 10) + 10)
    × (2 * (half_even 25 10 * 10) ≡ 2 * 25 + 10 → half_even 25 10 % 2 ≡ 0)
    × (2 * 25 ≡ 2 * (half_even 25 10 * 10) + 10 → half_even 25 10 % 2 ≡ 0)
half_even_nearest_example = half_even_nearest 25 10 (omega arith)

-- 1.500005 a unit times 3 units.
mul_price_units_nearest_example :
    (2 * (45000 * 10 ^ 8) ≤ 2 * (1500005 * 3000000) + 10 ^ 8)
    × (2 * (1500005 * 3000000) ≤ 2 * (45000 * 10 ^ 8) + 10 ^ 8)
    × InRange money (pos 45000)
    × (pos 0 ≤ℤ pos 1500005 → pos 0 ≤ℤ pos 3000000 → pos 0 ≤ℤ pos 45000)
    × (pos 1500005 <ℤ pos 0 → pos 3000000 <ℤ pos 0 → pos 0 ≤ℤ pos 45000)
    × (pos 0 ≤ℤ pos 1500005 → pos 3000000 <ℤ pos 0 → pos 45000 ≤ℤ pos 0)
    × (pos 1500005 <ℤ pos 0 → pos 0 ≤ℤ pos 3000000 → pos 45000 ≤ℤ pos 0)
unfolding mul_price_units make trueup.Money.integer_digits half_even trueup.Decimal.digits
mul_price_units_nearest_example =
    mul_price_units_nearest (pos 1500005) (pos 3000000) {r = pos 45000} refl

-- 10 quanta by three equal weights.
allocate_exact_example :
    (parts : List ℤ) × (allocate money (pos 10) (pos 1 ∷ pos 1 ∷ pos 1 ∷ []) ≡ ok parts)
    × (sum_ℤ parts ≡ pos 10)
    × (length parts ≡ 3)
allocate_exact_example =
    allocate_exact money (pos 10) (pos 1 ∷ pos 1 ∷ pos 1 ∷ []) (omega arith) refl (omega arith)
      (omega arith) (omega arith)

-- Weights 31, 1 and 1 on 11 quanta leave equal exact remainders of 1/3 in all three places; the
-- 28-digit quotients order them otherwise, and the leftover quantum goes to the second place.
allocate_tie :
    allocate money (pos 11) (pos 31 ∷ pos 1 ∷ pos 1 ∷ []) ≡ ok (pos 10 ∷ pos 1 ∷ pos 0 ∷ [])
unfolding allocate trueup.Money.Allocate.make_all trueup.Money.Allocate.shares
    trueup.Money.Allocate.bump_all trueup.Money.Allocate.slice_to trueup.Decimal.floor
    trueup.Money.Allocate.raw_share trueup.Decimal.quotient trueup.Decimal.in_context
    trueup.Decimal.digits half_even trueup.Money.Allocate.sort_shares
    trueup.Money.Allocate.enumerate trueup.Money.Allocate.insert_share trueup.Decimal.le_magnitude
    trueup.Decimal.fraction trueup.Money.Allocate.bump make trueup.Money.integer_digits
allocate_tie = refl

-- Five days open, two closed.
abbrev pub weekdays : MarketClock
weekdays = record {
  market_date = λ t. t / 100;
  is_trading_day = λ d. leb (d % 7) 4;
  session_close = λ d. if leb (d % 7) 4 then some (d * 100 + 70) else none;
}

next_trading_day-first_example :
    (11 < 14)
    × (14 ≤ 11 + max_calendar_search_days)
    × (leb (14 % 7) 4 ≡ true)
    × ((x : ℕ) → 11 < x → x < 14 → leb (x % 7) 4 ≡ false)
unfolding next_trading_day trueup.Clock.search_day trueup.Clock.day_after
next_trading_day-first_example = next_trading_day-first weekdays 11 {r = 14} refl

previous-next_trading_day_example : previous_trading_day weekdays 14 ≡ ok 11
unfolding next_trading_day trueup.Clock.search_day trueup.Clock.day_after
previous-next_trading_day_example =
    previous-next_trading_day weekdays 11 {r = 14} (omega arith) refl refl
