-- ===== src/Clock.antt =====
-- backend/app/core/clock.py: trading days. A date is its proleptic ordinal, as Python's `date`
-- counts them; the exchange calendar and the zone database are the parameters of a clock.
pub mod Search
use trueup.Prelude.{
  ℕ, zero, suc, ◌-◌, Bool, Option, Result, ok, err, ltb, leb, if◌then◌else◌, ◌>>=◌,
}
use trueup.Errors.{Error, calendar_exhausted, date_out_of_range}

pub record MarketClock : Type 0 where
  pub market_date : ℕ → ℕ
  pub is_trading_day : ℕ → Bool
  pub session_close : ℕ → Option ℕ

-- `_MAX_CALENDAR_SEARCH_DAYS`
abbrev pub max_calendar_search_days : ℕ
max_calendar_search_days = 14

-- `date.max.toordinal()`
abbrev pub last_date : ℕ
last_date = 3652059

-- `candidate += timedelta(days=1)`; past the last date Python raises OverflowError.
unfoldable pub day_after : ℕ → Result Error ℕ
day_after d = if leb last_date d then err date_out_of_range else ok (suc d)

-- `candidate -= timedelta(days=1)`; the first date is 1.
unfoldable pub day_before : ℕ → Result Error ℕ
day_before d = if leb d 1 then err date_out_of_range else ok (d - 1)

-- The loop of both searches, on the rounds that `range` has left.
unfoldable pub search_day : (ℕ → Bool) → (ℕ → Result Error ℕ) → ℕ → ℕ → Result Error ℕ
search_day is_trading_day day zero candidate = err calendar_exhausted
search_day is_trading_day day (suc n) candidate = do
  moved ← day candidate
  let rest = search_day is_trading_day day n moved in
      if is_trading_day moved then ok moved else rest

unfoldable pub next_trading_day : MarketClock → ℕ → Result Error ℕ
next_trading_day clock d = search_day clock.is_trading_day day_after max_calendar_search_days d

unfoldable pub previous_trading_day : MarketClock → ℕ → Result Error ℕ
previous_trading_day clock d = search_day clock.is_trading_day day_before max_calendar_search_days d

-- `add_trading_days` with n at least 0, as every caller has it.
unfoldable pub add_trading_days : MarketClock → ℕ → ℕ → Result Error ℕ
add_trading_days clock d zero = ok d
add_trading_days clock d (suc n) = do next ← next_trading_day clock d; add_trading_days clock next n
