-- ===== src/Clock/Search.antt =====
-- Where the searches for a trading day stop.
use trueup.Prelude.{
  ℕ, zero, suc, ◌+◌, ◌-◌, ◌<◌, ◌≤◌, ◌≡◌, inl, inr, Bool, true, false, Bool-cases, Result, ok, leb,
  >>=-eq-ok, arith,
}
use native.Mathlib.Decide.{ℕ_discrete}
use trueup.Errors.{Error}
use trueup.Clock.{
  MarketClock, max_calendar_search_days, last_date, day_after, day_before, search_day,
  next_trading_day, previous_trading_day,
}

day_after-ok : (d : ℕ) {r : ℕ} → day_after d ≡ ok r → (r ≡ suc d) × (d < last_date)
unfolding day_after
day_after-ok d e = ground arith

-- The days that a search forward passes over.
search_after :
    (trades : ℕ → Bool) (n d : ℕ) {r : ℕ}
    → search_day trades day_after n d ≡ ok r
    → (d < r)
      × (r ≤ d + n)
      × (r ≤ last_date)
      × (trades r ≡ true)
      × ((x : ℕ) → d < x → x < r → trades x ≡ false)
unfolding search_day
search_after trades zero d e = cc
search_after trades (suc n) d {r} e =
    let (m, stepped, e') = >>=-eq-ok (day_after d) _ e in
    let (is, in_range) = day_after-ok d stepped in
    elim (Bool-cases (trades m)) [
      | inl yes_it ↦
          let same : ◌≡◌ {A = Result Error ℕ} (ok m) (ok r) = rw yes_it at e' in
          let at_once : m ≡ r = cc in
          (
            omega arith,
            omega arith,
            omega arith,
            rw (← at_once) yes_it,
            λ x l h. absurd (omega arith),
          )
      | inr closed ↦
          let (after, within, bound, last, passed) = search_after trades n m (rw closed at e') in
          (omega arith, omega arith, bound, last, λ x l h. between m is closed passed x l h)
    ]
  where
    between :
        (m : ℕ)
        → m ≡ suc d
        → trades m ≡ false
        → ((x : ℕ) → m < x → x < r → trades x ≡ false)
        → (x : ℕ) → d < x
        → x < r
        → trades x ≡ false
    between m is closed passed x l h = elim (ℕ_discrete x m) [
      | yes same ↦ rw same closed
      | no ne ↦ passed x (omega arith) h
    ]

-- A search backward passes over closed days until it meets the first open one.
search_before :
    (trades : ℕ → Bool) (n r d : ℕ)
    → 1 ≤ d
    → d < r
    → r ≤ d + n
    → trades d ≡ true
    → ((x : ℕ) → d < x → x < r → trades x ≡ false)
    → search_day trades day_before n r ≡ ok d
unfolding search_day day_before
search_before trades zero r d one lt near yes_it passed = absurd (omega arith)
search_before trades (suc n) r d one lt near yes_it passed =
    let inside : leb r 1 ≡ false = ground arith in
    elim (ℕ_discrete (r - 1) d) [
      | yes same ↦ rw (inside, same, yes_it)
      | no ne ↦
          let closed : trades (r - 1) ≡ false = passed (r - 1) (omega arith) (omega arith) in
          let rest =
            search_before trades n (r - 1) d one (omega arith) (omega arith) yes_it
              λ x l h. passed x l (omega arith) in
          rw (inside, closed, rest)
    ]

-- `next_trading_day` returns the first trading day after the date, at most 14 days on.
pub next_trading_day-first :
    (clock : MarketClock) (d : ℕ) {r : ℕ}
    → next_trading_day clock d ≡ ok r
    → (d < r)
      × (r ≤ d + max_calendar_search_days)
      × (clock.is_trading_day r ≡ true)
      × ((x : ℕ) → d < x → x < r → clock.is_trading_day x ≡ false)
unfolding next_trading_day
next_trading_day-first clock d e =
    let (after, near, _, trades, passed) =
      search_after clock.is_trading_day max_calendar_search_days d e in
    (after, near, trades, passed)

-- From a trading day (a date, so at least 1), a step forward and a step back return to it.
pub previous-next_trading_day :
    (clock : MarketClock) (d : ℕ) {r : ℕ}
    → 1 ≤ d
    → clock.is_trading_day d ≡ true
    → next_trading_day clock d ≡ ok r
    → previous_trading_day clock r ≡ ok d
unfolding previous_trading_day
previous-next_trading_day clock d {r} one trades e =
    let (after, near, _, passed) = next_trading_day-first clock d e in
    search_before clock.is_trading_day max_calendar_search_days r d one after near trades passed
