-- ===== src/Restatement/Snapshots.antt =====
-- services/restatement/snapshot_service.py: a period's figures at a watermark, published and
-- derived again.
use trueup.Prelude.{
  ℕ, Bool, not, ◌&&◌, ◌||◌, Option, none, some, map, List, [], ◌∷◌, ◌++◌, filter, Result, ok, leb,
  require,
}
use trueup.Prelude.{◌>>=◌ as bind_result}
use trueup.Prelude.Int.{ℤ, pos, eqb_ℤ}
use trueup.Errors.{Error, snapshot_cross_check_failed, snapshot_derivation}
use trueup.Money.{Money, Units, Price}
use trueup.Store.{
  Store, Action, pure, gets, lift, guard, modify, ◌>>=◌, ◌>>◌, DailyClose, SubPeriodReturn,
  SnapshotHolding, PublishedSnapshot,
}
use trueup.Valuation.{newest, latest_confirmed, position_units_of}
use trueup.Valuation.Twr.{boundaries, pairwise, is_window, compute_twr, link}

-- A row that is visible at the watermark.
abbrev pub is_visible : ℕ → SubPeriodReturn → Bool
is_visible cutoff r = leb r.recorded_at cutoff

unfoldable pub as_of_for_sub_period : ℕ → ℕ × ℕ → ℕ → List SubPeriodReturn → Option SubPeriodReturn
as_of_for_sub_period customer window cutoff rows =
    newest (λ r. r.recorded_at)
      (filter (λ r. is_window customer window r && is_visible cutoff r) rows)

-- The balance of the last window, or the first argument if there is none.
unfoldable pub last_value : Money → List SubPeriodReturn → Money
last_value value [] = value
last_value value (r ∷ rs) = last_value r.value_end rs

unfoldable pub derive_windows :
    ℕ → ℕ → List (ℕ × ℕ) → List SubPeriodReturn → Result Error (List SubPeriodReturn)
derive_windows customer cutoff [] rows = ok []
derive_windows customer cutoff (w ∷ ws) rows =
    bind_result (require (as_of_for_sub_period customer w cutoff rows) snapshot_derivation)
      (λ row. bind_result (derive_windows customer cutoff ws rows) (λ rest. ok (row ∷ rest)))

pub record DerivedFigures : Type 0 where
  pub twr : ℤ
  pub balance : Money

unfoldable pub derive : ℕ → ℕ → ℕ → ℕ → Store → Result Error DerivedFigures
derive customer period_start period_end cutoff s =
    bind_result
      (derive_windows customer cutoff
        (pairwise (boundaries customer period_start period_end s.journal_entries s.postings))
        s.sub_period_returns)
      (λ rows.
        bind_result (link rows)
          (λ twr. ok (record { twr = twr; balance = last_value (pos 0) rows })))

-- `_current_holdings`, without the symbols.
abbrev pub price_of : Option DailyClose → Option Price
price_of none = none
price_of (some close) = some close.close_price

abbrev pub holding_of : ℕ → List DailyClose → ℕ × Units → SnapshotHolding
holding_of as_of_date closes held = record {
  security_id = held.0;
  quantity = held.1;
  close_price = price_of (latest_confirmed held.0 as_of_date closes);
}

unfoldable pub current_holdings : ℕ → ℕ → Store → Result Error (List SnapshotHolding)
current_holdings customer as_of_date s =
    bind_result (position_units_of customer as_of_date s)
      (λ held. ok (map (holding_of as_of_date s.daily_closes) held))

-- `publish`, at the database's instant of the transaction.
unfoldable pub publish : ℕ → ℕ → ℕ → ℕ → Action PublishedSnapshot
publish now customer period_start period_end = do
  result ← compute_twr now customer period_start period_end
  listed ← gets (current_holdings customer period_end)
  holdings ← lift listed
  let snapshot : PublishedSnapshot = record {
    customer_id = customer;
    period_start = period_start;
    period_end = period_end;
    publish_watermark = now;
    twr = result.twr;
    balance = last_value (pos 0) result.sub_periods;
    holdings = holdings;
    published_at = now;
  }
  modify (λ s. record s { published_snapshots = s.published_snapshots ++ snapshot ∷ [] })
  pure snapshot

unfoldable pub cross_check : PublishedSnapshot → Action (Unit {0})
cross_check snapshot = do
  computed ← gets (
      derive snapshot.customer_id snapshot.period_start snapshot.period_end
        snapshot.publish_watermark)
  derived ← lift computed
  guard (not (eqb_ℤ derived.twr snapshot.twr) || not (eqb_ℤ derived.balance snapshot.balance))
      snapshot_cross_check_failed
