-- ===== src/Reconciliation/Morning.antt =====
-- services/reconciliation/reconciliation_service.py: a morning's run. The raw rows of the files, which
-- it stores first, are not kept.
use trueup.Prelude.{ℕ, not, none, List, [], ◌∷◌, ◌++◌, if◌then◌else◌}
use trueup.Clock.{MarketClock}
use trueup.Store.{
  Action, pure, gets, lift, modify, fresh_id, ◌>>=◌, ◌>>◌, ReconciliationBreak, open_break,
}
use trueup.Reconciliation.Files.{CustodianFileSet}
use trueup.Reconciliation.Loops.{Mismatch, match_positions, match_cash, match_transactions}

-- The rows of the breaks, added in order.
unfoldable pub add_breaks : ℕ → ℕ → List Mismatch → Action (List ReconciliationBreak)
add_breaks opened_at import_batch_id [] = pure []
add_breaks opened_at import_batch_id (b ∷ bs) = do
  id ← fresh_id
  let row : ReconciliationBreak = record {
    id = id;
    break_type = b.break_type;
    customer_id = b.customer_id;
    opened_at = opened_at;
    status = open_break;
    resolved_at = none;
    resolved_by = none;
    resolution_note = none;
    import_batch_id = import_batch_id;
  }
  modify (λ s. record s { reconciliation_breaks = s.reconciliation_breaks ++ row ∷ [] })
  rest ← add_breaks opened_at import_batch_id bs
  pure (row ∷ rest)

module _ (clock : MarketClock) (source_event_id : ℕ → ℕ) (now : ℕ) where
  unfoldable pub compare_files : ℕ → CustodianFileSet → Action (List ReconciliationBreak)
  compare_files market_date files = do
    positions ← gets (match_positions market_date files)
    position_mismatches ← lift positions
    cash ← gets (match_cash files)
    cash_mismatches ← lift cash
    transactions ← gets (match_transactions source_event_id market_date files)
    transaction_mismatches ← lift transactions
    import_batch_id ← fresh_id
    add_breaks now import_batch_id
        (position_mismatches ++ (cash_mismatches ++ transaction_mismatches))

  unfoldable pub run_morning_reconciliation :
      ℕ → CustodianFileSet → Action (List ReconciliationBreak)
  run_morning_reconciliation market_date files =
      if not (clock.is_trading_day market_date) then pure [] else compare_files market_date files
