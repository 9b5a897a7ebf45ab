-- ===== src/Reconciliation/Loops.antt =====
-- services/reconciliation/reconciliation_service.py: the loops of the three comparisons.
use trueup.Prelude.{
  ℕ, Bool, Option, some, List, [], ◌∷◌, ◌++◌, map, any, Result, ok, ◌==◌, if◌then◌else◌, ◌>>=◌,
}
use trueup.Prelude.Int.{pos, eqb_ℤ}
use trueup.Errors.{Error}
use trueup.Store.{
  Store, Customer, ReconciliationBreakType, position_mismatch, cash_mismatch,
  unmatched_custodian_transaction, unmatched_internal_transaction,
}
use trueup.Ledger.CashPolicy.{settled_cash}
use trueup.Reconciliation.Files.{
  CustodianPositionRow, CustodianCashRow, CustodianTransactionRow, CustodianFileSet, add_key,
  quantity_in, cash_in, by_transaction_id, InternalTransactionSnapshot, read_internal_positions,
  read_internal_transactions,
}

-- A break before it is added.
pub record Mismatch : Type 0 where
  pub break_type : ReconciliationBreakType
  pub customer_id : Option ℕ

abbrev pub row_key : CustodianPositionRow → ℕ × ℕ
row_key r = (r.customer_id, r.security_id)

-- `internal.keys() | from_file.keys()`; the order of a set is not specified.
unfoldable pub all_keys : List CustodianPositionRow → List CustodianPositionRow → List (ℕ × ℕ)
all_keys internal [] = map row_key internal
all_keys internal (r ∷ rows) = add_key (row_key r) (all_keys internal rows)

unfoldable pub position_breaks :
    List CustodianPositionRow → List CustodianPositionRow → List (ℕ × ℕ) → List Mismatch
position_breaks internal from_file [] = []
position_breaks internal from_file (k ∷ ks) =
    if eqb_ℤ (quantity_in k (pos 0) internal) (quantity_in k (pos 0) from_file)
    then position_breaks internal from_file ks
    else record { break_type = position_mismatch; customer_id = some k.0 }
      ∷ position_breaks internal from_file ks

unfoldable pub match_positions : ℕ → CustodianFileSet → Store → Result Error (List Mismatch)
match_positions market_date files s = do
  internal ← read_internal_positions market_date s
  ok (position_breaks internal files.positions (all_keys internal files.positions))

-- `read_customer_ids(...) | from_file.keys()`
unfoldable pub all_customers : List Customer → List CustodianCashRow → List ℕ
all_customers customers [] = map (λ c. c.id) customers
all_customers customers (r ∷ rows) =
    let rest = all_customers customers rows in
    if any (λ n. n == r.customer_id) rest then rest else r.customer_id ∷ rest

unfoldable pub cash_breaks : List CustodianCashRow → Store → List ℕ → Result Error (List Mismatch)
cash_breaks from_file s [] = ok []
cash_breaks from_file s (n ∷ ns) = do
  internal_cash ← settled_cash n s
  rest ← cash_breaks from_file s ns
  ok (
      if eqb_ℤ internal_cash (cash_in n (pos 0) from_file)
      then rest
      else record { break_type = cash_mismatch; customer_id = some n } ∷ rest)

unfoldable pub match_cash : CustodianFileSet → Store → Result Error (List Mismatch)
match_cash files s = cash_breaks files.cash s (all_customers s.customers files.cash)

abbrev pub has_snapshot : List InternalTransactionSnapshot → CustodianTransactionRow → Bool
has_snapshot internal r = any (λ x. x.source_event == r.custodian_transaction_id) internal

abbrev pub has_row : List CustodianTransactionRow → InternalTransactionSnapshot → Bool
has_row from_file x = any (λ r. r.custodian_transaction_id == x.source_event) from_file

unfoldable pub custodian_breaks :
    List InternalTransactionSnapshot → List CustodianTransactionRow → List Mismatch
custodian_breaks internal [] = []
custodian_breaks internal (r ∷ rows) =
    if has_snapshot internal r
    then custodian_breaks internal rows
    else record { break_type = unmatched_custodian_transaction; customer_id = r.customer_id }
      ∷ custodian_breaks internal rows

unfoldable pub internal_breaks :
    List CustodianTransactionRow → List InternalTransactionSnapshot → List Mismatch
internal_breaks from_file [] = []
internal_breaks from_file (x ∷ xs) =
    if has_row from_file x
    then internal_breaks from_file xs
    else record { break_type = unmatched_internal_transaction; customer_id = x.customer_id }
      ∷ internal_breaks from_file xs

unfoldable pub match_transactions :
    (ℕ → ℕ) → ℕ → CustodianFileSet → Store → Result Error (List Mismatch)
match_transactions source_event_id market_date files s = do
  internal ← read_internal_transactions source_event_id market_date s
  let from_file = by_transaction_id files.transactions
  ok (custodian_breaks internal from_file ++ internal_breaks from_file internal)
