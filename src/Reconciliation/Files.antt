-- ===== src/Reconciliation/Files.antt =====
-- integrations/ports.py, the custodian's three files, and services/reconciliation/internal_state.py,
-- what the tables say of the same.
use trueup.Prelude.{
  ℕ, Bool, true, false, ◌&&◌, Option, none, some, List, [], ◌∷◌, filter, any, Result, ok, leb, ◌==◌,
  if◌then◌else◌, ◌>>=◌, dict_of, is_some,
}
use trueup.Prelude.Int.{ℤ, pos, ◌+ℤ◌, eqb_ℤ}
use trueup.Errors.{Error}
use trueup.Money.{money, units, Money, Units, make, add}
use trueup.Store.{
  Store, Account, position_units, JournalEntry, JournalEntryType, trade_buy, trade_sell, deposit,
  withdrawal, dividend, fee_adjustment, Posting,
}
use trueup.Ledger.Accounts.{is_role, column_is}

pub record CustodianPositionRow : Type 0 where
  pub customer_id : ℕ
  pub security_id : ℕ
  pub quantity : Units

pub record CustodianCashRow : Type 0 where
  pub customer_id : ℕ
  pub settled_cash : Money

-- Of a transaction, the id, which is a text, and the customer that a break names.
pub record CustodianTransactionRow : Type 0 where
  pub custodian_transaction_id : ℕ
  pub customer_id : Option ℕ

pub record CustodianFileSet : Type 0 where
  pub positions : List CustodianPositionRow
  pub cash : List CustodianCashRow
  pub transactions : List CustodianTransactionRow

-- `CUSTODIAN_OBSERVABLE_ENTRY_TYPES`
abbrev pub is_observable : JournalEntryType → Bool
is_observable trade_buy = true
is_observable trade_sell = true
is_observable deposit = true
is_observable withdrawal = true
is_observable dividend = true
is_observable fee_adjustment = true
is_observable _ = false

-- A posting on the customer's units of the security, of an entry up to the date.
abbrev pub is_position : ℕ → Store → ℕ → ℕ → Posting → Bool
is_position market_date s customer security p =
    any
      (λ a.
        a.id == p.account_id
        && is_role a.role position_units
        && column_is a.customer_id customer
        && column_is a.security_id security)
      s.accounts
    && any (λ e. e.id == p.journal_entry_id && leb e.effective_date market_date) s.journal_entries

abbrev pub units_or_zero : Option Units → ℤ
units_or_zero none = pos 0
units_or_zero (some u) = u

unfoldable pub position_sum : (Posting → Bool) → List Posting → ℤ
position_sum chosen [] = pos 0
position_sum chosen (p ∷ ps) =
    if chosen p
    then units_or_zero p.quantity_units +ℤ position_sum chosen ps
    else position_sum chosen ps

-- The group of an account, if it has a customer and a security.
abbrev pub key_of : Account → Option (ℕ × ℕ)
key_of a = if is_role a.role position_units then pair a.customer_id a.security_id else none
  where
    pair : Option ℕ → Option ℕ → Option (ℕ × ℕ)
    pair (some c) (some x) = some (c, x)
    pair _ _ = none

abbrev pub same_key : ℕ × ℕ → ℕ × ℕ → Bool
same_key a b = a.0 == b.0 && a.1 == b.1

-- A set of keys: one that is there is not added again.
abbrev pub add_key : ℕ × ℕ → List (ℕ × ℕ) → List (ℕ × ℕ)
add_key k ks = if any (same_key k) ks then ks else k ∷ ks

abbrev pub add_group : Option (ℕ × ℕ) → List (ℕ × ℕ) → List (ℕ × ℕ)
add_group none ks = ks
add_group (some k) ks = add_key k ks

unfoldable pub position_keys : List Account → List (ℕ × ℕ)
position_keys [] = []
position_keys (a ∷ rest) = add_group (key_of a) (position_keys rest)

-- The rows of `read_internal_positions`; a position of zero is left out.
unfoldable pub positions_of : ℕ → Store → List (ℕ × ℕ) → Result Error (List CustodianPositionRow)
positions_of market_date s [] = ok []
positions_of market_date s (k ∷ ks) = do
  quantity ← make units (position_sum (is_position market_date s k.0 k.1) s.postings)
  rest ← positions_of market_date s ks
  ok (
      if eqb_ℤ quantity (pos 0)
      then rest
      else record { customer_id = k.0; security_id = k.1; quantity = quantity } ∷ rest)

unfoldable pub read_internal_positions : ℕ → Store → Result Error (List CustodianPositionRow)
read_internal_positions market_date s = positions_of market_date s (position_keys s.accounts)

-- The value under a key of a dict that is built from the rows: the last row wins.
unfoldable pub quantity_in : ℕ × ℕ → Units → List CustodianPositionRow → Units
quantity_in k value [] = value
quantity_in k value (r ∷ rows) =
    quantity_in k (if same_key (r.customer_id, r.security_id) k then r.quantity else value) rows

unfoldable pub cash_in : ℕ → Money → List CustodianCashRow → Money
cash_in k value [] = value
cash_in k value (r ∷ rows) = cash_in k (if r.customer_id == k then r.settled_cash else value) rows

-- `from_file` of `_match_transactions`.
abbrev pub by_transaction_id : List CustodianTransactionRow → List CustodianTransactionRow
by_transaction_id rows = dict_of (λ r. r.custodian_transaction_id) [] rows

-- Of an `InternalTransactionSnapshot`: its key, the totals, and the customer that a break names.
pub record InternalTransactionSnapshot : Type 0 where
  pub source_event : ℕ
  pub journal_entry_id : ℕ
  pub entry_type : JournalEntryType
  pub customer_id : Option ℕ
  pub amount_money : Money
  pub quantity : Option Units
  pub effective_date : ℕ

abbrev pub first_customer : List Posting → Option ℕ
first_customer [] = none
first_customer (p ∷ ps) = if is_some p.customer_id then p.customer_id else first_customer ps

abbrev pub add_if : Money → Option Money → Result Error Money
add_if total none = ok total
add_if total (some m) = add money total m

abbrev pub add_units_if : Option Units → Option Units → Result Error (Option Units)
add_units_if total none = ok total
add_units_if none (some u) = do q ← add units (pos 0) u; ok (some q)
add_units_if (some t) (some u) = do q ← add units t u; ok (some q)

-- The loop over the postings of an entry.
unfoldable pub totals_of : Money → Option Units → List Posting → Result Error (Money × Option Units)
totals_of amount quantity [] = ok (amount, quantity)
totals_of amount quantity (p ∷ ps) = do
  amount' ← add_if amount p.amount_money
  quantity' ← add_units_if quantity p.quantity_units
  totals_of amount' quantity' ps

abbrev pub for_journal_entry : ℕ → List Posting → List Posting
for_journal_entry n postings = filter (λ p. p.journal_entry_id == n) postings

-- The loop of `read_internal_transactions`, with the text id of an entry's inbound event.
unfoldable pub snapshots_of :
    (ℕ → ℕ) → Store → List JournalEntry → Result Error (List InternalTransactionSnapshot)
snapshots_of source_event_id s [] = ok []
snapshots_of source_event_id s (e ∷ es) = do
  let postings = for_journal_entry e.id s.postings
  totals ← totals_of (pos 0) none postings
  rest ← snapshots_of source_event_id s es
  let snapshot : InternalTransactionSnapshot = record {
    source_event = source_event_id e.source_event_id;
    journal_entry_id = e.id;
    entry_type = e.entry_type;
    customer_id = first_customer postings;
    amount_money = totals.0;
    quantity = totals.1;
    effective_date = e.effective_date;
  }
  ok (snapshot ∷ rest)

-- Two entries of one event are one item of the dict.
unfoldable pub read_internal_transactions :
    (ℕ → ℕ) → ℕ → Store → Result Error (List InternalTransactionSnapshot)
read_internal_transactions source_event_id market_date s = do
  snapshots ← snapshots_of source_event_id s (
      filter (λ e. e.effective_date == market_date && is_observable e.entry_type) s.journal_entries)
  ok (dict_of (λ x. x.source_event) [] snapshots)
