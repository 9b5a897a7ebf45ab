-- ===== src/Ledger/CashPolicy.antt =====
-- services/ledger/cash_policy_service.py: cash figures that are computed from the rows, never stored.
use trueup.Prelude.{
  ℕ, Bool, not, ◌&&◌, ◌||◌, List, [], ◌∷◌, any, Result, ◌==◌, if◌then◌else◌, ◌>>=◌,
}
use trueup.Prelude.Int.{ℤ, pos, ◌+ℤ◌}
use trueup.Errors.{Error}
use trueup.Money.{money, Money, make, add, sub, is_negative}
use trueup.Store.{
  Store, Account, cash, Posting, JournalEntry, JournalEntryType, SettlementObligation, trade_buy,
  trade_sell, deposit, withdrawal, dividend, split, fee_adjustment, correction,
  wash_sale_adjustment,
}
use trueup.Ledger.Accounts.{is_role, column_is}
use trueup.Ledger.Balance.{or_zero}
use trueup.Ledger.Settlement.{is_pending, is_confirmed}

abbrev pub type_code : JournalEntryType → ℕ
type_code trade_buy = 0
type_code trade_sell = 1
type_code deposit = 2
type_code withdrawal = 3
type_code dividend = 4
type_code split = 5
type_code fee_adjustment = 6
type_code correction = 7
type_code wash_sale_adjustment = 8

-- `Account.role == CASH` on the account that the row joins.
abbrev pub is_cash : List Account → ℕ → Bool
is_cash accounts n = any (λ a. a.id == n && is_role a.role cash) accounts

-- `Account.customer_id == customer_id` on the account that the row joins.
abbrev pub is_owned : List Account → ℕ → ℕ → Bool
is_owned accounts customer n = any (λ a. a.id == n && column_is a.customer_id customer) accounts

abbrev pub of_type : List JournalEntry → JournalEntryType → ℕ → Bool
of_type entries t n = any (λ e. e.id == n && type_code e.entry_type == type_code t) entries

abbrev pub has_obligation : List SettlementObligation → ℕ → Bool
has_obligation obligations entry = any (λ o. o.journal_entry_id == entry) obligations

abbrev pub has_confirmed : List SettlementObligation → ℕ → Bool
has_confirmed obligations entry =
    any (λ o. o.journal_entry_id == entry && is_confirmed o.status) obligations

-- no_obligation_needed | obligation_confirmed | pending_outflow
abbrev pub counts_as_settled : List SettlementObligation → Posting → Bool
counts_as_settled obligations p =
    not (has_obligation obligations p.journal_entry_id)
    || has_confirmed obligations p.journal_entry_id
    || is_negative (or_zero p.amount_money)

abbrev pub is_settled_cash : ℕ → List Account → List SettlementObligation → Posting → Bool
is_settled_cash customer accounts obligations p =
    column_is p.customer_id customer
    && is_cash accounts p.account_id
    && counts_as_settled obligations p

-- The sum of the query of `settled_cash`; a row with no money adds nothing.
unfoldable pub settled_sum : (Posting → Bool) → List Posting → ℤ
settled_sum chosen [] = pos 0
settled_sum chosen (p ∷ ps) =
    if chosen p then or_zero p.amount_money +ℤ settled_sum chosen ps else settled_sum chosen ps

unfoldable pub settled_total : ℕ → Store → ℤ
settled_total customer s =
    settled_sum (is_settled_cash customer s.accounts s.obligations) s.postings

unfoldable pub settled_cash : ℕ → Store → Result Error Money
settled_cash customer s = make money (settled_total customer s)

-- `_unsettled_obligation_total`
unfoldable pub unsettled_sum : (SettlementObligation → Bool) → List SettlementObligation → ℤ
unsettled_sum chosen [] = pos 0
unsettled_sum chosen (o ∷ os) =
    if chosen o then o.amount_money +ℤ unsettled_sum chosen os else unsettled_sum chosen os

unfoldable pub unsettled_total : ℕ → JournalEntryType → Store → ℤ
unsettled_total customer t s =
    unsettled_sum
      (λ o.
        is_owned s.accounts customer o.account_id
        && is_pending o.status
        && of_type s.journal_entries t o.journal_entry_id)
      s.obligations

unfoldable pub unsettled_sale_proceeds : ℕ → Store → Result Error Money
unsettled_sale_proceeds customer s = make money (unsettled_total customer trade_sell s)

unfoldable pub unsettled_deposit_proceeds : ℕ → Store → Result Error Money
unsettled_deposit_proceeds customer s = make money (unsettled_total customer deposit s)

-- `HoldsProvider`, whose implementation is services/orders/holds_provider.py.
pub record HoldsProvider : Type 0 where
  pub holds : ℕ → Result Error Money
  pub open_buy_commitments : ℕ → Result Error Money

unfoldable pub withdrawable : HoldsProvider → ℕ → Store → Result Error Money
withdrawable provider customer s = do
  settled ← settled_cash customer s
  held ← provider.holds customer
  sub money settled held

unfoldable pub investable : HoldsProvider → ℕ → Store → Result Error Money
investable provider customer s = do
  settled ← settled_cash customer s
  sales ← unsettled_sale_proceeds customer s
  with_sales ← add money settled sales
  deposits ← unsettled_deposit_proceeds customer s
  with_deposits ← add money with_sales deposits
  committed ← provider.open_buy_commitments customer
  uncommitted ← sub money with_deposits committed
  held ← provider.holds customer
  sub money uncommitted held
