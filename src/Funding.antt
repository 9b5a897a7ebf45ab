-- ===== src/Funding.antt =====
-- services/identity/deposit_service.py and withdrawal_service.py: money in, money out, and a
-- deposit that bounces.
pub mod Balanced
pub mod Returned
pub mod Limits
use trueup.Prelude.{
  find_by, put_by, require, ℕ, suc, ◌+◌, Bool, true, false, not, ◌&&◌, Option, none, some, List, [],
  ◌∷◌, ◌++◌, filter, any, Result, ok, err, ◌==◌, if◌then◌else◌,
}
use trueup.Prelude.{◌>>=◌ as bind_result}
use trueup.Prelude.Int.{ltb_ℤ}
use trueup.Errors.{
  Error, customer_not_found, customer_kyc, customer_approval, no_active_bank_link,
  bank_reauth_required, cap_per_transaction, cap_per_day, obligation_not_found,
  insufficient_withdrawable_cash,
}
use trueup.Money.{money, Money, make, add, negate}
use trueup.Store.{
  Store, Action, pure, raise, gets, lift, guard, modify, fresh_id, ◌>>=◌, ◌>>◌, Account,
  AccountRole, cash, customer_equity, customer_receivable, JournalEntry, deposit, withdrawal,
  correction, Posting, SettlementObligation, Customer, VerdictStatus, approved, BankLink,
  BankLinkStatus, active, requires_reauth,
}
use trueup.Ledger.Accounts.{
  require_customer_account, get_or_create_customer_account, one_or_none, column_is,
}
use trueup.Ledger.Entries.{find_account, PostingLeg, money_leg, post}
use trueup.Ledger.Settlement.{add_obligation, fail, find_obligation, put_obligation}
use trueup.Ledger.CashPolicy.{HoldsProvider, withdrawable, settled_sum, is_cash, type_code}

abbrev pub is_approved : VerdictStatus → Bool
is_approved approved = true
is_approved _ = false

abbrev pub find_customer : ℕ → List Customer → Option Customer
find_customer n rows = find_by (λ c. c.id) n rows

abbrev pub put_customer : Customer → List Customer → List Customer
put_customer new rows = put_by (λ c. c.id) new rows

-- `_check_funding_eligibility`, and `_require_eligible_customer` of the order service.
unfoldable pub check_customer : Option Customer → Result Error (Unit {0})
check_customer none = err customer_not_found
check_customer (some c) =
    if not (is_approved c.kyc_status)
    then err customer_kyc
    else if not (is_approved c.account_approval_status)
    then err customer_approval
    else ok tt

unfoldable pub check_eligibility : ℕ → Action (Unit {0})
check_eligibility customer = do
  found ← gets (λ s. find_customer customer s.customers)
  lift (check_customer found)

abbrev pub is_current : BankLinkStatus → Bool
is_current active = true
is_current requires_reauth = true
is_current _ = false

unfoldable pub check_link_status : BankLinkStatus → BankLink → Result Error BankLink
check_link_status requires_reauth l = err bank_reauth_required
check_link_status _ l = ok l

unfoldable pub check_link : Option BankLink → Result Error BankLink
check_link none = err no_active_bank_link
check_link (some l) = check_link_status l.status l

-- `_check_active_bank_link`, with `current_for_customer`.
unfoldable pub check_active_bank_link : ℕ → Action BankLink
check_active_bank_link customer = do
  rows ← gets (λ s. filter (λ l. l.customer_id == customer && is_current l.status) s.bank_links)
  link ← lift (one_or_none rows)
  lift (check_link link)

-- `check_deposit_caps` on the amount, what was deposited today and the two caps.
unfoldable pub check_deposit_caps : Money → Money → Money → Money → Result Error (Unit {0})
check_deposit_caps amount deposited_today per_transaction per_day =
    if ltb_ℤ per_transaction amount
    then err cap_per_transaction
    else bind_result (add money deposited_today amount)
        (λ total. if ltb_ℤ per_day total then err cap_per_day else ok tt)

-- `deposited_on` (services/identity/_shared.py).
unfoldable pub deposited_on : ℕ → ℕ → Store → Result Error Money
deposited_on customer date s = make money (
    settled_sum
      (λ p.
        column_is p.customer_id customer
        && is_cash s.accounts p.account_id
        && any
            (λ e.
              e.id == p.journal_entry_id
              && type_code e.entry_type == type_code deposit
              && e.effective_date == date)
            s.journal_entries)
      s.postings)

-- `_ACH_SETTLEMENT_CALENDAR_DAYS`
abbrev pub ach_settlement_calendar_days : ℕ
ach_settlement_calendar_days = 2

-- What the service is configured with, and the clock's instant and UTC date.
pub record DepositContext : Type 0 where
  pub deposit_cap_per_transaction : Money
  pub deposit_cap_per_day : Money
  pub now : ℕ
  pub today : ℕ

-- `DepositService.initiate`
unfoldable pub initiate_deposit : DepositContext → ℕ → Money → Action SettlementObligation
initiate_deposit ctx customer amount = do
  check_eligibility customer
  check_active_bank_link customer
  deposited_today ← gets (deposited_on customer ctx.today)
  total_today ← lift deposited_today
  lift (
      check_deposit_caps amount total_today ctx.deposit_cap_per_transaction ctx.deposit_cap_per_day)
  cash_account ← require_customer_account customer cash
  equity_account ← require_customer_account customer customer_equity
  entry_event ← fresh_id
  debit ← lift (negate money amount)
  entry ←
      post deposit ctx.today entry_event
        (money_leg cash_account.id amount ∷ money_leg equity_account.id debit ∷ [])
  obligation_event ← fresh_id
  add_obligation entry.id cash_account.id amount (ctx.today + ach_settlement_calendar_days)
      obligation_event

-- `build_ach_return_correction_legs`
unfoldable pub ach_return_legs : ℕ → ℕ → Money → Result Error (List PostingLeg)
ach_return_legs cash_account receivable_account amount =
    bind_result (negate money amount)
      (λ minus. ok (money_leg cash_account minus ∷ money_leg receivable_account amount ∷ []))

-- `DepositService.apply_ach_return`
unfoldable pub apply_ach_return : DepositContext → ℕ → Action (Unit {0})
apply_ach_return ctx obligation_id = do
  found ← gets (λ s. find_obligation obligation_id s.obligations)
  obligation ← lift (require found obligation_not_found)
  found_account ← gets (λ s. find_account obligation.account_id s.accounts)
  cash_account ← lift (require found_account obligation_not_found)
  customer ← lift (require cash_account.customer_id obligation_not_found)
  failed_row ← lift (fail obligation ctx.now)
  modify (λ s. record s { obligations = put_obligation failed_row s.obligations })
  receivable_account ← get_or_create_customer_account customer customer_receivable none
  correction_event ← fresh_id
  legs ← lift (ach_return_legs cash_account.id receivable_account.id obligation.amount_money)
  post correction ctx.today correction_event legs
  pure tt

-- `WithdrawalService.initiate`
unfoldable pub initiate_withdrawal :
    HoldsProvider → DepositContext → ℕ → Money → Action JournalEntry
initiate_withdrawal provider ctx customer amount = do
  check_eligibility customer
  check_active_bank_link customer
  limit ← gets (withdrawable provider customer)
  available ← lift limit
  guard (ltb_ℤ available amount) insufficient_withdrawable_cash
  cash_account ← require_customer_account customer cash
  equity_account ← require_customer_account customer customer_equity
  event ← fresh_id
  debit ← lift (negate money amount)
  post withdrawal ctx.today event
      (money_leg cash_account.id debit ∷ money_leg equity_account.id amount ∷ [])
