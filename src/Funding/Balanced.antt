-- ===== src/Funding/Balanced.antt =====
-- Every funding operation keeps the ledger balanced.
use trueup.Prelude.{ℕ}
use trueup.Money.{Money}
use trueup.Store.Keeps.{Keeps, keeps_rules}
use trueup.Ledger.Written.{IsLedger}
use trueup.Ledger.Kept.{ledger_rules}
use trueup.Ledger.CashPolicy.{HoldsProvider}
use trueup.Funding.{
  DepositContext, check_eligibility, check_active_bank_link, initiate_deposit, apply_ach_return,
  initiate_withdrawal,
}

Keeps-eligibility : (customer : ℕ) → Keeps IsLedger (check_eligibility customer)
unfolding check_eligibility
Keeps-eligibility customer = search keeps_rules

Keeps-bank_link : (customer : ℕ) → Keeps IsLedger (check_active_bank_link customer)
unfolding check_active_bank_link
Keeps-bank_link customer = search keeps_rules

-- A deposit that returns leaves every journal entry on file balanced, if they were before.
pub initiate_deposit-IsLedger :
    (ctx : DepositContext) (customer : ℕ) (amount : Money)
    → Keeps IsLedger (initiate_deposit ctx customer amount)
unfolding initiate_deposit
initiate_deposit-IsLedger ctx customer amount =
    search (ledger_rules, Keeps-eligibility, Keeps-bank_link) depth 24

-- A return of a deposit that is applied leaves every journal entry on file balanced, if they were
-- before.
pub apply_ach_return-IsLedger :
    (ctx : DepositContext) (obligation : ℕ) → Keeps IsLedger (apply_ach_return ctx obligation)
unfolding apply_ach_return
apply_ach_return-IsLedger ctx obligation = search (ledger_rules) depth 24

-- A withdrawal that returns, whatever it is told of holds, leaves every journal entry on file
-- balanced, if they were before.
pub initiate_withdrawal-IsLedger :
    (provider : HoldsProvider) (ctx : DepositContext) (customer : ℕ) (amount : Money)
    → Keeps IsLedger (initiate_withdrawal provider ctx customer amount)
unfolding initiate_withdrawal
initiate_withdrawal-IsLedger provider ctx customer amount =
    search (ledger_rules, Keeps-eligibility, Keeps-bank_link) depth 24
