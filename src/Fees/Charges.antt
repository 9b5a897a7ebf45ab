-- ===== src/Fees/Charges.antt =====
-- services/fees/fee_charge_service.py and fee_accrual_service.py: the entries of a fee that accrues
-- and of a charge that succeeds, and the rows of one that fails.
use trueup.Prelude.{
  ℕ, Bool, true, false, not, ◌&&◌, Option, none, some, List, [], ◌∷◌, ◌++◌, filter, any, require,
  find_by, put_by, ◌==◌, if◌then◌else◌,
}
use trueup.Errors.{fee_charge_not_found, integrity_error}
use trueup.Money.{money, Money, negate}
use trueup.Store.{
  Action, pure, gets, lift, guard, modify, fresh_id, ◌>>=◌, ◌>>◌, fee_adjustment,
  fees_accrued_payable, fee_revenue_accrued, fee_revenue_collected, FeeCharge, FeeChargeStatus,
  succeeded, dunning, DunningState, FeeAccrual,
}
use trueup.Ledger.Accounts.{get_or_create_customer_account, get_or_create_house_account}
use trueup.Ledger.Entries.{money_leg, post}
use trueup.Fees.Dunning.{DunningPolicy, fail_charge}

abbrev pub find_charge : ℕ → List FeeCharge → Option FeeCharge
find_charge n rows = find_by (λ c. c.id) n rows

abbrev pub put_charge : FeeCharge → List FeeCharge → List FeeCharge
put_charge new rows = put_by (λ c. c.id) new rows

abbrev pub find_dunning : ℕ → List DunningState → Option DunningState
find_dunning n rows = find_by (λ d. d.fee_charge_id) n rows

-- The dunning row of a charge, added or changed.
abbrev pub store_dunning :
    Option DunningState → DunningState → List DunningState → List DunningState
store_dunning none new rows = rows ++ new ∷ []
store_dunning (some old) new rows = put_by (λ d. d.fee_charge_id) new rows

abbrev pub is_succeeded : FeeChargeStatus → Bool
is_succeeded succeeded = true
is_succeeded _ = false

abbrev pub is_resolved : FeeChargeStatus → Bool
is_resolved succeeded = true
is_resolved dunning = true
is_resolved _ = false

module _ (today : ℕ) (stripe_charge_id : ℕ) where
  -- `apply_charge_success` past its early return; the dunning row is deleted, if there is one.
  unfoldable pub collect : FeeCharge → Action (Unit {0})
  collect charge = do
    payable ← get_or_create_customer_account charge.customer_id fees_accrued_payable none
    collected ← get_or_create_house_account fee_revenue_collected
    event ← fresh_id
    owed ← lift (negate money charge.total_accrued)
    entry ←
        post fee_adjustment today event
          (money_leg payable.id owed ∷ money_leg collected.id charge.total_accrued ∷ [])
    modify (λ s. record s {
      fee_charges =
          put_charge
            (record charge {
              status = succeeded;
              stripe_charge_id = some stripe_charge_id;
              journal_entry_id = some entry.id;
            })
            s.fee_charges;
      dunning_states = filter (λ d. not (d.fee_charge_id == charge.id)) s.dunning_states;
    })

  unfoldable pub apply_charge_success : ℕ → Action (Unit {0})
  apply_charge_success n = do
    found ← gets (λ s. find_charge n s.fee_charges)
    charge ← lift (require found fee_charge_not_found)
    if is_succeeded charge.status then pure tt else collect charge

module _ (policy : DunningPolicy) (now : ℕ) where
  unfoldable pub record_failure : FeeCharge → Action (Unit {0})
  record_failure charge = do
    existing ← gets (λ s. find_dunning charge.id s.dunning_states)
    rows ← lift (fail_charge policy now charge existing)
    modify (λ s. record s {
      fee_charges = put_charge rows.0 s.fee_charges;
      dunning_states = store_dunning existing rows.1 s.dunning_states;
    })

  unfoldable pub apply_charge_failure : ℕ → Action (Unit {0})
  apply_charge_failure n = do
    found ← gets (λ s. find_charge n s.fee_charges)
    charge ← lift (require found fee_charge_not_found)
    if is_resolved charge.status then pure tt else record_failure charge

-- `_post_accrual`; the flush refuses a second row for the customer and the date.
unfoldable pub post_accrual : ℕ → ℕ → Money → Money → Action FeeAccrual
post_accrual customer accrual_date gain_amount fee_amount = do
  payable ← get_or_create_customer_account customer fees_accrued_payable none
  revenue ← get_or_create_house_account fee_revenue_accrued
  event ← fresh_id
  credit ← lift (negate money fee_amount)
  entry ←
      post fee_adjustment accrual_date event
        (money_leg payable.id fee_amount ∷ money_leg revenue.id credit ∷ [])
  let accrual : FeeAccrual = record {
    customer_id = customer;
    accrual_date = accrual_date;
    gain_amount = gain_amount;
    fee_amount = fee_amount;
    journal_entry_id = entry.id;
  }
  taken ←
      gets
        (λ s. any (λ a. a.customer_id == customer && a.accrual_date == accrual_date) s.fee_accruals)
  guard taken integrity_error
  modify (λ s. record s { fee_accruals = s.fee_accruals ++ accrual ∷ [] })
  pure accrual
