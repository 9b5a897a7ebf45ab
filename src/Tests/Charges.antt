-- ===== src/Tests/Charges.antt =====
-- A fee that is charged: retries that are given up, and a success.
use trueup.Prelude.{ℕ, ◌≤◌, ◌≡◌, ◌⊎◌, refl, none, some, [], ◌∷◌, ok, arith}
use trueup.Prelude.Int.{pos}
use trueup.Store.{
  Store, FeeCharge, pending, Account, fees_accrued_payable, fee_revenue_collected, money_dimension,
}
use trueup.Ledger.Written.{IsLedger}
use trueup.Fees.Dunning.{DunningPolicy}
use trueup.Fees.Charges.{apply_charge_success, apply_charge_failure}
use trueup.Fees.Failures.{GivenUp}
use trueup.Fees.Exhausted.{fail_at, fail_at-GivenUp}
use trueup.Fees.Charged.{Paid, apply_charge_success-once}
use trueup.Tests.Books.{opening, opening-IsLedger}

abbrev charge : FeeCharge
charge = record {
  id = 40;
  customer_id = 1;
  billing_period_start = 1;
  billing_period_end = 31;
  total_accrued = pos 120000;
  as_published_watermark = some 32;
  status = pending;
  stripe_charge_id = none;
  journal_entry_id = none;
}

abbrev billed : Store
billed = record opening { fee_charges = charge ∷ [] }

abbrev billed-IsLedger : IsLedger billed
billed-IsLedger = record { balanced = opening-IsLedger.balanced; known = tt }

abbrev pub policy : DunningPolicy
policy = record { max_attempts = 4; backoff_base_hours = 24 }

fail_at-GivenUp_example :
    (s' : Store) × (j : ℕ) × (fail_at policy (1 ∷ 2 ∷ 3 ∷ 4 ∷ []) 40 billed ≡ ok (tt, s'))
    × GivenUp 40 j s'
    × (4 ≤ j)
    × ((j ≡ 4) ⊎ (j ≡ 2))
    × ((later : ℕ) → apply_charge_failure policy later 40 s' ≡ ok (tt, s'))
fail_at-GivenUp_example =
    fail_at-GivenUp policy 1 2 (3 ∷ 4 ∷ []) 40 charge billed
      (omega arith, (omega arith, (omega arith, (omega arith, tt)))) refl refl refl (omega arith)

abbrev paid : Store
paid = record billed {
  fee_charges =
      record charge {
        status = trueup.Store.succeeded;
        stripe_charge_id = some 7;
        journal_entry_id = some 9;
      }
      ∷ [];
}

apply_charge_success-once_example :
    Paid 40 paid
    × ((later other : ℕ) → apply_charge_success later other 40 paid ≡ ok (tt, paid))
    × ((policy : DunningPolicy) (now : ℕ) → apply_charge_failure policy now 40 paid ≡ ok (tt, paid))
unfolding apply_charge_success
apply_charge_success-once_example = apply_charge_success-once 33 8 40 paid {s' = paid} refl
