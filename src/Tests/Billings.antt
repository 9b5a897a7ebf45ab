-- ===== src/Tests/Billings.antt =====
-- The charge of a month is made once, and then declined by the provider.
use trueup.Prelude.{ℕ, ◌≡◌, refl, none, some, [], ◌∷◌, ok, arith}
use trueup.Prelude.Int.{pos}
use trueup.Store.{Store, FeeCharge, pending, retrying}
use trueup.Outbox.{JobOutbox}
use trueup.Fees.Billing.{create_pending_charge, PaymentPort, declined, charge_fee}
use trueup.Fees.Billed.{create_pending_charge-once}
use trueup.Tests.Publications.{published}
use trueup.Tests.Charges.{policy}

-- A fee of 1.00 on day 8 and one of 2.50 on day 20, in a period with a statement.
abbrev accrued : Store
accrued = record published {
  fee_accruals =
      record {
        customer_id = 1;
        accrual_date = 8;
        gain_amount = pos 50000;
        fee_amount = pos 10000;
        journal_entry_id = 70;
      }
      ∷ record {
        customer_id = 1;
        accrual_date = 20;
        gain_amount = pos 90000;
        fee_amount = pos 25000;
        journal_entry_id = 71;
      }
      ∷ [];
}

abbrev due : FeeCharge
due = record {
  id = 100;
  customer_id = 1;
  billing_period_start = 5;
  billing_period_end = 20;
  total_accrued = pos 35000;
  as_published_watermark = some 50;
  status = pending;
  stripe_charge_id = none;
  journal_entry_id = none;
}

abbrev task : JobOutbox
task = record {
  id = 101;
  attempts = 0;
  next_attempt_at = 60;
  status = trueup.Outbox.pending;
  locked_by = none;
  created_at = 60;
}

abbrev to_charge : Store
to_charge = record accrued { next_id = 102; fee_charges = due ∷ []; outbox = task ∷ [] }

makes : create_pending_charge 60 1 5 20 accrued ≡ ok (some due, to_charge)
unfolding create_pending_charge trueup.Fees.Billing.get_for_period trueup.Fees.Billing.total_of
    trueup.Fees.Billing.list_for_period trueup.Money.add trueup.Money.make
    trueup.Money.integer_digits trueup.Prelude.Int.◌+ℤ◌ trueup.Decimal.digits
    trueup.Fees.Billing.ensure_published trueup.Fees.Billing.latest_for_period trueup.Store.fresh_id
    trueup.Outbox.enqueue
makes = refl

-- The charge is retried, and another customer's is added.
abbrev retried : FeeCharge → FeeCharge
retried c = record c { status = trueup.Store.failed }

abbrev other : FeeCharge
other = record due { id = 103; customer_id = 2 }

abbrev later_on : Store
later_on = record to_charge { fee_charges = retried due ∷ other ∷ [] }

create_pending_charge-once_example :
    create_pending_charge 61 1 5 20 later_on ≡ ok (some (retried due), later_on)
create_pending_charge-once_example =
    create_pending_charge-once 60 61 1 5 20 accrued {c = due} {s' = to_charge} retried (other ∷ [])
      later_on makes (λ x. (refl, refl, refl)) (λ h. absurd (omega (arith, h.0)), tt) refl

abbrev declining : PaymentPort
declining = record { charge = λ customer method amount key. declined }

abbrev dunned : Store
dunned = record to_charge {
  fee_charges = record due { status = trueup.Store.failed } ∷ [];
  dunning_states =
      record {
        fee_charge_id = 100;
        customer_id = 1;
        attempt_number = 1;
        next_retry_at = 86460;
        max_attempts = 4;
        status = retrying;
      }
      ∷ [];
}

declines :
    charge_fee policy declining
      (record { customer_id = 1; stripe_customer_id = 3; stripe_payment_method_id = 4 } ∷ [])
      60
      33
      100
      to_charge
    ≡ ok (tt, dunned)
unfolding charge_fee trueup.Fees.Billing.charge_open trueup.Fees.Billing.get_by_customer
    trueup.Fees.Charges.apply_charge_failure trueup.Fees.Charges.record_failure
    trueup.Fees.Dunning.fail_charge trueup.Fees.Dunning.start trueup.Fees.Dunning.compute_backoff
    trueup.Fees.Dunning.hours trueup.Fees.Dunning.add_duration
declines = refl
