-- ===== src/Fees/Billing.antt =====
-- services/fees/fee_charge_service.py, `create_pending_charge`, and
-- services/fees/fee_charge_outbox_handler.py: a period's charge, made once and handed to the payment
-- provider.
use trueup.Prelude.{
  ℕ, Bool, true, false, ◌&&◌, Option, none, some, List, [], ◌∷◌, ◌++◌, filter, Result, ok, leb,
  require, ◌==◌, if◌then◌else◌,
}
use trueup.Prelude.{◌>>=◌ as bind_result}
use trueup.Prelude.Int.{pos, eqb_ℤ}
use trueup.Errors.{Error, fee_charge_not_found, no_payment_method}
use trueup.Money.{money, Money, add}
use trueup.Outbox.{enqueue}
use trueup.Store.{
  Action, pure, raise, gets, lift, modify, fresh_id, ◌>>=◌, ◌>>◌, FeeCharge, FeeChargeStatus,
  pending, failed, FeeAccrual, PublishedSnapshot,
}
use trueup.Valuation.{newest}
use trueup.Restatement.Snapshots.{publish}
use trueup.Restatement.Service.{scalar_one_or_none}
use trueup.Fees.Dunning.{DunningPolicy}
use trueup.Fees.Charges.{find_charge, apply_charge_success, apply_charge_failure}

-- `FeeAccrualRepository.list_for_period`
unfoldable pub list_for_period : ℕ → ℕ → ℕ → List FeeAccrual → List FeeAccrual
list_for_period customer period_start period_end accruals =
    filter
      (λ a.
        a.customer_id == customer
        && leb period_start a.accrual_date
        && leb a.accrual_date period_end)
      accruals

-- The sum of the fees, from the first argument on.
unfoldable pub total_of : Money → List FeeAccrual → Result Error Money
total_of total [] = ok total
total_of total (a ∷ rest) = bind_result (add money total a.fee_amount) (λ sum. total_of sum rest)

abbrev pub is_for_period : ℕ → ℕ → ℕ → FeeCharge → Bool
is_for_period customer period_start period_end c =
    c.customer_id == customer
    && c.billing_period_start == period_start
    && c.billing_period_end == period_end

unfoldable pub get_for_period : ℕ → ℕ → ℕ → List FeeCharge → Result Error (Option FeeCharge)
get_for_period customer period_start period_end charges =
    scalar_one_or_none (filter (is_for_period customer period_start period_end) charges)

unfoldable pub latest_for_period : ℕ → ℕ → List PublishedSnapshot → Option PublishedSnapshot
latest_for_period customer period_start snapshots =
    newest (λ p. p.publish_watermark)
      (filter (λ p. p.customer_id == customer && p.period_start == period_start) snapshots)

module _ (now customer period_start period_end : ℕ) where
  abbrev pub publish_new : Action ℕ
  publish_new = do
    snapshot ← publish now customer period_start period_end
    pure snapshot.publish_watermark

  abbrev pub watermark_of : Option PublishedSnapshot → Action ℕ
  watermark_of none = publish_new
  watermark_of (some p) =
      if p.period_end == period_end then pure p.publish_watermark else publish_new

  -- `_ensure_published`
  unfoldable pub ensure_published : Action ℕ
  ensure_published = do
    existing ← gets (λ s. latest_for_period customer period_start s.published_snapshots)
    watermark_of existing

  abbrev pub pending_charge : ℕ → Money → ℕ → FeeCharge
  pending_charge id total watermark = record {
    id = id;
    customer_id = customer;
    billing_period_start = period_start;
    billing_period_end = period_end;
    total_accrued = total;
    as_published_watermark = some watermark;
    status = pending;
    stripe_charge_id = none;
    journal_entry_id = none;
  }

  -- The row and its task; the task's payload, the charge's id, is left out.
  abbrev pub add_charge : Money → Action (Option FeeCharge)
  add_charge total = do
    watermark ← ensure_published
    id ← fresh_id
    let charge = pending_charge id total watermark
    task ← fresh_id
    modify (λ s. record s {
      fee_charges = s.fee_charges ++ charge ∷ [];
      outbox = enqueue task now s.outbox;
    })
    pure (some charge)

  abbrev pub charge_unless : Option FeeCharge → Action (Option FeeCharge)
  charge_unless (some charge) = pure (some charge)
  charge_unless none = do
    accruals ← gets (λ s. list_for_period customer period_start period_end s.fee_accruals)
    total ← lift (total_of (pos 0) accruals)
    if eqb_ℤ total (pos 0) then pure none else add_charge total

  -- The flush cannot find a second row of the period, since the first read found none and nothing
  -- between the two adds one.
  unfoldable pub create_pending_charge : Action (Option FeeCharge)
  create_pending_charge = do
    found ← gets (λ s. get_for_period customer period_start period_end s.fee_charges)
    existing ← lift found
    charge_unless existing

-- models/fees/payment_method.py, without the instant of the last change.
pub record PaymentMethod : Type 0 where
  pub customer_id : ℕ
  pub stripe_customer_id : ℕ
  pub stripe_payment_method_id : ℕ

-- What the provider answers: a handle, whose status is not read, a decline, or an exception of
-- another kind.
pub data ChargeOutcome : Type 0 where
  charged : ℕ → ChargeOutcome
  declined : ChargeOutcome
  broken : Error → ChargeOutcome

-- integrations/ports.py, `PaymentPort.charge`
pub record PaymentPort : Type 0 where
  pub charge :
      (stripe_customer stripe_method : ℕ) (amount : Money) (idempotency_key : ℕ) → ChargeOutcome

unfoldable pub get_by_customer : ℕ → List PaymentMethod → Result Error (Option PaymentMethod)
get_by_customer customer methods =
    scalar_one_or_none (filter (λ m. m.customer_id == customer) methods)

abbrev pub is_chargeable : FeeChargeStatus → Bool
is_chargeable pending = true
is_chargeable failed = true
is_chargeable _ = false

module _ (policy : DunningPolicy) (port : PaymentPort) (methods : List PaymentMethod)
    (now today : ℕ) where
  abbrev pub settle : ℕ → ChargeOutcome → Action (Unit {0})
  settle n (charged handle) = apply_charge_success today handle n
  settle n declined = apply_charge_failure policy now n
  settle n (broken e) = raise e

  -- `charge_fee` of an open charge
  unfoldable pub charge_open : FeeCharge → Action (Unit {0})
  charge_open charge = do
    found ← lift (get_by_customer charge.customer_id methods)
    method ← lift (require found no_payment_method)
    settle charge.id (
        port.charge method.stripe_customer_id method.stripe_payment_method_id charge.total_accrued
          charge.id)

  -- `charge_fee`; the three transactions follow each other, and the first one writes nothing.
  unfoldable pub charge_fee : ℕ → Action (Unit {0})
  charge_fee n = do
    found ← gets (λ s. find_charge n s.fee_charges)
    charge ← lift (require found fee_charge_not_found)
    if is_chargeable charge.status then charge_open charge else pure tt
