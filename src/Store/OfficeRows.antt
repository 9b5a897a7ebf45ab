-- ===== src/Store/OfficeRows.antt =====
-- The rows of the tables under models/ops, models/reconciliation and models/fees.
use trueup.Prelude.{ℕ, Option}
use trueup.Errors.{Error}
use trueup.Money.{Money}

-- models/ops/agent_action_request.py. A text is only compared, and stands as a number; of the
-- arguments, the id that the action reads.
pub data AgentActionType : Type 0 where
  resolve_break kyc_override rebalance : AgentActionType

pub data AgentActionStatus : Type 0 where
  pending approved rejected executed execution_failed : AgentActionStatus

pub record AgentActionRequest : Type 0 where
  pub id : ℕ
  pub action : AgentActionType
  pub arguments : ℕ
  pub requesting_agent : ℕ
  pub justification : ℕ
  pub status : AgentActionStatus
  pub reviewed_by : Option ℕ
  pub reviewed_at : Option ℕ
  pub review_note : Option ℕ
  pub execution_error : Option Error
  pub executed_at : Option ℕ
  pub created_at : ℕ

-- models/reconciliation/reconciliation_break.py; the payloads `expected` and `actual` are texts.
pub data ReconciliationBreakType : Type 0 where
  position_mismatch cash_mismatch : ReconciliationBreakType
  unmatched_custodian_transaction unmatched_internal_transaction : ReconciliationBreakType

pub data ReconciliationBreakStatus : Type 0 where
  open_break resolved_break : ReconciliationBreakStatus

pub record ReconciliationBreak : Type 0 where
  pub id : ℕ
  pub break_type : ReconciliationBreakType
  pub customer_id : Option ℕ
  pub opened_at : ℕ
  pub status : ReconciliationBreakStatus
  pub resolved_at : Option ℕ
  pub resolved_by : Option ℕ
  pub resolution_note : Option ℕ
  pub import_batch_id : ℕ

-- models/fees/fee_charge.py
pub data FeeChargeStatus : Type 0 where
  pending succeeded failed dunning : FeeChargeStatus

pub record FeeCharge : Type 0 where
  pub id : ℕ
  pub customer_id : ℕ
  pub billing_period_start : ℕ
  pub billing_period_end : ℕ
  pub total_accrued : Money
  pub as_published_watermark : Option ℕ
  pub status : FeeChargeStatus
  pub stripe_charge_id : Option ℕ
  pub journal_entry_id : Option ℕ

-- models/fees/dunning_state.py
pub data DunningStatus : Type 0 where
  retrying exhausted : DunningStatus

pub record DunningState : Type 0 where
  pub fee_charge_id : ℕ
  pub customer_id : ℕ
  pub attempt_number : ℕ
  pub next_retry_at : ℕ
  pub max_attempts : ℕ
  pub status : DunningStatus

-- models/fees/fee_accrual.py
pub record FeeAccrual : Type 0 where
  pub customer_id : ℕ
  pub accrual_date : ℕ
  pub gain_amount : Money
  pub fee_amount : Money
  pub journal_entry_id : ℕ
