-- ===== src/Store/FigureRows.antt =====
-- The rows of the tables under models/marketdata, models/restatement, models/rebalance and
-- models/fees that figures are computed from and stored in, and the stored responses of
-- models/ops/idempotency_key.py.
use trueup.Prelude.{ℕ, Bool, Option, List}
use trueup.Prelude.Int.{ℤ}
use trueup.Money.{Money, Units, Price}
use trueup.Store.Rows.{Order}

-- models/marketdata/daily_close.py
pub data DailyCloseStatus : Type 0 where
  confirmed stale missing : DailyCloseStatus

pub record DailyClose : Type 0 where
  pub security_id : ℕ
  pub market_date : ℕ
  pub close_price : Price
  pub status : DailyCloseStatus
  pub recorded_at : ℕ

-- models/marketdata/sub_period_return.py; a return is a count of 10^-10.
pub record SubPeriodReturn : Type 0 where
  pub customer_id : ℕ
  pub sub_period_start : ℕ
  pub sub_period_end : ℕ
  pub return_pct : ℤ
  pub value_begin : Money
  pub value_end : Money
  pub flow_amount : Money
  pub is_provisional : Bool
  pub recorded_at : ℕ

-- models/restatement/published_snapshot.py; of a holding, what is not a text.
pub record SnapshotHolding : Type 0 where
  pub security_id : ℕ
  pub quantity : Units
  pub close_price : Option Price

pub record PublishedSnapshot : Type 0 where
  pub customer_id : ℕ
  pub period_start : ℕ
  pub period_end : ℕ
  pub publish_watermark : ℕ
  pub twr : ℤ
  pub balance : Money
  pub holdings : List SnapshotHolding
  pub published_at : ℕ

-- models/restatement/restatement_event.py
pub data RestatementTriggerType : Type 0 where
  corrected_close late_dividend split_trigger wash_sale_trigger : RestatementTriggerType
  manual_correction : RestatementTriggerType

pub record RestatementEvent : Type 0 where
  pub id : ℕ
  pub customer_id : ℕ
  pub affected_period_start : ℕ
  pub affected_period_end : ℕ
  pub trigger_type : RestatementTriggerType
  pub trigger_source_event_id : ℕ

-- models/fees/high_water_mark.py
pub record HighWaterMark : Type 0 where
  pub customer_id : ℕ
  pub peak_value : Money
  pub updated_at : ℕ

-- models/fees/fee_restatement_disclosure.py
pub record FeeRestatementDisclosure : Type 0 where
  pub customer_id : ℕ
  pub fee_charge_id : ℕ
  pub restatement_event_id : ℕ

-- models/rebalance; a weight is a count of 10^-4.
pub record CustomerModelAssignment : Type 0 where
  pub customer_id : ℕ
  pub model_portfolio_id : ℕ
  pub assigned_at : ℕ

pub record TargetWeight : Type 0 where
  pub model_portfolio_id : ℕ
  pub security_id : ℕ
  pub weight_pct : ℕ

-- core/idempotency.py, `IdempotencyRecord`; the body of a response stands as the row that it shows.
pub record IdempotencyRecord : Type 0 where
  pub customer_id : ℕ
  pub key : ℕ
  pub request_hash : ℕ
  pub response_status : ℕ
  pub response_body : Order
  pub created_at : ℕ
