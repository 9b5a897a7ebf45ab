-- ===== src/Store/Rows.antt =====
-- The rows of the tables under backend/app/models that the services read and write.
use trueup.Prelude.{ℕ, Bool, Option, List}
use trueup.Money.{Money, Units, Price}

-- models/ledger/account.py
pub data AccountRole : Type 0 where
  cash customer_equity position_units position_cost fees_expense dividend_income : AccountRole
  customer_receivable dividend_receivable realized_gain_loss : AccountRole
  fees_accrued_payable fee_revenue_accrued fee_revenue_collected : AccountRole

pub data AccountDimension : Type 0 where
  money_dimension units_dimension : AccountDimension

pub record Account : Type 0 where
  pub id : ℕ
  pub customer_id : Option ℕ
  pub security_id : Option ℕ
  pub role : AccountRole
  pub dimension : AccountDimension

-- models/ledger/journal_entry.py
pub data JournalEntryType : Type 0 where
  trade_buy trade_sell deposit withdrawal dividend split fee_adjustment : JournalEntryType
  correction wash_sale_adjustment : JournalEntryType

pub record JournalEntry : Type 0 where
  pub id : ℕ
  pub entry_type : JournalEntryType
  pub effective_date : ℕ
  pub source_event_id : ℕ
  pub superseded_by : Option ℕ

-- models/ledger/posting.py
pub record Posting : Type 0 where
  pub journal_entry_id : ℕ
  pub account_id : ℕ
  pub customer_id : Option ℕ
  pub amount_money : Option Money
  pub quantity_units : Option Units

-- models/ledger/settlement_obligation.py
pub data ObligationStatus : Type 0 where
  pending confirmed failed : ObligationStatus

pub record SettlementObligation : Type 0 where
  pub id : ℕ
  pub journal_entry_id : ℕ
  pub account_id : ℕ
  pub amount_money : Money
  pub expected_settlement_date : ℕ
  pub status : ObligationStatus
  pub confirmed_at : Option ℕ
  pub failed_at : Option ℕ
  pub source_event_id : ℕ

-- models/ledger/tax_lot.py
pub data LotDesignation : Type 0 where
  unspecified specific : LotDesignation

pub record TaxLot : Type 0 where
  pub id : ℕ
  pub customer_id : ℕ
  pub security_id : ℕ
  pub opening_fill_execution_id : ℕ
  pub quantity_opened : Units
  pub quantity_remaining : Units
  pub original_cost_basis : Money
  pub adjusted_basis : Money
  pub acquired_at : ℕ
  pub designation : LotDesignation
  pub designation_window_closes_at : ℕ

-- models/ledger/lot_consumption.py
pub record LotConsumption : Type 0 where
  pub id : ℕ
  pub closing_fill_execution_id : ℕ
  pub tax_lot_id : ℕ
  pub quantity_consumed : Units
  pub realized_gain_loss : Money
  pub is_provisional : Bool
  pub sale_date : ℕ

-- models/ledger/wash_sale_adjustment.py
pub record WashSaleAdjustment : Type 0 where
  pub original_lot_consumption_id : ℕ
  pub replacement_tax_lot_id : ℕ
  pub disallowed_amount : Money
  pub journal_entry_id : ℕ

-- models/identity/customer.py, the columns that the services read
pub data VerdictStatus : Type 0 where
  pending approved rejected : VerdictStatus

pub record Customer : Type 0 where
  pub id : ℕ
  pub kyc_status : VerdictStatus
  pub account_approval_status : VerdictStatus

-- models/identity/bank_link.py
pub data BankLinkStatus : Type 0 where
  active requires_reauth superseded : BankLinkStatus

pub record BankLink : Type 0 where
  pub id : ℕ
  pub customer_id : ℕ
  pub status : BankLinkStatus

-- models/identity/kyc_session.py
pub record KycSession : Type 0 where
  pub id : ℕ
  pub customer_id : ℕ
  pub provider_session_id : ℕ
  pub status : VerdictStatus
  pub attempt_number : ℕ
  pub resolved_at : Option ℕ

-- models/orders/order.py
pub data OrderSide : Type 0 where
  buy sell : OrderSide

pub data OrderStatus : Type 0 where
  draft awaiting_approval approved submitted accepted partially_filled filled : OrderStatus
  rejected canceled expired : OrderStatus

-- The `client_order_id` is a text made of the id, and is not kept beside it.
pub record Order : Type 0 where
  pub id : ℕ
  pub customer_id : ℕ
  pub security_id : ℕ
  pub side : OrderSide
  pub quantity_requested : Units
  pub status : OrderStatus
  pub filled_quantity : Units
  pub average_fill_price : Option Price
  pub designated_lot_ids : List ℕ

-- models/orders/order_event.py; of the payload, the keys that are read.
pub data OrderEventType : Type 0 where
  submitted accepted fill rejected canceled expired : OrderEventType

pub record OrderEvent : Type 0 where
  pub order_id : ℕ
  pub seq : ℕ
  pub event_type : OrderEventType
  pub execution_id : Option ℕ
  pub quantity : Option Units
  pub price : Option Price
  pub broker_order_id : Option ℕ

-- models/orders/approval_hold.py
pub data ApprovalHoldStatus : Type 0 where
  active released : ApprovalHoldStatus

pub data ApprovalHoldReleaseReason : Type 0 where
  approved_and_submitted rejected canceled expired : ApprovalHoldReleaseReason

pub record ApprovalHold : Type 0 where
  pub order_id : ℕ
  pub customer_id : ℕ
  pub amount_money : Money
  pub status : ApprovalHoldStatus
  pub released_at : Option ℕ
  pub release_reason : Option ApprovalHoldReleaseReason
