-- ===== src/Store.antt =====
-- The unit of work (backend/app/core/uow.py) as the services see it: the tables that they read
-- and write, and the source of fresh ids. A raised exception rolls the transaction back, so an
-- error carries no store. Texts (memos, payloads, reasons given in words) are left out.
mod Rows
mod OfficeRows
mod FigureRows
pub mod Keeps
use trueup.Prelude.{ℕ, suc, ◌+◌, Bool, Option, List, ◌∷◌, [], ◌++◌, Result, ok, err, if◌then◌else◌}
use trueup.Errors.{Error}
use trueup.Money.{Money, Units}
use trueup.Outbox.{JobOutbox}
pub use Rows.*
pub use OfficeRows.*
pub use FigureRows.*

pub record Store : Type 0 where
  pub next_id : ℕ
  pub accounts : List Account
  pub journal_entries : List JournalEntry
  pub postings : List Posting
  pub obligations : List SettlementObligation
  pub tax_lots : List TaxLot
  pub lot_consumptions : List LotConsumption
  pub adjustments : List WashSaleAdjustment
  pub customers : List Customer
  pub bank_links : List BankLink
  pub kyc_sessions : List KycSession
  pub orders : List Order
  pub order_events : List OrderEvent
  pub approval_holds : List ApprovalHold
  pub agent_action_requests : List AgentActionRequest
  pub reconciliation_breaks : List ReconciliationBreak
  pub fee_charges : List FeeCharge
  pub dunning_states : List DunningState
  pub fee_accruals : List FeeAccrual
  pub securities : List ℕ
  pub daily_closes : List DailyClose
  pub sub_period_returns : List SubPeriodReturn
  pub published_snapshots : List PublishedSnapshot
  pub restatement_events : List RestatementEvent
  pub fee_restatement_disclosures : List FeeRestatementDisclosure
  pub high_water_marks : List HighWaterMark
  pub customer_model_assignments : List CustomerModelAssignment
  pub target_weights : List TargetWeight
  pub idempotency_keys : List IdempotencyRecord
  pub outbox : List JobOutbox

abbrev pub Action : Type 0 → Type 0
Action A = Store → Result Error (A × Store)

module _ {A : Type 0} where
  abbrev pub pure : A → Action A
  pure a s = ok (a, s)

  abbrev pub raise : Error → Action A
  raise e s = err e

  abbrev pub gets : (Store → A) → Action A
  gets f s = ok (f s, s)

  -- A computation that touches no table.
  abbrev pub lift : Result Error A → Action A
  lift (ok a) s = ok (a, s)
  lift (err e) s = err e

infixl 5 ◌>>=◌ ◌>>◌
abbrev pub ◌>>=◌ : {A B : Type 0} → Action A → (A → Action B) → Action B
◌>>=◌ m f s = elim (m s) [ ok (a, s') ↦ f a s' | err e ↦ err e ]

abbrev pub ◌>>◌ : {A B : Type 0} → Action A → Action B → Action B
m >> k = m >>= λ _. k

abbrev pub modify : (Store → Store) → Action (Unit {0})
modify f s = ok (tt, f s)

-- `if b: raise e`
abbrev pub guard : Bool → Error → Action (Unit {0})
guard b e s = if b then err e else ok (tt, s)

-- `uuid.uuid4()`, and the id of an inbound event that is recorded on the way.
unfoldable pub fresh_id : Action ℕ
fresh_id s = ok (s.next_id, record s { next_id = suc s.next_id })
