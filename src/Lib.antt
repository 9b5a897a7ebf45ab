-- ===== src/Lib.antt =====
-- Trueup keeps customers' money and holdings: a double-entry ledger, deposits and withdrawals, orders
-- that go to a broker, the tax lots that their fills open and consume, and the wash-sale rule. This
-- library models the parts of backend/app that decide about money and units. A service is modelled as
-- the code runs it inside one unit of work: it reads and changes the tables of a `Store`, and either
-- returns a value with the new store or raises, which rolls the transaction back, so that an error
-- carries no store.
--
-- Money (Money.antt, Decimal.antt; core/money.py): a Money, Units or Price is the integer count of
-- its quanta (10^-4, 10^-6, 10^-6). The decimal context's 28 digits and half-even rounding are
-- written out where they can be seen: quotients, products and `allocate`.
-- Clock (Clock.antt; core/clock.py): dates are ordinals; the exchange calendar and the zone database
-- are the fields of a `MarketClock`. A search runs for 14 days, as the code's loop does.
-- Store (Store.antt, Store/Rows.antt, Store/OfficeRows.antt and
-- Store/FigureRows.antt; models): the rows and the monad. Ids that the code draws at
-- random are fresh numbers. Store/Keeps.antt has the rules by which an invariant passes through the
-- actions.
-- Ledger (Ledger.antt; services/ledger, services/lots/_shared.py and the row triggers of
-- models/ledger): accounts, postings and entries, settlement obligations, and the cash policy, whose
-- queries are sums over the tables. `HoldsProvider` is its interface to the orders, which
-- Orders/Holds.antt fills.
-- Funding (Funding.antt; services/identity/deposit_service.py and withdrawal_service.py).
-- Lots (Lots.antt; services/lots/lot_consumption_service.py and wash_sale_service.py): the loop of a
-- sale walks ids and reads each row when it comes to it, since a lot that is named twice is one row.
-- `Restatement` is the interface to the restatement that an adjustment sets off.
-- Lots/CorporateActions.antt and Lots/Splits.antt (services/lots/corporate_action_service.py) are
-- dividends and splits.
-- Orders (Orders.antt; services/orders): the fold of an order's events, holds, creation, approval,
-- cancel requests, submission and trade updates. `Broker` is the port to the broker, which may
-- raise.
-- Outbox (Outbox.antt; models/ops/job_outbox.py and workers/outbox.py): the table as a list, and the
-- workers' transactions as a step relation in Outbox/Attempts.antt, with the claims counted in
-- Outbox/Claimed.antt.
-- Orders/Designation.antt (services/orders/lot_designation_service.py) is the validation of the lots
-- that a customer names for a sale; Orders/Sellable.antt joins it to the loop of Lots.
-- Fees (Fees.antt; services/fees): the ratchet of the high-water mark, the entries of an accrual and
-- of a charge that succeeds, and the retries of one that fails, with instants in seconds.
-- Fees/Billing.antt (fee_charge_service.py, fee_charge_outbox_handler.py) makes a period's charge and
-- hands it to the payment provider: `PaymentPort` is the port, and the payment methods on file are an
-- argument, since this code only reads them.
-- Kyc (Kyc.antt; services/identity/kyc_service.py): identity sessions and their verdicts; `KycPort` is
-- the port to the provider.
-- AgentRequests (AgentRequests.antt; models/ops/agent_action_request.py and
-- controllers/admin/agent_requests.py): the requests of agents, the trigger that guards their rows, and
-- the review that executes them. `Rebalancer` is the interface to the rebalancing of one customer.
-- Reconciliation (Reconciliation.antt; models/reconciliation/reconciliation_break.py and
-- services/reconciliation): the breaks that such a review resolves, and the morning's comparison that
-- opens them. The text id of an inbound event is a function of its row's id.
-- Intake (Intake.antt; services/intake/event_intake.py): signals from outside, whose signatures a
-- verifier passes or not; their tasks go to the table of the Outbox.
-- Valuation (Valuation.antt; services/valuation): a book at the confirmed closes of a date, and
-- time-weighted returns, which are linked from stored rows. Returns are signed decimals
-- (Decimal/Signed.antt) that are rounded to the context where the code's are.
-- Restatement (Restatement.antt; services/restatement): published snapshots with the cross-check that
-- derives them again at their watermark, and the restatement that a correction sets off, which fills
-- the interface of Lots (Restatement/Filled.antt). The instant of a transaction is the database's.
-- Rebalance (Rebalance.antt; services/rebalance): the drift from a model's target weights, and the
-- orders that follow, which fill `Rebalancer`.
-- Orders/Endpoints.antt (controllers/api/orders.py, core/idempotency.py): the requests on orders, with
-- the idempotency key of a creation; the parser and the hash are fields of a `Framework`.
-- Tests (Tests.antt): the theorems at concrete inputs, and runs that show what the code does there.
--
-- All loops are structural, over lists or over the rounds that `range` allows. The integers of the
-- code are unbounded, and the bounds of the columns are those of Money.Precision; dates end where
-- Python's do.
--
-- Not modelled: texts (memos, payloads, messages, the `client_order_id` made of an order's id), row
-- locks and the customer's cash lock, row-level security, the notifications that follow a commit,
-- the other controllers, the adapters of remote services, and the components of backend/app that
-- carry the daily fee, the attaching of a payment method, the dispatch of events and the chat. The
-- digits of a decimal are counted up to 64, more than any value in a column or a product of two has.
pub mod Prelude
pub mod Decimal
pub mod Errors
pub mod Money
pub mod Clock
pub mod Store
pub mod Ledger
pub mod Funding
pub mod Lots
pub mod Orders
pub mod Outbox
pub mod Fees
pub mod Kyc
pub mod Reconciliation
pub mod AgentRequests
pub mod Intake
pub mod Valuation
pub mod Restatement
pub mod Rebalance
pub mod Tests
