-- ===== src/Orders/Service.antt =====
-- services/orders/order_service.py, with `apply_new_event` of order_projection_service.py.
use trueup.Prelude.{
  find_by, put_by, require, ℕ, Bool, true, false, not, ◌&&◌, ◌||◌, Option, none, some, List, [],
  ◌∷◌, ◌++◌, filter, any, Result, ok, err, ◌==◌, if◌then◌else◌,
}
use trueup.Prelude.Int.{pos, ltb_ℤ}
use trueup.Errors.{
  Error, insufficient_investable_cash, order_not_found, invalid_order_transition,
  order_not_cancellable, no_broker_order_id, integrity_error, security_not_found,
}
use trueup.Money.{Money, Units, Price, mul_price_units}
use trueup.Store.{
  Action, pure, gets, lift, guard, modify, fresh_id, ◌>>=◌, ◌>>◌, Order, OrderSide, buy, sell,
  OrderStatus, awaiting_approval, approved, submitted, rejected, canceled, expired, OrderEvent,
  OrderEventType, approved_and_submitted,
}
use trueup.Outbox.{enqueue}
use trueup.Ledger.Accounts.{column_is}
use trueup.Ledger.CashPolicy.{investable}
use trueup.Funding.{find_customer, check_customer, check_eligibility}
use trueup.Orders.Projection.{OrderProjectionState, sort_events, fold}
use trueup.Orders.Holds.{open_hold, release, is_at_broker, order_holds_provider}

-- The port to the broker, which may raise; a submission returns the broker's id of the order.
pub record Broker : Type 0 where
  pub submit_order : Order → Result Error ℕ
  pub cancel_order : ℕ → Result Error (Unit {0})

abbrev pub find_order : ℕ → List Order → Option Order
find_order n rows = find_by (λ o. o.id) n rows

abbrev pub put_order : Order → List Order → List Order
put_order new rows = put_by (λ o. o.id) new rows

abbrev pub same_execution : Option ℕ → Option ℕ → Bool
same_execution none other = false
same_execution (some n) other = column_is other n

-- The constraints `uq_order_event_order_id_seq` and `uq_order_event_execution_id`.
unfoldable pub is_duplicate : OrderEvent → List OrderEvent → Bool
is_duplicate e events =
    any
      (λ x.
        x.order_id == e.order_id && x.seq == e.seq || same_execution e.execution_id x.execution_id)
      events

abbrev pub list_for_order : ℕ → List OrderEvent → List OrderEvent
list_for_order n events = sort_events (filter (λ e. e.order_id == n) events)

-- `_release_hold_if_warranted`
unfoldable pub release_if_warranted : ℕ → ℕ → OrderStatus → Action (Unit {0})
release_if_warranted order now submitted =
    modify
      (λ s. record s { approval_holds = release order approved_and_submitted now s.approval_holds })
release_if_warranted order now rejected =
    modify (λ s. record s { approval_holds = release order rejected now s.approval_holds })
release_if_warranted order now canceled =
    modify (λ s. record s { approval_holds = release order canceled now s.approval_holds })
release_if_warranted order now expired =
    modify (λ s. record s { approval_holds = release order expired now s.approval_holds })
release_if_warranted order now _ = pure tt

-- `OrderProjectionService.apply_new_event`
unfoldable pub apply_new_event : ℕ → Order → OrderEvent → Action OrderProjectionState
apply_new_event now order event = do
  taken ← gets (λ s. is_duplicate event s.order_events)
  guard taken integrity_error
  modify (λ s. record s { order_events = s.order_events ++ event ∷ [] })
  projected ← gets (λ s. fold (list_for_order order.id s.order_events) order.quantity_requested)
  state ← lift projected
  modify (λ s. record s {
    orders =
        put_order
          (record order {
            status = state.status;
            filled_quantity = state.filled_quantity;
            average_fill_price = state.average_fill_price;
          })
          s.orders;
  })
  release_if_warranted order.id now state.status
  pure state

-- `_synthesize_event`; the clock's instant is also the sequence number.
unfoldable pub synthesize_event : ℕ → Order → OrderEventType → Option ℕ → Action (Unit {0})
synthesize_event now order event_type broker_order_id = do
  let event : OrderEvent = record {
    order_id = order.id;
    seq = now;
    event_type = event_type;
    execution_id = none;
    quantity = none;
    price = none;
    broker_order_id = broker_order_id;
  }
  apply_new_event now order event
  pure tt

-- The check of `create_order` that only a buy makes.
unfoldable pub check_investable : OrderSide → ℕ → Money → Action (Unit {0})
check_investable sell customer notional = pure tt
check_investable buy customer notional = do
  figure ← gets (λ s. investable (order_holds_provider s) customer s)
  limit ← lift figure
  guard (ltb_ℤ limit notional) insufficient_investable_cash

unfoldable pub create_order :
    Money → (customer security : ℕ) → OrderSide → Units → Price → Action Order
create_order threshold customer security side quantity reference_price = do
  check_eligibility customer
  notional ← lift (mul_price_units reference_price quantity)
  check_investable side customer notional
  id ← fresh_id
  let order : Order = record {
    id = id;
    customer_id = customer;
    security_id = security;
    side = side;
    quantity_requested = quantity;
    status = if ltb_ℤ threshold notional then awaiting_approval else approved;
    filled_quantity = pos 0;
    average_fill_price = none;
    designated_lot_ids = [];
  }
  modify (λ s. record s { orders = s.orders ++ order ∷ [] })
  modify (λ s. record s { approval_holds = open_hold id customer notional s.approval_holds })
  pure order

abbrev pub is_awaiting : OrderStatus → Bool
is_awaiting awaiting_approval = true
is_awaiting _ = false

abbrev pub is_approved_order : OrderStatus → Bool
is_approved_order approved = true
is_approved_order _ = false

unfoldable pub approve : ℕ → Action Order
approve order_id = do
  found ← gets (λ s. find_order order_id s.orders)
  order ← lift (require found order_not_found)
  guard (not (is_awaiting order.status)) invalid_order_transition
  modify (λ s. record s { orders = put_order (record order { status = approved }) s.orders })
  pure (record order { status = approved })

abbrev is_submitted : OrderEventType → Bool
is_submitted submitted = true
is_submitted _ = false

abbrev recorded_id : List OrderEvent → Option ℕ
recorded_id [] = none
recorded_id (e ∷ es) =
    let rest = recorded_id es in
    if is_submitted e.event_type
    then elim e.broker_order_id [ some n ↦ some n | none ↦ rest ]
    else rest

-- `_broker_order_id`
unfoldable pub broker_order_id_of : Order → Action ℕ
broker_order_id_of order = do
  events ← gets (λ s. list_for_order order.id s.order_events)
  lift (require (recorded_id events) no_broker_order_id)

unfoldable pub request_cancel : Broker → ℕ → Action Order
request_cancel broker order_id = do
  found ← gets (λ s. find_order order_id s.orders)
  order ← lift (require found order_not_found)
  guard (not (is_at_broker order.status)) order_not_cancellable
  broker_order_id ← broker_order_id_of order
  lift (broker.cancel_order broker_order_id)
  pure order

-- Past the two early returns of `submit_to_broker`, on the customer's eligibility.
unfoldable pub submit_if_eligible : Broker → ℕ → Order → Result Error (Unit {0}) → Action (Unit {0})
submit_if_eligible broker now order (ok tt) = do
  handle ← lift (broker.submit_order order)
  synthesize_event now order submitted (some handle)
submit_if_eligible broker now order (err e) = synthesize_event now order rejected none

unfoldable pub submit_found : Broker → ℕ → Option Order → Action (Unit {0})
submit_found broker now none = pure tt
submit_found broker now (some order) = do
  eligible ← gets (λ s. check_customer (find_customer order.customer_id s.customers))
  if is_approved_order order.status then submit_if_eligible broker now order eligible else pure tt

-- `submit_to_broker`
unfoldable pub submit_to_broker : Broker → ℕ → ℕ → Action (Unit {0})
submit_to_broker broker now order_id = do
  found ← gets (λ s. find_order order_id s.orders)
  submit_found broker now found

-- `enqueue_submission`; the task's payload is left out.
unfoldable pub enqueue_submission : ℕ → Order → Action (Unit {0})
enqueue_submission now order = do
  known ← gets (λ s. any (λ n. n == order.security_id) s.securities)
  guard (not known) security_not_found
  id ← fresh_id
  modify (λ s. record s { outbox = enqueue id now s.outbox })
