-- ===== src/Orders/TradeUpdates.antt =====
-- services/orders/trade_update_handler.py: an event of the broker, applied to its order and, if it is
-- a fill, to the lots.
use trueup.Prelude.{require, ℕ, Option, none, some}
use trueup.Errors.{order_not_found, invalid_fill_payload}
use trueup.Money.{Units, Price}
use trueup.Clock.{MarketClock}
use trueup.Store.{
  Action, pure, gets, lift, ◌>>=◌, ◌>>◌, Order, OrderSide, buy, sell, OrderStatus, OrderEvent,
  OrderEventType, partially_filled, filled, rejected, canceled, expired, fill,
}
use trueup.Lots.WashSale.{Restatement}
use trueup.Lots.Fills.{record_buy_fill, record_sell_fill}
use trueup.Orders.Service.{find_order, apply_new_event}

-- `_AlpacaTradeUpdatePayload`; the event is none if it is not in `_EVENT_TYPE_BY_ALPACA_EVENT`, and
-- the `client_order_id` is the order's id.
pub record TradeUpdate : Type 0 where
  pub event : Option OrderEventType
  pub execution_id : Option ℕ
  pub client_order_id : ℕ
  pub timestamp : ℕ
  pub price : Option Price
  pub qty : Option Units

-- What only a fill keeps of its message.
abbrev pub if_fill : {A : Type 0} → OrderEventType → Option A → Option A
if_fill fill a = a
if_fill _ a = none

-- `_PUSH_WORTHY_STATUSES`
abbrev pub push_worthy : OrderStatus → Option OrderStatus
push_worthy filled = some filled
push_worthy partially_filled = some partially_filled
push_worthy rejected = some rejected
push_worthy canceled = some canceled
push_worthy expired = some expired
push_worthy _ = none

module _ (restatement : Restatement) (clock : MarketClock) where
  unfoldable pub record_side : Order → OrderSide → ℕ → Units → Price → ℕ → Action (Unit {0})
  record_side order buy execution quantity price filled_at = do
    record_buy_fill restatement clock order.customer_id order.security_id execution quantity price
        filled_at
    pure tt
  record_side order sell execution quantity price filled_at = do
    record_sell_fill restatement clock order.customer_id order.security_id execution quantity price
        filled_at order.designated_lot_ids
    pure tt

  -- `_record_lot_fill`
  unfoldable pub record_lot_fill : Order → TradeUpdate → Action (Unit {0})
  record_lot_fill order message = do
    execution ← lift (require message.execution_id invalid_fill_payload)
    quantity ← lift (require message.qty invalid_fill_payload)
    price ← lift (require message.price invalid_fill_payload)
    record_side order order.side execution quantity price message.timestamp

  abbrev pub record_if_fill : OrderEventType → Order → TradeUpdate → Action (Unit {0})
  record_if_fill fill order message = record_lot_fill order message
  record_if_fill _ order message = pure tt

  -- `handle` on a tracked event; it returns the status to push once the unit of work has committed.
  unfoldable pub handle_event : ℕ → TradeUpdate → OrderEventType → Action (Option OrderStatus)
  handle_event now message event_type = do
    found ← gets (λ s. find_order message.client_order_id s.orders)
    order ← lift (require found order_not_found)
    let event : OrderEvent = record {
      order_id = order.id;
      seq = message.timestamp;
      event_type = event_type;
      execution_id = if_fill event_type message.execution_id;
      quantity = if_fill event_type message.qty;
      price = if_fill event_type message.price;
      broker_order_id = none;
    }
    state ← apply_new_event now order event
    record_if_fill event_type order message
    pure (push_worthy state.status)

  unfoldable pub handle : ℕ → TradeUpdate → Action (Option OrderStatus)
  handle now message = elim message.event [
    | none ↦ pure none
    | some event_type ↦ handle_event now message event_type
  ]
