-- ===== src/Orders/Endpoints.antt =====
-- controllers/api/orders.py with core/idempotency.py: the requests of a customer on orders, of which
-- the creation is answered again from its stored response. Errors stand for the responses that they
-- are turned into.
use trueup.Prelude.{
  ℕ, Bool, true, false, not, ◌&&◌, Option, none, some, List, [], ◌∷◌, ◌++◌, Result, ok, err,
  require, ◌==◌, if◌then◌else◌,
}
use trueup.Errors.{
  Error, unauthenticated, forbidden, idempotency_key_missing, validation_failed,
  idempotency_conflict, order_not_found,
}
use trueup.Money.{Money, Units, Price}
use trueup.Store.{
  Action, pure, gets, lift, guard, modify, ◌>>=◌, ◌>>◌, Order, OrderSide, IdempotencyRecord,
}
use trueup.Orders.Service.{
  Broker, find_order, put_order, create_order, approve, request_cancel, is_approved_order,
  enqueue_submission,
}
use trueup.Orders.Designation.{validate}

pub data Role : Type 0 where
  customer adviser admin : Role

-- `current_user`, and the user id of the session.
pub record Session : Type 0 where
  pub is_authenticated : Bool
  pub role : Role
  pub user_id : ℕ

abbrev pub is_customer : Role → Bool
is_customer customer = true
is_customer _ = false

-- The two checks at the head of the endpoints that only a customer may call.
abbrev pub require_customer : Session → Action ℕ
require_customer session = do
  guard (not session.is_authenticated) unauthenticated
  guard (not (is_customer session.role)) forbidden
  pure session.user_id

pub record CreateOrderRequest : Type 0 where
  pub security_id : ℕ
  pub side : OrderSide
  pub quantity : Units
  pub reference_price : Price
  pub lot_ids : Option (List ℕ)

-- `IdempotencyKeyRepository.find`
unfoldable pub find_key : ℕ → ℕ → List IdempotencyRecord → Option IdempotencyRecord
find_key customer_id key [] = none
find_key customer_id key (r ∷ rs) =
    if r.customer_id == customer_id && r.key == key then some r else find_key customer_id key rs

-- A response: its status and the order that it shows.
abbrev pub Response : Type 0
Response = ℕ × Order

-- What the framework gives: the parsed body of a request, and the hash of its bytes (SHA-256).
pub record Framework : Type 0 where
  pub parse : ℕ → Option CreateOrderRequest
  pub request_hash : ℕ → ℕ

abbrev pub designated_ids : Option (List ℕ) → List ℕ
designated_ids none = []
designated_ids (some ids) = ids

module _ (framework : Framework) where
  unfoldable pub resolve_replay : IdempotencyRecord → ℕ → Result Error Response
  resolve_replay record_found body =
      if framework.request_hash body == record_found.request_hash
      then ok (record_found.response_status, record_found.response_body)
      else err idempotency_conflict

  module _ (threshold : Money) (now : ℕ) where
    -- The part of `create_order` that services do, up to the view.
    unfoldable pub create_new : ℕ → CreateOrderRequest → Action Order
    create_new customer_id request = do
      validated ←
          gets
            (validate customer_id request.security_id request.side request.quantity request.lot_ids)
      designated ← lift validated
      order ←
          create_order threshold customer_id request.security_id request.side request.quantity
            request.reference_price
      let named = record order { designated_lot_ids = designated_ids designated }
      modify (λ s. record s { orders = put_order named s.orders })
      if is_approved_order order.status then enqueue_submission now named else pure tt
      pure named

    unfoldable pub respond :
        ℕ → ℕ → ℕ → CreateOrderRequest → Option IdempotencyRecord → Action Response
    respond customer_id key body request (some existing) = lift (resolve_replay existing body)
    respond customer_id key body request none = do
      order ← create_new customer_id request
      let stored : IdempotencyRecord = record {
        customer_id = customer_id;
        key = key;
        request_hash = framework.request_hash body;
        response_status = 201;
        response_body = order;
        created_at = now;
      }
      modify (λ s. record s { idempotency_keys = s.idempotency_keys ++ stored ∷ [] })
      pure (201, order)

    -- `POST /api/v1/orders`
    unfoldable pub create_order_endpoint : Session → Option ℕ → ℕ → Action Response
    create_order_endpoint session header body = do
      customer_id ← require_customer session
      key ← lift (require header idempotency_key_missing)
      request ← lift (require (framework.parse body) validation_failed)
      existing ← gets (λ s. find_key customer_id key s.idempotency_keys)
      respond customer_id key body request existing

-- The tenant's view of the table: another customer's order is not there.
unfoldable pub check_owned : ℕ → ℕ → Action (Unit {0})
check_owned customer_id order_id = do
  found ← gets (λ s. find_order order_id s.orders)
  order ← lift (require found order_not_found)
  guard (not (order.customer_id == customer_id)) order_not_found

-- `POST /api/v1/orders/<order_id>/approve`
unfoldable pub approve_order_endpoint : ℕ → Session → ℕ → Action Response
approve_order_endpoint now session order_id = do
  customer_id ← require_customer session
  check_owned customer_id order_id
  order ← approve order_id
  enqueue_submission now order
  pure (200, order)

-- `POST /api/v1/orders/<order_id>/cancel`
unfoldable pub cancel_order_endpoint : Broker → Session → ℕ → Action Response
cancel_order_endpoint broker session order_id = do
  customer_id ← require_customer session
  check_owned customer_id order_id
  order ← request_cancel broker order_id
  pure (200, order)
