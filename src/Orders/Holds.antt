-- ===== src/Orders/Holds.antt =====
-- services/orders/approval_hold_service.py and holds_provider.py: the cash that an order holds until
-- it is with the broker, and the two figures that the cash policy subtracts.
use trueup.Prelude.{
  ℕ, ◌≡◌, refl, inl, inr, Bool, true, false, ◌&&◌, Bool-cases, Option, none, some, List, [], ◌∷◌,
  ◌++◌, filter, Result, ok, ◌==◌, if◌then◌else◌, ◌>>=◌, arith,
}
use trueup.Prelude.Int.{pos}
use trueup.Errors.{Error}
use trueup.Money.{money, units, Money, Price, add, sub, mul_price_units}
use trueup.Store.{
  Store, ApprovalHold, ApprovalHoldStatus, active, released, ApprovalHoldReleaseReason, Order,
  OrderSide, buy, sell, OrderStatus, submitted, accepted, partially_filled,
}
use trueup.Ledger.CashPolicy.{HoldsProvider}

abbrev pub is_active : ApprovalHoldStatus → Bool
is_active active = true
is_active released = false

-- `get_by_order_id`; `order_id` is unique.
abbrev pub find_hold : ℕ → List ApprovalHold → Option ApprovalHold
find_hold n [] = none
find_hold n (h ∷ hs) = if h.order_id == n then some h else find_hold n hs

-- `ApprovalHoldService.open`
unfoldable pub open_hold : ℕ → ℕ → Money → List ApprovalHold → List ApprovalHold
open_hold order customer amount holds =
    let hold : ApprovalHold = record {
      order_id = order;
      customer_id = customer;
      amount_money = amount;
      status = active;
      released_at = none;
      release_reason = none;
    } in
    holds ++ hold ∷ []

-- The change of the row that `release` finds.
unfoldable pub release_row : ApprovalHoldReleaseReason → ℕ → ApprovalHold → ApprovalHold
release_row reason released_at h =
    if is_active h.status
    then record h {
      status = released;
      released_at = some released_at;
      release_reason = some reason;
    }
    else h

-- `ApprovalHoldService.release`: of no row, or of a row that is released, it changes nothing.
unfoldable pub release : ℕ → ApprovalHoldReleaseReason → ℕ → List ApprovalHold → List ApprovalHold
release order reason released_at [] = []
release order reason released_at (h ∷ hs) =
    if h.order_id == order
    then release_row reason released_at h ∷ hs
    else h ∷ release order reason released_at hs

-- The loop of `active_total_for_customer`.
unfoldable pub total_holds : Money → List ApprovalHold → Result Error Money
total_holds total [] = ok total
total_holds total (h ∷ hs) = do total' ← add money total h.amount_money; total_holds total' hs

unfoldable pub active_total_for_customer : ℕ → List ApprovalHold → Result Error Money
active_total_for_customer customer holds =
    total_holds (pos 0) (filter (λ h. h.customer_id == customer && is_active h.status) holds)

abbrev is_buy : OrderSide → Bool
is_buy buy = true
is_buy sell = false

-- Also the statuses of `_CANCELLABLE_STATUSES`.
abbrev pub is_at_broker : OrderStatus → Bool
is_at_broker submitted = true
is_at_broker accepted = true
is_at_broker partially_filled = true
is_at_broker _ = false

unfoldable pub open_buy_orders : ℕ → List Order → List Order
open_buy_orders customer orders =
    filter (λ o. o.customer_id == customer && is_buy o.side && is_at_broker o.status) orders

-- One round of `open_buy_commitments`, on the average price and on the hold.
unfoldable pub commitment : Order → Option Price → Option ApprovalHold → Money → Result Error Money
commitment o (some price) hold total = do
  remaining ← sub units o.quantity_requested o.filled_quantity
  cost ← mul_price_units price remaining
  add money total cost
commitment o none none total = do
  remaining ← sub units o.quantity_requested o.filled_quantity
  ok total
commitment o none (some h) total = do
  remaining ← sub units o.quantity_requested o.filled_quantity
  add money total h.amount_money

unfoldable pub total_commitments : List ApprovalHold → Money → List Order → Result Error Money
total_commitments holds total [] = ok total
total_commitments holds total (o ∷ os) = do
  total' ← commitment o o.average_fill_price (find_hold o.id holds) total
  total_commitments holds total' os

-- `OrderHoldsProvider` over the tables of a store.
unfoldable pub order_holds_provider : Store → HoldsProvider
order_holds_provider s = record {
  holds = λ customer. active_total_for_customer customer s.approval_holds;
  open_buy_commitments =
      λ customer. total_commitments s.approval_holds (pos 0) (open_buy_orders customer s.orders);
}

release_row-twice :
    (r q : ApprovalHoldReleaseReason) (t u : ℕ) (h : ApprovalHold)
    → release_row q u (release_row r t h) ≡ release_row r t h
unfolding release_row
release_row-twice r q t u h = ground arith

release_row-order_id :
    (r : ApprovalHoldReleaseReason) (t : ℕ) (h : ApprovalHold)
    → (release_row r t h).order_id ≡ h.order_id
unfolding release_row
release_row-order_id r t h = ground arith

-- A hold is released once: a second release of the order, for whatever reason and at whatever time,
-- changes no row.
pub release-release :
    (order : ℕ) (r q : ApprovalHoldReleaseReason) (t u : ℕ) (hs : List ApprovalHold)
    → release order q u (release order r t hs) ≡ release order r t hs
unfolding release
release-release order r q t u [] = refl
release-release order r q t u (h ∷ hs) = elim (Bool-cases (h.order_id == order)) [
  | inl here ↦
      let still : ((release_row r t h).order_id == order) ≡ true =
        rw (release_row-order_id r t h) here in
      rw (here, still, release_row-twice r q t u h)
  | inr there ↦ rw (there, there, release-release order r q t u hs)
]
