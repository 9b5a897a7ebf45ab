-- ===== src/Orders/Created.antt =====
-- What a new order has passed, and what it leaves behind; and that a cancel request writes nothing.
use trueup.Prelude.{
  require, ℕ, ◌≡◌, ap, sym, ◌∙◌, Bool, true, false, not, Option, none, some, [], ◌∷◌, ◌++◌, ok,
  if◌then◌else◌, ok_injective, arith,
}
use trueup.Prelude.Int.{ltb_ℤ, ◌≤ℤ◌}
use trueup.Errors.{Error, insufficient_investable_cash, order_not_found, order_not_cancellable}
use trueup.Money.{Money, Units, Price, mul_price_units}
use trueup.Store.{
  Store, lift, guard, fresh_id, Customer, ApprovalHold, active, Order, OrderSide, buy, sell,
  awaiting_approval, approved,
}
use trueup.Store.Keeps.{bind-ok, lift-ok, guard-ok}
use trueup.Ledger.CashPolicy.{investable}
use trueup.Funding.{check_eligibility, find_customer}
use trueup.Funding.Limits.{check_eligibility-ok, check_customer-ok}
use trueup.Orders.Holds.{open_hold, order_holds_provider, is_at_broker}
use trueup.Orders.Service.{
  check_investable, create_order, Broker, find_order, broker_order_id_of, request_cancel,
}

abbrev pub IsAffordable : OrderSide → ℕ → Money → Store → Type 0
IsAffordable sell customer notional s = Unit
IsAffordable buy customer notional s =
    (limit : Money) × (investable (order_holds_provider s) customer s ≡ ok limit)
    × (notional ≤ℤ limit)

check_investable-ok :
    (side : OrderSide) (customer : ℕ) (notional : Money) (s : Store) {s' : Store}
    → check_investable side customer notional s ≡ ok (tt, s')
    → (s' ≡ s) × IsAffordable side customer notional s
unfolding check_investable
check_investable-ok sell customer notional s e =
    (sym (ap (λ (p : Unit {0} × Store). p.1) (ok_injective {E = Error} e)), tt)
check_investable-ok buy customer notional s e =
    let (limit, s1, figure, k) =
      bind-ok (lift (investable (order_holds_provider s) customer s)) _ s e in
    let (same1, is) = lift-ok (investable (order_holds_provider s) customer s) s figure in
    let (same2, within) = guard-ok (ltb_ℤ limit notional) insufficient_investable_cash s1 k in
    (same2 ∙ same1, (limit, is, ground arith))

-- The active hold of an order.
abbrev pub new_hold : ℕ → ℕ → Money → ApprovalHold
new_hold order customer amount = record {
  order_id = order;
  customer_id = customer;
  amount_money = amount;
  status = active;
  released_at = none;
  release_reason = none;
}

-- An order that is created is of a customer whose KYC and whose account are approved, and, for a buy within the investable cash of the store it started from, has
-- the notional of its reference price on hold, in one new active row; it waits for approval exactly
-- if that notional is over the threshold.
pub create_order-ok :
    (threshold : Money) (customer security : ℕ) (side : OrderSide) (quantity : Units)
    (price : Price) (s : Store) {o : Order} {s' : Store}
    → create_order threshold customer security side quantity price s ≡ ok (o, s')
    → (c : Customer) × (notional : Money) × (find_customer customer s.customers ≡ some c)
      × (c.kyc_status ≡ approved)
      × (c.account_approval_status ≡ approved)
      × (mul_price_units price quantity ≡ ok notional)
      × IsAffordable side customer notional s
      × (s'.orders ≡ s.orders ++ o ∷ [])
      × (s'.approval_holds ≡ s.approval_holds ++ new_hold o.id customer notional ∷ [])
      × (o.status ≡ (if ltb_ℤ threshold notional then awaiting_approval else approved))
      × (s'.postings ≡ s.postings)
unfolding create_order fresh_id open_hold
create_order-ok threshold customer security side quantity price s {o} {s'} e =
    let (u, s1, passed, e1) = bind-ok (check_eligibility customer) _ s e in
    let (same1, eligible) = check_eligibility-ok customer s passed in
    let (c, known, kyc, approval) =
      check_customer-ok (find_customer customer s.customers) eligible in
    let (notional, s2, priced, e2) = bind-ok (lift (mul_price_units price quantity)) _ s1 e1 in
    let (same2, cost) = lift-ok (mul_price_units price quantity) s1 priced in
    let (v, s3, checked, e3) = bind-ok (check_investable side customer notional) _ s2 e2 in
    let (same3, affordable) = check_investable-ok side customer notional s2 checked in
    let back : s2 ≡ s = same2 ∙ same1 in
    let back3 : s3 ≡ s = same3 ∙ back in
    let row = ap (λ (p : Order × Store). p.0) (ok_injective {E = Error} e3) in
    let end = ap (λ (p : Order × Store). p.1) (ok_injective {E = Error} e3) in
    (
      c,
      notional,
      known,
      kyc,
      approval,
      cost,
      carried notional s2 back affordable,
      sym (ap (λ (s : Store). s.orders) end) ∙ orders s3 _ back3 row,
      sym (ap (λ (s : Store). s.approval_holds) end)
          ∙ holds notional s3 s3.next_id back3 (ap (λ (o : Order). o.id) row),
      sym (ap (λ (o : Order). o.status) row),
      sym (ap (λ (s : Store). s.postings) end) ∙ ap (λ (s : Store). s.postings) back3,
    )
  where
    carried :
        (notional : Money) (s2 : Store)
        → s2 ≡ s
        → IsAffordable side customer notional s2
        → IsAffordable side customer notional s
    carried notional s2 back h = rw (sym back) h

    orders : (s3 : Store) (x : Order) → s3 ≡ s → x ≡ o → s3.orders ++ x ∷ [] ≡ s.orders ++ o ∷ []
    orders s3 x back is = rw (is, back)

    holds :
        (notional : Money) (s3 : Store) (n : ℕ)
        → s3 ≡ s
        → n ≡ o.id
        → s3.approval_holds ++ new_hold n customer notional ∷ []
          ≡ s.approval_holds ++ new_hold o.id customer notional ∷ []
    holds notional s3 n back is = rw (is, back)

unnegated : (b : Bool) → not b ≡ false → b ≡ true
unnegated true e = cc
unnegated false e = cc

-- A cancel request that returns leaves the store as it is, so it neither cancels the order nor frees
-- its hold; the order is one that the broker has.
pub request_cancel-writes_nothing :
    (broker : Broker) (n : ℕ) (s : Store) {o : Order} {s' : Store}
    → request_cancel broker n s ≡ ok (o, s')
    → (s' ≡ s) × (find_order n s.orders ≡ some o) × (is_at_broker o.status ≡ true)
unfolding request_cancel broker_order_id_of
request_cancel-writes_nothing broker n s {o} {s'} e =
    let (order, s1, found, e1) =
      bind-ok (lift (require (find_order n s.orders) order_not_found)) _ s e in
    let (same1, is) = lift-ok (require (find_order n s.orders) order_not_found) s found in
    let (u, s2, guarded, e2) =
      bind-ok (guard (not (is_at_broker order.status)) order_not_cancellable) _ s1 e1 in
    let (same2, there) =
      guard-ok (not (is_at_broker order.status)) order_not_cancellable s1 guarded in
    let (id, s3, recorded, e3) = bind-ok (broker_order_id_of order) _ s2 e2 in
    let (same3, _) = lift-ok _ s2 recorded in
    let (v, s4, sent, e4) = bind-ok (lift (broker.cancel_order id)) _ s3 e3 in
    let (same4, _) = lift-ok (broker.cancel_order id) s3 sent in
    let row : order ≡ o = ap (λ (p : Order × Store). p.0) (ok_injective {E = Error} e4) in
    let end : s4 ≡ s' = ap (λ (p : Order × Store). p.1) (ok_injective {E = Error} e4) in
    (
      sym end ∙ same4 ∙ same3 ∙ same2 ∙ same1,
      (required (find_order n s.orders) is ∙ ap some row),
      on_broker order row there,
    )
  where
    required : {x : Order} (r : Option Order) → require r order_not_found ≡ ok x → r ≡ some x
    required (some x) e = ap some (ok_injective {E = Error} e)
    required none e = cc

    on_broker :
        (order : Order)
        → order ≡ o
        → not (is_at_broker order.status) ≡ false
        → is_at_broker o.status ≡ true
    on_broker order row there = rw row at (unnegated (is_at_broker order.status) there)
