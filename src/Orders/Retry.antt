-- ===== src/Orders/Retry.antt =====
-- A retried task does not submit an order again.
use trueup.Prelude.{
  find_by-key, find_by-put_by, ℕ, ◌≡◌, refl, ap, sym, ◌∙◌, inl, inr, true, false, Bool-cases,
  Option, none, some, List, [], ◌∷◌, ◌++◌, is_empty, Result, ok, err, ◌==◌, ok_injective, arith,
}
use trueup.Errors.{Error, integrity_error}
use trueup.Store.{
  Store, lift, guard, Order, OrderStatus, OrderEvent, OrderEventType, draft, awaiting_approval,
  approved, submitted, accepted, rejected, canceled, expired, filled, partially_filled,
}
use trueup.Store.Keeps.{bind-ok, lift-ok, guard-ok}
use trueup.Funding.{find_customer, check_customer}
use trueup.Orders.Projection.{OrderProjectionState, fold}
use trueup.Orders.Service.{
  Broker, find_order, put_order, list_for_order, is_duplicate, release_if_warranted,
  apply_new_event, synthesize_event, is_approved_order, submit_if_eligible, submit_found,
  submit_to_broker,
}
use trueup.Orders.Submission.{fold-IsUnderWay, filter-some, sort_events-some}

rows_kept :
    {s s' : Store}
    → ◌≡◌ {A = Result Error (Unit {0} × Store)} (ok (tt, s)) (ok (tt, s'))
    → (s'.orders ≡ s.orders) × (s'.order_events ≡ s.order_events)
rows_kept e =
    let end = ok_injective {E = Error} e in
    (
      sym (ap (λ (p : Unit {0} × Store). p.1.orders) end),
      sym (ap (λ (p : Unit {0} × Store). p.1.order_events) end),
    )

-- A release touches neither the orders nor their events.
pub release_if_warranted-rows :
    (n now : ℕ) (t : OrderStatus) (s : Store) {s' : Store}
    → release_if_warranted n now t s ≡ ok (tt, s')
    → (s'.orders ≡ s.orders) × (s'.order_events ≡ s.order_events)
unfolding release_if_warranted
release_if_warranted-rows n now draft s e = rows_kept e
release_if_warranted-rows n now awaiting_approval s e = rows_kept e
release_if_warranted-rows n now approved s e = rows_kept e
release_if_warranted-rows n now submitted s e = rows_kept e
release_if_warranted-rows n now accepted s e = rows_kept e
release_if_warranted-rows n now partially_filled s e = rows_kept e
release_if_warranted-rows n now filled s e = rows_kept e
release_if_warranted-rows n now rejected s e = rows_kept e
release_if_warranted-rows n now canceled s e = rows_kept e
release_if_warranted-rows n now expired s e = rows_kept e

-- An event that is applied to an order on file leaves its row past `approved`.
apply_new_event-IsUnderWay :
    (now : ℕ) (order : Order) (e : OrderEvent) (s : Store) {p : OrderProjectionState} {s' : Store}
    → find_order order.id s.orders ≡ some order
    → e.order_id ≡ order.id
    → apply_new_event now order e s ≡ ok (p, s')
    → (o : Order) × (find_order order.id s'.orders ≡ some o) × (is_approved_order o.status ≡ false)
unfolding apply_new_event
apply_new_event-IsUnderWay now order e s {p} {s'} row own k =
    let (u, s1, guarded, k1) =
      bind-ok (guard (is_duplicate e s.order_events) integrity_error) _ s k in
    let (same1, fresh) = guard-ok (is_duplicate e s.order_events) integrity_error s guarded in
    let events = list_for_order order.id (s1.order_events ++ e ∷ []) in
    let s2 = record s1 { order_events = s1.order_events ++ e ∷ [] } in
    let (state, s3, folded, k2) = bind-ok (lift (fold events order.quantity_requested)) _ s2 k1 in
    let (same3, projected) = lift-ok (fold events order.quantity_requested) s2 folded in
    let new = record order {
      status = state.status;
      filled_quantity = state.filled_quantity;
      average_fill_price = state.average_fill_price;
    } in
    let s4 = record s3 { orders = put_order new s3.orders } in
    let (v, s5, freed, k3) = bind-ok (release_if_warranted order.id now state.status) _ s4 k2 in
    let kept : s5.orders ≡ put_order new s3.orders =
      (release_if_warranted-rows order.id now state.status s4 freed).0 in
    let end : s' ≡ s5 =
      sym (ap (λ (p : OrderProjectionState × Store). p.1) (ok_injective {E = Error} k3)) in
    let there : s3.orders ≡ s.orders =
      ap (λ (s : Store). s.orders) same3 ∙ ap (λ (s : Store). s.orders) same1 in
    (
      new,
      moved new s3 s5 kept end there (find_by-put_by (λ o. o.id) order.id s.orders new row refl),
      fold-IsUnderWay events order.quantity_requested (some_events s1.order_events) projected,
    )
  where
    own_event : (e.order_id == order.id) ≡ true
    own_event = ground arith

    some_events : (es : List OrderEvent) → is_empty (list_for_order order.id (es ++ e ∷ [])) ≡ false
    some_events es = sort_events-some _ (filter-some (λ x. x.order_id == order.id) es e own_event)

    moved :
        (new : Order) (s3 s5 : Store)
        → s5.orders ≡ put_order new s3.orders
        → s' ≡ s5
        → s3.orders ≡ s.orders
        → find_order order.id (put_order new s.orders) ≡ some new
        → find_order order.id s'.orders ≡ some new
    moved new s3 s5 kept end there found = rw (end, kept, there) found

synthesize_event-IsUnderWay :
    (now : ℕ) (order : Order) (t : OrderEventType) (b : Option ℕ) (s : Store) {s' : Store}
    → find_order order.id s.orders ≡ some order
    → synthesize_event now order t b s ≡ ok (tt, s')
    → (o : Order) × (find_order order.id s'.orders ≡ some o) × (is_approved_order o.status ≡ false)
unfolding synthesize_event
synthesize_event-IsUnderWay now order t b s {s'} row k =
    let (p, s1, applied, k1) = bind-ok (apply_new_event now order _) _ s k in
    let end : s' ≡ s1 = sym (ap (λ (p : Unit {0} × Store). p.1) (ok_injective {E = Error} k1)) in
    let (o, found, past) = apply_new_event-IsUnderWay now order _ s row refl applied in
    (o, (rw end found), past)

module _ (broker : Broker) (now : ℕ) where
  submit_if_eligible-IsUnderWay :
      (order : Order) (r : Result Error (Unit {0})) (s : Store) {s' : Store}
      → find_order order.id s.orders ≡ some order
      → submit_if_eligible broker now order r s ≡ ok (tt, s')
      → (o : Order) × (find_order order.id s'.orders ≡ some o)
        × (is_approved_order o.status ≡ false)
  unfolding submit_if_eligible
  submit_if_eligible-IsUnderWay order (err x) s row k =
      synthesize_event-IsUnderWay now order rejected none s row k
  submit_if_eligible-IsUnderWay order (ok tt) s row k =
      let (handle, s1, sent, k1) = bind-ok (lift (broker.submit_order order)) _ s k in
      let (same, _) = lift-ok (broker.submit_order order) s sent in
      synthesize_event-IsUnderWay now order submitted (some handle) s1
        (rw (ap (λ (s : Store). s.orders) same) row) k1

submit_found-idle :
    (broker : Broker) (now : ℕ) (o : Order) (s : Store)
    → is_approved_order o.status ≡ false
    → submit_found broker now (some o) s ≡ ok (tt, s)
unfolding submit_found
submit_found-idle broker now o s h = rw h

abbrev IsIdle : ℕ → Store → Type 0
IsIdle n s =
    (broker : Broker) (now : ℕ) → submit_found broker now (find_order n s.orders) s ≡ ok (tt, s)

past-IsIdle :
    (n : ℕ) (s : Store) (o : Order)
    → find_order n s.orders ≡ some o
    → is_approved_order o.status ≡ false
    → IsIdle n s
past-IsIdle n s o found past broker now = rw found (submit_found-idle broker now o s past)

-- Once `submit_to_broker` has returned, a retry of it at any time and with any broker, one that
-- always raises included, returns with the store as it is: the order is not submitted again.
pub submit_to_broker-once :
    (broker other : Broker) (now later : ℕ) (n : ℕ) (s : Store) {s' : Store}
    → submit_to_broker broker now n s ≡ ok (tt, s')
    → submit_to_broker other later n s' ≡ ok (tt, s')
unfolding submit_to_broker submit_found
submit_to_broker-once broker other now later n s {s'} k =
    submitted_row (find_order n s.orders) refl k other later
  where
    submitted_row :
        (r : Option Order)
        → find_order n s.orders ≡ r
        → submit_found broker now r s ≡ ok (tt, s')
        → IsIdle n s'
    submitted_row none e k =
        let same : s ≡ s' = ap (λ (p : Unit {0} × Store). p.1) (ok_injective {E = Error} k) in
        rw (← same) (λ broker now. rw e refl)
    submitted_row (some o) e k = elim (Bool-cases (is_approved_order o.status)) [
      | inl ready ↦
          let named : o.id ≡ n = find_by-key (λ o. o.id) n s.orders e in
          let (o', found, past) =
            submit_if_eligible-IsUnderWay broker now o
              (check_customer (find_customer o.customer_id s.customers)) s
              (ap (λ (x : ℕ). find_order x s.orders) named ∙ e) (rw ready at k) in
          past-IsIdle n s' o' (sym (ap (λ (x : ℕ). find_order x s'.orders) named) ∙ found) past
      | inr past ↦
          let same : s ≡ s' =
            ap (λ (p : Unit {0} × Store). p.1) (ok_injective {E = Error} (rw past at k)) in
          past-IsIdle n s' o (rw (← same) e) past
    ]
