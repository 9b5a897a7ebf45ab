-- ===== src/Orders/Unique.antt =====
-- A fill is recorded at most once: the constraint on execution ids refuses it the second time.
use trueup.Prelude.{
  ℕ, ◌≡◌, refl, ap, sym, ◌∙◌, inl, inr, Bool, true, false, ◌||◌, ◌&&◌, Bool-cases, some, List, [],
  ◌∷◌, ◌++◌, any, ok, err, ◌==◌, ok_injective, arith,
}
use trueup.Errors.{Error, integrity_error}
use trueup.Store.{Store, lift, guard, Order, OrderEvent}
use trueup.Store.Keeps.{bind-ok, lift-ok, guard-ok}
use trueup.Orders.Projection.{OrderProjectionState, fold}
use trueup.Orders.Service.{
  is_duplicate, list_for_order, same_execution, release_if_warranted, apply_new_event,
}
use trueup.Orders.Retry.{release_if_warranted-rows}

or_true : (b : Bool) → (b || true) ≡ true
or_true true = refl
or_true false = refl

any-append :
    (p : OrderEvent → Bool) (es : List OrderEvent) (e : OrderEvent)
    → p e ≡ true
    → any p (es ++ e ∷ []) ≡ true
any-append p [] e h = rw h
any-append p (x ∷ es) e h = elim (Bool-cases (p x)) [
  | inl here ↦ rw here
  | inr there ↦ rw there (any-append p es e h)
]

apply_new_event-events :
    (now : ℕ) (order : Order) (e : OrderEvent) (s : Store) {p : OrderProjectionState} {s' : Store}
    → apply_new_event now order e s ≡ ok (p, s')
    → s'.order_events ≡ s.order_events ++ e ∷ []
unfolding apply_new_event
apply_new_event-events now order e s {p} {s'} k =
    let (u, s1, guarded, k1) =
      bind-ok (guard (is_duplicate e s.order_events) integrity_error) _ s k in
    let (same1, _) = guard-ok (is_duplicate e s.order_events) integrity_error s guarded in
    let events = list_for_order order.id (s1.order_events ++ e ∷ []) in
    let s2 = record s1 { order_events = s1.order_events ++ e ∷ [] } in
    let (state, s3, folded, k2) = bind-ok (lift (fold events order.quantity_requested)) _ s2 k1 in
    let (same3, _) = lift-ok (fold events order.quantity_requested) s2 folded in
    let (v, s5, freed, k3) = bind-ok (release_if_warranted order.id now state.status) _ _ k2 in
    let kept = (release_if_warranted-rows order.id now state.status _ freed).1 in
    let end : s' ≡ s5 =
      sym (ap (λ (p : OrderProjectionState × Store). p.1) (ok_injective {E = Error} k3)) in
    ap (λ (s : Store). s.order_events) end
    ∙ kept
    ∙ ap (λ (s : Store). s.order_events) same3
    ∙ ap (λ (s : Store). s.order_events ++ e ∷ []) same1

duplicate-refused :
    (now : ℕ) (order : Order) (e : OrderEvent) (s : Store)
    → is_duplicate e s.order_events ≡ true
    → apply_new_event now order e s ≡ err integrity_error
unfolding apply_new_event
duplicate-refused now order e s h = rw h

-- Once an event with an execution id is on file, every further event with that id is refused, for
-- whatever order, number and time: a fill that the broker sends again is not counted again.
pub apply_new_event_unique :
    (now later n : ℕ) (order other : Order) (e f : OrderEvent) (s : Store)
    {p : OrderProjectionState} {s' : Store}
    → apply_new_event now order e s ≡ ok (p, s')
    → e.execution_id ≡ some n
    → f.execution_id ≡ some n
    → apply_new_event later other f s' ≡ err integrity_error
unfolding is_duplicate
apply_new_event_unique now later n order other e f s {p} {s'} k own again =
    let filed = apply_new_event-events now order e s k in
    let hit : is_duplicate f (s.order_events ++ e ∷ []) ≡ true =
      any-append _ s.order_events e (same_event again own) in
    duplicate-refused later other f s' (rw filed hit)
  where
    same_event :
        f.execution_id ≡ some n
        → e.execution_id ≡ some n
        → (e.order_id == f.order_id && e.seq == f.seq
            || same_execution f.execution_id e.execution_id)
          ≡ true
    same_event g h =
        let self : (n == n) ≡ true = ground arith in
        rw (g, h, self) (or_true (e.order_id == f.order_id && e.seq == f.seq))
