-- ===== src/Orders/Submission.antt =====
-- Past its first event an order is not `approved`.
use trueup.Prelude.{
  ◌≡◌, refl, ap, sym, ◌∙◌, inl, inr, Bool, true, false, Bool-cases, Option, none, some, List, [],
  ◌∷◌, ◌++◌, filter, is_empty, ok, if◌then◌else◌, ok_injective, >>=-eq-ok, arith,
}
use trueup.Prelude.Int.{pos, leb_ℤ}
use trueup.Errors.{Error}
use trueup.Money.{money, units, Units, Price, add, mul_price_units}
use trueup.Store.{
  OrderStatus, OrderEvent, OrderEventType, approved, submitted, accepted, fill, rejected, canceled,
  expired, filled, partially_filled,
}
use trueup.Orders.Projection.{
  FoldState, OrderProjectionState, apply_fill, apply_event, fold_events, insert_event, sort_events,
  average, fold,
}
use trueup.Orders.Service.{is_approved_order}

abbrev IsUnderWay : OrderStatus → Type 0
IsUnderWay s = is_approved_order s ≡ false

apply_fill-IsUnderWay :
    (requested : Units) (q : Option Units) (p : Option Price) (st : FoldState) {st' : FoldState}
    → apply_fill requested q p st ≡ ok st'
    → IsUnderWay st'.status
unfolding apply_fill
apply_fill-IsUnderWay requested none p st e = cc
apply_fill-IsUnderWay requested (some q) none st e = cc
apply_fill-IsUnderWay requested (some q) (some p) st {st'} e =
    let (total, made, k) = >>=-eq-ok (add units st.filled_quantity q) _ e in
    let (notional, _, k1) = >>=-eq-ok (mul_price_units p q) _ k in
    let (total_notional, _, k2) = >>=-eq-ok (add money st.total_notional notional) _ k1 in
    let is = ap (λ (s : FoldState). is_approved_order s.status) (ok_injective {E = Error} k2) in
    sym is ∙ either total
  where
    either :
        (total : Units)
        → is_approved_order (if leb_ℤ requested total then filled else partially_filled) ≡ false
    either total = ground arith

apply_event-IsUnderWay :
    (requested : Units) (e : OrderEvent) (t : OrderEventType) (st : FoldState) {st' : FoldState}
    → apply_event requested e t st ≡ ok st'
    → IsUnderWay st'.status
unfolding apply_event
apply_event-IsUnderWay requested e submitted st k = rw (← ok_injective {E = Error} k)
apply_event-IsUnderWay requested e accepted st k = rw (← ok_injective {E = Error} k)
apply_event-IsUnderWay requested e fill st k =
    apply_fill-IsUnderWay requested e.quantity e.price st k
apply_event-IsUnderWay requested e rejected st k = rw (← ok_injective {E = Error} k)
apply_event-IsUnderWay requested e canceled st k = rw (← ok_injective {E = Error} k)
apply_event-IsUnderWay requested e expired st k = rw (← ok_injective {E = Error} k)

fold_events-IsUnderWay :
    (requested : Units) (es : List OrderEvent) (st : FoldState) {st' : FoldState}
    → IsUnderWay st.status
    → fold_events requested es st ≡ ok st'
    → IsUnderWay st'.status
unfolding fold_events
fold_events-IsUnderWay requested [] st h k = rw (← ok_injective {E = Error} k) h
fold_events-IsUnderWay requested (e ∷ es) st h k =
    let (st1, e1, k1) =
      >>=-eq-ok (apply_event requested e e.event_type st) (λ st1. fold_events requested es st1) k in
    fold_events-IsUnderWay requested es st1 (apply_event-IsUnderWay requested e e.event_type st e1)
      k1

some_events-IsUnderWay :
    (requested : Units) (es : List OrderEvent) (st : FoldState) {st' : FoldState}
    → is_empty es ≡ false
    → fold_events requested es st ≡ ok st'
    → IsUnderWay st'.status
unfolding fold_events
some_events-IsUnderWay requested [] st h k = cc
some_events-IsUnderWay requested (e ∷ es) st h k =
    let (st1, e1, k1) =
      >>=-eq-ok (apply_event requested e e.event_type st) (λ st1. fold_events requested es st1) k in
    fold_events-IsUnderWay requested es st1 (apply_event-IsUnderWay requested e e.event_type st e1)
      k1

insert_event-some : (e : OrderEvent) (es : List OrderEvent) → is_empty (insert_event e es) ≡ false
unfolding insert_event
insert_event-some e [] = refl
insert_event-some e (x ∷ es) = ground arith

pub sort_events-some :
    (es : List OrderEvent) → is_empty es ≡ false → is_empty (sort_events es) ≡ false
unfolding sort_events
sort_events-some [] h = h
sort_events-some (e ∷ es) h = insert_event-some e (sort_events es)

pub filter-some :
    (p : OrderEvent → Bool) (es : List OrderEvent) (e : OrderEvent)
    → p e ≡ true
    → is_empty (filter p (es ++ e ∷ [])) ≡ false
filter-some p [] e h = rw h
filter-some p (x ∷ es) e h = elim (Bool-cases (p x)) [
  | inl yes_it ↦ rw yes_it
  | inr no_it ↦ rw no_it (filter-some p es e h)
]

-- A projection of at least one event is past `approved`.
pub fold-IsUnderWay :
    (es : List OrderEvent) (requested : Units) {p : OrderProjectionState}
    → is_empty es ≡ false
    → fold es requested ≡ ok p
    → is_approved_order p.status ≡ false
unfolding fold
fold-IsUnderWay es requested {p} h k =
    let start : FoldState = record {
      status = approved;
      filled_quantity = pos 0;
      total_notional = pos 0;
    } in
    let (st, e1, k1) = >>=-eq-ok (fold_events requested (sort_events es) start) _ k in
    let (price, _, k2) = >>=-eq-ok (average st) _ k1 in
    let is =
      ap (λ (s : OrderProjectionState). is_approved_order s.status) (ok_injective {E = Error} k2) in
    sym is ∙ some_events-IsUnderWay requested (sort_events es) start (sort_events-some es h) e1
