-- ===== src/Orders/Filled.antt =====
-- What the projection counts: the filled quantity is the sum of the fills.
use trueup.Prelude.{
  ◌≡◌, refl, ap, sym, ◌∙◌, inl, inr, Bool-cases, Option, none, some, List, [], ◌∷◌, ok, leb,
  ok_injective, >>=-eq-ok,
}
use trueup.Prelude.Int.{ℤ, pos, ◌+ℤ◌, int_laws, parts_of_eq}
use trueup.Errors.{Error}
use trueup.Money.{money, units, Units, Price, add, mul_price_units}
use trueup.Money.Precision.{make-InRange}
use trueup.Store.{
  OrderEvent, OrderEventType, submitted, accepted, fill, rejected, canceled, expired, approved,
}
use trueup.Orders.Projection.{
  FoldState, OrderProjectionState, apply_fill, apply_event, fold_events, insert_event, sort_events,
  average, fold,
}

-- What one event adds.
abbrev pub filled_by : OrderEventType → Option Units → Units
filled_by fill (some quantity) = quantity
filled_by _ _ = pos 0

unfoldable pub fills : List OrderEvent → ℤ
fills [] = pos 0
fills (e ∷ es) = filled_by e.event_type e.quantity +ℤ fills es

insert_event-fills :
    (e : OrderEvent) (es : List OrderEvent)
    → fills (insert_event e es) ≡ filled_by e.event_type e.quantity +ℤ fills es
unfolding fills insert_event
insert_event-fills e [] = refl
insert_event-fills e (x ∷ es) = elim (Bool-cases (leb e.seq x.seq)) [
  | inl here ↦ rw here
  | inr there ↦ rw there (rw (insert_event-fills e es) (omega int_laws))
]

sort_events-fills : (es : List OrderEvent) → fills (sort_events es) ≡ fills es
unfolding fills sort_events
sort_events-fills [] = refl
sort_events-fills (e ∷ es) = rw (insert_event-fills e (sort_events es), sort_events-fills es)

apply_fill-filled :
    (requested : Units) (q : Option Units) (p : Option Price) (st : FoldState) {st' : FoldState}
    → apply_fill requested q p st ≡ ok st'
    → st'.filled_quantity ≡ st.filled_quantity +ℤ filled_by fill q
unfolding apply_fill add
apply_fill-filled requested none none st e = cc
apply_fill-filled requested none (some p) st e = cc
apply_fill-filled requested (some q) none st e = cc
apply_fill-filled requested (some q) (some p) st {st'} e =
    let (total, made, k) = >>=-eq-ok (add units st.filled_quantity q) _ e in
    let (notional, _, k1) = >>=-eq-ok (mul_price_units p q) _ k in
    let (total_notional, _, k2) = >>=-eq-ok (add money st.total_notional notional) _ k1 in
    let is : total ≡ st'.filled_quantity =
      ap (λ (s : FoldState). s.filled_quantity) (ok_injective {E = Error} k2) in
    sym is ∙ (make-InRange units _ made).0

apply_event-filled :
    (requested : Units) (e : OrderEvent) (t : OrderEventType) (st : FoldState) {st' : FoldState}
    → apply_event requested e t st ≡ ok st'
    → st'.filled_quantity ≡ st.filled_quantity +ℤ filled_by t e.quantity
unfolding apply_event
apply_event-filled requested e fill st k = apply_fill-filled requested e.quantity e.price st k
apply_event-filled requested e submitted st k = rw (← ok_injective {E = Error} k) (omega int_laws)
apply_event-filled requested e accepted st k = rw (← ok_injective {E = Error} k) (omega int_laws)
apply_event-filled requested e rejected st k = rw (← ok_injective {E = Error} k) (omega int_laws)
apply_event-filled requested e canceled st k = rw (← ok_injective {E = Error} k) (omega int_laws)
apply_event-filled requested e expired st k = rw (← ok_injective {E = Error} k) (omega int_laws)

fold_events-filled :
    (requested : Units) (es : List OrderEvent) (st : FoldState) {st' : FoldState}
    → fold_events requested es st ≡ ok st'
    → st'.filled_quantity ≡ st.filled_quantity +ℤ fills es
unfolding fold_events fills
fold_events-filled requested [] st k = rw (← ok_injective {E = Error} k) (omega int_laws)
fold_events-filled requested (e ∷ es) st {st'} k =
    let (st1, e1, k1) =
      >>=-eq-ok (apply_event requested e e.event_type st) (λ st1. fold_events requested es st1) k in
    let now = parts_of_eq (apply_event-filled requested e e.event_type st e1) in
    let later = parts_of_eq (fold_events-filled requested es st1 k1) in omega int_laws

-- The filled quantity of a projection is the exact sum of the quantities of the fill events on
-- file, and of no other event.
pub fold-filled :
    (es : List OrderEvent) (requested : Units) {p : OrderProjectionState}
    → fold es requested ≡ ok p
    → p.filled_quantity ≡ fills es
unfolding fold
fold-filled es requested {p} k =
    let start : FoldState = record {
      status = approved;
      filled_quantity = pos 0;
      total_notional = pos 0;
    } in
    let (st, e1, k1) = >>=-eq-ok (fold_events requested (sort_events es) start) _ k in
    let (price, _, k2) = >>=-eq-ok (average st) _ k1 in
    let is : st.filled_quantity ≡ p.filled_quantity =
      ap (λ (s : OrderProjectionState). s.filled_quantity) (ok_injective {E = Error} k2) in
    let total = parts_of_eq (fold_events-filled requested (sort_events es) start e1) in
    let total' = parts_of_eq (sort_events-fills es) in let is' = parts_of_eq is in omega int_laws
