-- ===== src/Orders/Projection.antt =====
-- services/orders/order_projection_service.py: `fold`.
use trueup.Prelude.{Option, none, some, List, [], ◌∷◌, Result, ok, err, leb, if◌then◌else◌, ◌>>=◌}
use trueup.Prelude.Int.{pos, ltb_ℤ, leb_ℤ}
use trueup.Errors.{Error, not_a_number}
use trueup.Money.{money, units, Money, Units, Price, add, mul_price_units, div_money_units}
use trueup.Store.{
  OrderEvent, OrderEventType, OrderStatus, submitted, accepted, fill, rejected, canceled, expired,
  approved, partially_filled, filled,
}

-- The variables of the loop.
pub record FoldState : Type 0 where
  pub status : OrderStatus
  pub filled_quantity : Units
  pub total_notional : Money

pub record OrderProjectionState : Type 0 where
  pub status : OrderStatus
  pub filled_quantity : Units
  pub average_fill_price : Option Price

-- A fill with its two numbers; `Units("None")` is no number.
unfoldable pub apply_fill : Units → Option Units → Option Price → FoldState → Result Error FoldState
apply_fill requested (some quantity) (some price) st = do
  filled_quantity ← add units st.filled_quantity quantity
  notional ← mul_price_units price quantity
  total_notional ← add money st.total_notional notional
  ok (record {
    status = if leb_ℤ requested filled_quantity then filled else partially_filled;
    filled_quantity = filled_quantity;
    total_notional = total_notional;
  })
apply_fill requested _ _ st = err not_a_number

unfoldable pub apply_event :
    Units → OrderEvent → OrderEventType → FoldState → Result Error FoldState
apply_event requested e submitted st = ok (record st { status = submitted })
apply_event requested e accepted st = ok (record st { status = accepted })
apply_event requested e fill st = apply_fill requested e.quantity e.price st
apply_event requested e rejected st = ok (record st { status = rejected })
apply_event requested e canceled st = ok (record st { status = canceled })
apply_event requested e expired st = ok (record st { status = expired })

unfoldable pub fold_events : Units → List OrderEvent → FoldState → Result Error FoldState
fold_events requested [] st = ok st
fold_events requested (e ∷ es) st = do
  st' ← apply_event requested e e.event_type st
  fold_events requested es st'

-- `sorted(events, key=lambda e: e.seq)`, which is stable.
unfoldable pub insert_event : OrderEvent → List OrderEvent → List OrderEvent
insert_event e [] = e ∷ []
insert_event e (x ∷ xs) = if leb e.seq x.seq then e ∷ x ∷ xs else x ∷ insert_event e xs

unfoldable pub sort_events : List OrderEvent → List OrderEvent
sort_events [] = []
sort_events (e ∷ es) = insert_event e (sort_events es)

unfoldable pub average : FoldState → Result Error (Option Price)
average st =
    if ltb_ℤ (pos 0) st.filled_quantity
    then (div_money_units st.total_notional st.filled_quantity >>= λ price. ok (some price))
    else ok none

unfoldable pub fold : List OrderEvent → Units → Result Error OrderProjectionState
fold events requested = do
  st ←
      fold_events requested (sort_events events)
        (record { status = approved; filled_quantity = pos 0; total_notional = pos 0 })
  average_fill_price ← average st
  ok (record {
    status = st.status;
    filled_quantity = st.filled_quantity;
    average_fill_price = average_fill_price;
  })
