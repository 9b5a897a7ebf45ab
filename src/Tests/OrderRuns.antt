-- ===== src/Tests/OrderRuns.antt =====
-- An order from its creation to its fills, and a submission that is retried.
use trueup.Prelude.{
  ℕ, ◌≡◌, refl, Bool, true, false, Option, none, some, List, [], ◌∷◌, ◌++◌, is_empty, Result, ok,
  err, if◌then◌else◌, arith,
}
use trueup.Prelude.Int.{ℤ, pos, ltb_ℤ, ◌≤ℤ◌}
use trueup.Errors.{broker_error}
use trueup.Money.{Money, mul_price_units}
use trueup.Store.{
  Store, Customer, Order, buy, OrderStatus, awaiting_approval, approved, submitted, filled,
  partially_filled, OrderEvent, OrderEventType, fill, accepted, ApprovalHold, active, released,
  approved_and_submitted, canceled,
}
use trueup.Ledger.CashPolicy.{investable}
use trueup.Orders.Projection.{OrderProjectionState, fold}
use trueup.Orders.Arrival.{swap, fold-Reordered}
use trueup.Orders.Filled.{fills, fold-filled}
use trueup.Orders.Holds.{open_hold, release, release-release, order_holds_provider, is_at_broker}
use trueup.Orders.Service.{
  Broker, find_order, create_order, request_cancel, submit_to_broker, is_approved_order,
}
use trueup.Orders.Retry.{submit_to_broker-once}
use trueup.Funding.{find_customer}
use trueup.Orders.Created.{new_hold, IsAffordable, create_order-ok, request_cancel-writes_nothing}
use trueup.Tests.Books.{opening}

abbrev pub event : ℕ → OrderEventType → OrderEvent
event seq t = record {
  order_id = 100;
  seq = seq;
  event_type = t;
  execution_id = none;
  quantity = none;
  price = none;
  broker_order_id = some 9;
}

-- Two units at 4.00.
abbrev pub filling : OrderEvent
filling = record (event 30 fill) {
  execution_id = some 3;
  quantity = some (pos 2000000);
  price = some (pos 4000000);
}

abbrev pub projected : OrderProjectionState
projected = record {
  status = filled;
  filled_quantity = pos 2000000;
  average_fill_price = some (pos 4000000);
}

fold-Reordered_example :
    fold (filling ∷ event 20 accepted ∷ []) (pos 2000000)
    ≡ fold (event 20 accepted ∷ filling ∷ []) (pos 2000000)
fold-Reordered_example =
    fold-Reordered (filling ∷ event 20 accepted ∷ []) (event 20 accepted ∷ filling ∷ [])
      (pos 2000000) (swap filling (event 20 accepted) (λ e. omega arith))

fold-filled_example : pos 2000000 ≡ fills (filling ∷ event 20 accepted ∷ [])
unfolding fold trueup.Orders.Projection.fold_events trueup.Orders.Projection.sort_events
    trueup.Orders.Projection.insert_event trueup.Orders.Projection.apply_event
    trueup.Orders.Projection.apply_fill trueup.Orders.Projection.average
    trueup.Money.div_money_units mul_price_units trueup.Money.make trueup.Money.integer_digits
    trueup.Decimal.digits trueup.Decimal.quotient trueup.Decimal.quantize trueup.Decimal.in_context
    trueup.Decimal.Rounding.half_even trueup.Money.add trueup.Prelude.Int.◌+ℤ◌
fold-filled_example =
    fold-filled (filling ∷ event 20 accepted ∷ []) (pos 2000000) {p = projected} refl

-- The submission is recorded with the clock of its return: a fill that the broker stamped earlier is
-- folded first, and the order reads `submitted` though it is filled.
late_submission :
    fold (filling ∷ event 40 submitted ∷ []) (pos 2000000)
    ≡ ok (record projected { status = submitted })
unfolding fold trueup.Orders.Projection.fold_events trueup.Orders.Projection.sort_events
    trueup.Orders.Projection.insert_event trueup.Orders.Projection.apply_event
    trueup.Orders.Projection.apply_fill trueup.Orders.Projection.average
    trueup.Money.div_money_units mul_price_units trueup.Money.make trueup.Money.integer_digits
    trueup.Decimal.digits trueup.Decimal.quotient trueup.Decimal.quantize trueup.Decimal.in_context
    trueup.Decimal.Rounding.half_even trueup.Money.add trueup.Prelude.Int.◌+ℤ◌
late_submission = refl

abbrev hold : ApprovalHold
hold = record {
  order_id = 100;
  customer_id = 1;
  amount_money = pos 80000;
  status = active;
  released_at = none;
  release_reason = none;
}

release-release_example :
    release 100 canceled 50 (release 100 approved_and_submitted 40 (hold ∷ []))
    ≡ release 100 approved_and_submitted 40 (hold ∷ [])
release-release_example = release-release 100 approved_and_submitted canceled 40 50 (hold ∷ [])

-- 10.0000 of cash, on a posting that needs no settlement.
abbrev funded : Store
funded = record opening {
  postings =
      record {
        journal_entry_id = 50;
        account_id = 10;
        customer_id = some 1;
        amount_money = some (pos 100000);
        quantity_units = none;
      }
      ∷ record {
        journal_entry_id = 50;
        account_id = 11;
        customer_id = some 1;
        amount_money = some (ℤ.negsuc 99999);
        quantity_units = none;
      }
      ∷ [];
}

abbrev pub order : Order
order = record {
  id = 100;
  customer_id = 1;
  security_id = 7;
  side = buy;
  quantity_requested = pos 2000000;
  status = approved;
  filled_quantity = pos 0;
  average_fill_price = none;
  designated_lot_ids = [];
}

abbrev pub placed : Store
placed = record funded { next_id = 101; orders = order ∷ []; approval_holds = hold ∷ [] }

create_order-ok_example :
    (c : Customer) × (notional : Money) × (find_customer 1 funded.customers ≡ some c)
    × (c.kyc_status ≡ approved)
    × (c.account_approval_status ≡ approved)
    × (mul_price_units (pos 4000000) (pos 2000000) ≡ ok notional)
    × IsAffordable buy 1 notional funded
    × (placed.orders ≡ [] ++ order ∷ [])
    × (placed.approval_holds ≡ [] ++ new_hold 100 1 notional ∷ [])
    × (approved ≡ (if ltb_ℤ (pos 90000) notional then awaiting_approval else approved))
    × (placed.postings ≡ funded.postings)
unfolding create_order trueup.Funding.check_eligibility trueup.Funding.check_customer
    mul_price_units trueup.Money.make trueup.Money.integer_digits trueup.Decimal.Rounding.half_even
    trueup.Decimal.digits trueup.Orders.Service.check_investable investable
    trueup.Ledger.CashPolicy.settled_cash trueup.Ledger.CashPolicy.settled_total
    trueup.Ledger.CashPolicy.settled_sum trueup.Prelude.Int.◌+ℤ◌
    trueup.Ledger.CashPolicy.unsettled_sale_proceeds trueup.Ledger.CashPolicy.unsettled_total
    trueup.Ledger.CashPolicy.unsettled_sum trueup.Money.add
    trueup.Ledger.CashPolicy.unsettled_deposit_proceeds order_holds_provider
    trueup.Orders.Holds.total_commitments trueup.Orders.Holds.open_buy_orders trueup.Money.sub
    trueup.Prelude.Int.◌-ℤ◌ trueup.Orders.Holds.active_total_for_customer
    trueup.Orders.Holds.total_holds trueup.Store.fresh_id open_hold
create_order-ok_example =
    create_order-ok (pos 90000) 1 7 buy (pos 2000000) (pos 4000000) funded {o = order} {s' = placed}
      refl

abbrev broker : Broker
broker = record { submit_order = λ o. ok 9; cancel_order = λ n. ok tt }

abbrev broken : Broker
broken = record { submit_order = λ o. err broker_error; cancel_order = λ n. err broker_error }

abbrev sent : Store
sent = record placed {
  orders = record order { status = submitted } ∷ [];
  order_events = event 40 submitted ∷ [];
  approval_holds =
      record hold {
        status = released;
        released_at = some 40;
        release_reason = some approved_and_submitted;
      }
      ∷ [];
}

submit_to_broker-once_example : submit_to_broker broken 41 100 sent ≡ ok (tt, sent)
unfolding submit_to_broker trueup.Orders.Service.submit_found
    trueup.Orders.Service.submit_if_eligible trueup.Funding.check_customer
    trueup.Orders.Service.synthesize_event trueup.Orders.Service.apply_new_event
    trueup.Orders.Service.is_duplicate fold trueup.Orders.Projection.fold_events
    trueup.Orders.Projection.sort_events trueup.Orders.Projection.insert_event
    trueup.Orders.Projection.apply_event trueup.Orders.Projection.average
    trueup.Orders.Service.release_if_warranted release trueup.Orders.Holds.release_row
submit_to_broker-once_example =
    submit_to_broker-once broker broken 40 41 100 placed {s' = sent} refl

request_cancel-writes_nothing_example :
    (sent ≡ sent)
    × (find_order 100 sent.orders ≡ some (record order { status = submitted }))
    × (is_at_broker submitted ≡ true)
unfolding request_cancel trueup.Orders.Service.broker_order_id_of
    trueup.Orders.Projection.sort_events trueup.Orders.Projection.insert_event
request_cancel-writes_nothing_example =
    request_cancel-writes_nothing broker 100 sent {o = record order { status = submitted }}
      {s' = sent} refl
