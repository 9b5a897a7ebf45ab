-- ===== src/Tests/Requests.antt =====
-- A customer with 100.00 orders one unit at 10.00, and repeats the request; and a rebalancing that
-- buys the same.
use trueup.Prelude.{
  ℕ, ◌≡◌, refl, Bool, true, false, Option, none, some, List, [], ◌∷◌, ok, err, ◌==◌, if◌then◌else◌,
}
use trueup.Prelude.Int.{ℤ, pos, negsuc}
use trueup.Money.{Money}
use trueup.Store.{Store, Order, buy, sell, approved, active}
use trueup.Outbox.{JobOutbox, pending}
use trueup.Orders.Endpoints.{
  Session, customer, CreateOrderRequest, Framework, Response, create_order_endpoint,
}
use trueup.Orders.Replayed.{create_order_endpoint-replays}
use trueup.Tests.Publications.{funded}

abbrev request : CreateOrderRequest
request = record {
  security_id = 7;
  side = buy;
  quantity = pos 1000000;
  reference_price = pos 10000000;
  lot_ids = none;
}

-- Two bodies that parse to the same request, with a hash each.
abbrev framework : Framework
framework = record { parse = λ body. some request; request_hash = λ body. body }

abbrev session : Session
session = record { is_authenticated = true; role = customer; user_id = 1 }

abbrev pub order : Order
order = record {
  id = 100;
  customer_id = 1;
  security_id = 7;
  side = buy;
  quantity_requested = pos 1000000;
  status = approved;
  filled_quantity = pos 0;
  average_fill_price = none;
  designated_lot_ids = [];
}

abbrev task : JobOutbox
task = record {
  id = 101;
  attempts = 0;
  next_attempt_at = 50;
  status = pending;
  locked_by = none;
  created_at = 50;
}

abbrev pub ordered : Store
ordered = record funded {
  next_id = 102;
  orders = order ∷ [];
  approval_holds =
      record {
        order_id = 100;
        customer_id = 1;
        amount_money = pos 100000;
        status = active;
        released_at = none;
        release_reason = none;
      }
      ∷ [];
  outbox = task ∷ [];
  idempotency_keys =
      record {
        customer_id = 1;
        key = 9;
        request_hash = 77;
        response_status = 201;
        response_body = order;
        created_at = 50;
      }
      ∷ [];
}

answers :
    create_order_endpoint framework (pos 10000000) 50 session (some 9) 77 funded
    ≡ ok ((201, order), ordered)
unfolding create_order_endpoint trueup.Orders.Endpoints.respond trueup.Orders.Endpoints.find_key
    trueup.Orders.Endpoints.create_new trueup.Orders.Designation.validate
    trueup.Orders.Service.create_order trueup.Funding.check_eligibility
    trueup.Funding.check_customer trueup.Money.mul_price_units trueup.Money.make
    trueup.Money.integer_digits trueup.Decimal.Rounding.half_even trueup.Decimal.digits
    trueup.Orders.Service.check_investable trueup.Ledger.CashPolicy.investable
    trueup.Ledger.CashPolicy.settled_cash trueup.Ledger.CashPolicy.settled_total
    trueup.Ledger.CashPolicy.settled_sum trueup.Prelude.Int.◌+ℤ◌
    trueup.Ledger.CashPolicy.unsettled_sale_proceeds trueup.Ledger.CashPolicy.unsettled_total
    trueup.Ledger.CashPolicy.unsettled_sum trueup.Money.add
    trueup.Ledger.CashPolicy.unsettled_deposit_proceeds trueup.Orders.Holds.order_holds_provider
    trueup.Orders.Holds.total_commitments trueup.Orders.Holds.open_buy_orders trueup.Money.sub
    trueup.Prelude.Int.◌-ℤ◌ trueup.Orders.Holds.active_total_for_customer
    trueup.Orders.Holds.total_holds trueup.Store.fresh_id trueup.Orders.Service.enqueue_submission
    trueup.Orders.Holds.open_hold trueup.Outbox.enqueue
answers = refl

-- The same bytes get the same answer.
create_order_endpoint-replays_example :
    create_order_endpoint framework (pos 10000000) 60 session (some 9) 77 ordered
    ≡ ok ((201, order), ordered)
create_order_endpoint-replays_example =
    create_order_endpoint-replays framework (pos 10000000) 50 session 9 77 funded (pos 10000000) 60
      77 request [] ordered answers refl refl
