-- ===== src/Tests/Rebalances.antt =====
-- A rebalancing that buys one unit at 10.00 with 100.00 in cash and a buffer of 5 percent; and what a
-- sell leaves to invest.
use trueup.Prelude.{ℕ, ◌≡◌, refl, All, Bool, true, none, some, map, List, [], ◌∷◌, ok, arith}
use trueup.Prelude.Int.{ℤ, pos, ◌≤ℤ◌, ◌<ℤ◌, ◌-ℤ◌, sum_ℤ}
use trueup.Money.{Money}
use trueup.Decimal.Signed.{SignedDecimal, of_quanta}
use trueup.Store.{Store, Order, sell}
use trueup.Ledger.CashPolicy.{investable}
use trueup.Orders.Holds.{order_holds_provider}
use trueup.Orders.Service.{create_order}
use trueup.Rebalance.Drift.{DriftEntry, DriftEvaluation, buy_more, mul_money_decimal}
use trueup.Rebalance.Generation.{real_order_placer, generate_buys}
use trueup.Rebalance.Capped.{IsPlaced, headroom, generate_buys-within}
use trueup.Tests.Publications.{funded}
use trueup.Tests.Requests.{order, ordered}

abbrev entry : DriftEntry
entry = record {
  security_id = some 7;
  current_market_value = pos 0;
  target_market_value = pos 100000;
  current_weight_pct = of_quanta (pos 0) 0;
  target_weight_pct = of_quanta (pos 1000) 4;
  price = some (pos 10000000);
  is_flagged = true;
  direction = buy_more;
}

abbrev evaluated : DriftEvaluation
evaluated = record {
  customer_id = 1;
  model_portfolio_id = 3;
  as_of_date = 20;
  is_complete = true;
  total_value = pos 1000000;
  entries = entry ∷ [];
}

abbrev five_percent : SignedDecimal
five_percent = of_quanta (pos 5) 2

abbrev rebalanced : Store
rebalanced = record ordered { idempotency_keys = [] }

buys :
    generate_buys (real_order_placer (pos 10000000) 50) five_percent evaluated (entry ∷ []) funded
    ≡ ok (order ∷ [], rebalanced)
unfolding create_order generate_buys investable mul_money_decimal order_holds_provider
    trueup.Decimal.Rounding.half_even trueup.Decimal.Signed.product
    trueup.Decimal.Signed.quantize_to trueup.Decimal.Signed.rounded trueup.Decimal.digits
    trueup.Funding.check_customer trueup.Funding.check_eligibility
    trueup.Ledger.CashPolicy.settled_cash trueup.Ledger.CashPolicy.settled_sum
    trueup.Ledger.CashPolicy.settled_total trueup.Ledger.CashPolicy.unsettled_deposit_proceeds
    trueup.Ledger.CashPolicy.unsettled_sale_proceeds trueup.Ledger.CashPolicy.unsettled_sum
    trueup.Ledger.CashPolicy.unsettled_total trueup.Money.add trueup.Money.integer_digits
    trueup.Money.make trueup.Money.mul_price_units trueup.Money.sub
    trueup.Orders.Designation.validate trueup.Orders.Holds.active_total_for_customer
    trueup.Orders.Holds.open_buy_orders trueup.Orders.Holds.open_hold
    trueup.Orders.Holds.total_commitments trueup.Orders.Holds.total_holds
    trueup.Orders.Service.check_investable trueup.Orders.Service.enqueue_submission
    trueup.Outbox.enqueue trueup.Prelude.Int.◌*ℤ◌ trueup.Prelude.Int.◌+ℤ◌ trueup.Prelude.Int.◌-ℤ◌
    trueup.Store.fresh_id trueup.Rebalance.Generation.place_buys
    trueup.Rebalance.Generation.place_buy trueup.Rebalance.Generation.place_order
    trueup.Money.div_money_price trueup.Decimal.quotient trueup.Decimal.quantize
    trueup.Decimal.in_context trueup.Prelude.Int.neg
buys = refl

generate_buys-within_example :
    (limit : Money) × (buffer : Money) × (placed : List (Order × Money)) × (investable
        (order_holds_provider funded)
        1
        funded
      ≡ ok limit)
    × (mul_money_decimal (pos 1000000) five_percent ≡ ok buffer)
    × (order ∷ [] ≡ map (λ p. p.0) placed)
    × (sum_ℤ (map (λ p. p.1) placed) ≤ℤ headroom (limit -ℤ buffer))
    × All (IsPlaced (real_order_placer (pos 10000000) 50) 1) placed
generate_buys-within_example =
    generate_buys-within (real_order_placer (pos 10000000) 50) five_percent evaluated entry []
      funded buys

-- A sell holds its notional too: 90.00 of 100.00 are left to invest.
abbrev sold : Store
sold = record rebalanced { next_id = 101; outbox = []; orders = record order { side = sell } ∷ [] }

sells :
    create_order (pos 10000000) 1 7 sell (pos 1000000) (pos 10000000) funded
    ≡ ok (record order { side = sell }, sold)
unfolding create_order trueup.Funding.check_eligibility trueup.Funding.check_customer
    trueup.Money.mul_price_units trueup.Money.make trueup.Money.integer_digits
    trueup.Decimal.Rounding.half_even trueup.Decimal.digits trueup.Orders.Service.check_investable
    trueup.Store.fresh_id trueup.Orders.Holds.open_hold
sells = refl

sell_lowers_investable : investable (order_holds_provider sold) 1 sold ≡ ok (pos 900000)
unfolding investable trueup.Ledger.CashPolicy.settled_cash trueup.Money.make
    trueup.Money.integer_digits trueup.Ledger.CashPolicy.settled_total
    trueup.Ledger.CashPolicy.settled_sum trueup.Prelude.Int.◌+ℤ◌ trueup.Decimal.digits
    trueup.Ledger.CashPolicy.unsettled_sale_proceeds trueup.Ledger.CashPolicy.unsettled_total
    trueup.Ledger.CashPolicy.unsettled_sum trueup.Money.add
    trueup.Ledger.CashPolicy.unsettled_deposit_proceeds order_holds_provider
    trueup.Orders.Holds.total_commitments trueup.Orders.Holds.open_buy_orders trueup.Money.sub ◌-ℤ◌
    trueup.Orders.Holds.active_total_for_customer trueup.Orders.Holds.total_holds
sell_lowers_investable = refl
