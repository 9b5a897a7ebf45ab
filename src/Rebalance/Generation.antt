-- ===== src/Rebalance/Generation.antt =====
-- services/rebalance/rebalance_order_service.py: the flagged entries become orders, sells first, and
-- buys within the investable cash less a buffer.
use trueup.Prelude.{
  ℕ, Bool, true, false, not, Option, none, some, List, [], ◌∷◌, ◌++◌, filter, map, is_some, Result,
  ok, err, if◌then◌else◌,
}
use trueup.Prelude.{require}
use trueup.Prelude.Int.{pos, ltb_ℤ, leb_ℤ}
use trueup.Errors.{Error, missing_security}
use trueup.Money.{money, Money, Units, Price, sub, div_money_price, is_zero}
use trueup.Decimal.Signed.{SignedDecimal}
use trueup.Store.{Action, pure, gets, lift, ◌>>=◌, ◌>>◌, Order, OrderSide, buy, sell}
use trueup.Ledger.CashPolicy.{investable}
use trueup.Orders.Holds.{order_holds_provider}
use trueup.Orders.Service.{create_order, is_approved_order, enqueue_submission}
use trueup.Rebalance.Drift.{
  buy_more, sell_off, DriftEntry, DriftEvaluation, flagged, mul_money_decimal, evaluate,
}
use trueup.AgentRequests.Review.{Rebalancer}

-- `OrderPlacer`
pub record OrderPlacer : Type 0 where
  pub place : (customer security : ℕ) → OrderSide → Units → Price → Action Order

-- `_RealOrderPlacer`
unfoldable pub place_order :
    Money → ℕ → (customer security : ℕ) → OrderSide → Units → Price → Action Order
place_order threshold now customer security side quantity reference_price = do
  order ← create_order threshold customer security side quantity reference_price
  if is_approved_order order.status then enqueue_submission now order else pure tt
  pure order

abbrev pub real_order_placer : Money → ℕ → OrderPlacer
real_order_placer threshold now = record { place = place_order threshold now }

abbrev pub sells_off : DriftEntry → Bool
sells_off e = elim e.direction [ sell_off ↦ true | buy_more ↦ false ]

-- A flagged entry of a security, with its price.
abbrev pub security_flags : List DriftEntry → List DriftEntry
security_flags entries = filter (λ e. is_some e.security_id) (flagged entries)

abbrev pub capped : Money → Money → Money
capped buy_notional remaining = if ltb_ℤ buy_notional remaining then buy_notional else remaining

abbrev pub quantity_for : Money → Option Price → Result Error Units
quantity_for notional none = err missing_security
quantity_for notional (some price) = div_money_price notional price

abbrev pub remaining_after : Option Order → Money → Money → Result Error Money
remaining_after none remaining notional = ok remaining
remaining_after (some order) remaining notional = sub money remaining notional

abbrev pub with_notional : Option Order → Money → List (Order × Money) → List (Order × Money)
with_notional none notional rest = rest
with_notional (some order) notional rest = (order, notional) ∷ rest

module _ (placer : OrderPlacer) (customer : ℕ) where
  -- The two assertions of `_place_sell` and `_place_buy`.
  abbrev pub place_on : OrderSide → Option ℕ → Option Price → Units → Action Order
  place_on side security price quantity = do
    security_id ← lift (require security missing_security)
    reference_price ← lift (require price missing_security)
    placer.place customer security_id side quantity reference_price

  unfoldable pub place_sell : DriftEntry → Action Order
  place_sell entry = do
    notional ← lift (sub money entry.current_market_value entry.target_market_value)
    quantity ← lift (quantity_for notional entry.price)
    place_on sell entry.security_id entry.price quantity

  unfoldable pub place_sells : List DriftEntry → Action (List Order)
  place_sells [] = pure []
  place_sells (e ∷ es) = do order ← place_sell e; orders ← place_sells es; pure (order ∷ orders)

  -- `_place_buy`
  unfoldable pub place_buy : DriftEntry → Money → Action (Option Order)
  place_buy entry notional =
      if leb_ℤ notional (pos 0)
      then pure none
      else lift (quantity_for notional entry.price) >>= λ quantity.
          if is_zero quantity
          then pure none
          else place_on buy entry.security_id entry.price quantity >>= λ order. pure (some order)

  -- The loop over the buys, whose orders are returned beside the notionals that they used up.
  unfoldable pub place_buys : Money → List DriftEntry → Action (List (Order × Money))
  place_buys remaining [] = pure []
  place_buys remaining (e ∷ es) = if leb_ℤ remaining (pos 0) then pure [] else (do
    buy_notional ← lift (sub money e.target_market_value e.current_market_value)
    let capped_notional = capped buy_notional remaining
    order ← place_buy e capped_notional
    left ← lift (remaining_after order remaining capped_notional)
    rest ← place_buys left es
    pure (with_notional order capped_notional rest))

-- `generate_orders` on the flagged entries of an evaluation.
module _ (placer : OrderPlacer) (cash_buffer_pct : SignedDecimal) where
  unfoldable pub generate_buys : DriftEvaluation → List DriftEntry → Action (List Order)
  generate_buys evaluation [] = pure []
  generate_buys evaluation (e ∷ es) = do
    buffer ← lift (mul_money_decimal evaluation.total_value cash_buffer_pct)
    figure ← gets (λ s. investable (order_holds_provider s) evaluation.customer_id s)
    limit ← lift figure
    available ← lift (sub money limit buffer)
    placed ← place_buys placer evaluation.customer_id available (e ∷ es)
    pure (map (λ p. p.0) placed)

  unfoldable pub generate_orders : DriftEvaluation → Action (List Order)
  generate_orders evaluation = do
    let flags = security_flags evaluation.entries
    sells ← place_sells placer evaluation.customer_id (filter sells_off flags)
    buys ← generate_buys evaluation (filter (λ e. not (sells_off e)) flags)
    pure (sells ++ buys)

-- `_execute_rebalance` of controllers/admin/agent_requests.py past the look-up of the customer.
unfoldable pub rebalance_customer :
    Money → SignedDecimal → SignedDecimal → ℕ → ℕ → ℕ → Action (Unit {0})
rebalance_customer threshold band cash_buffer_pct now as_of_date customer = do
  evaluated ← gets (evaluate band customer as_of_date)
  evaluation ← lift evaluated
  generate_orders (real_order_placer threshold now) cash_buffer_pct evaluation
  pure tt

abbrev pub order_rebalancer : Money → SignedDecimal → SignedDecimal → ℕ → ℕ → Rebalancer
order_rebalancer threshold band cash_buffer_pct now as_of_date = record {
  rebalance_customer = rebalance_customer threshold band cash_buffer_pct now as_of_date;
}
