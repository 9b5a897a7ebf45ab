-- ===== src/Lots/Fills.antt =====
-- services/lots/lot_consumption_service.py: what a fill of a buy and a fill of a sell write.
use trueup.Prelude.{require, ℕ, none, some, List, [], ◌∷◌, ◌++◌, if◌then◌else◌}
use trueup.Prelude.Int.{pos, ltb_ℤ}
use trueup.Errors.{not_a_trading_day}
use trueup.Money.{money, units, Money, Units, Price, negate, mul_price_units}
use trueup.Clock.{MarketClock, add_trading_days}
use trueup.Store.{
  Action, pure, gets, lift, modify, fresh_id, ◌>>=◌, ◌>>◌, TaxLot, unspecified, LotConsumption,
  cash, position_units, position_cost, realized_gain_loss, trade_buy, trade_sell,
}
use trueup.Ledger.Accounts.{get_or_create_customer_account, require_customer_account}
use trueup.Ledger.Entries.{money_leg, units_leg, post}
use trueup.Ledger.Settlement.{add_obligation}
use trueup.Lots.Table.{find_lot}
use trueup.Lots.Sale.{SellFill, Consumed, select_lots_to_consume, consume_lots}
use trueup.Lots.WashSale.{Restatement, on_buy_fill, on_loss_sale}

-- `_SETTLEMENT_TRADING_DAYS`
abbrev pub settlement_trading_days : ℕ
settlement_trading_days = 1

-- The insert of a lot that a buy opens.
unfoldable pub open_lot : ℕ → ℕ → ℕ → Units → Money → ℕ → ℕ → Action TaxLot
open_lot customer security execution quantity cost fill_date window_closes_at = do
  id ← fresh_id
  let lot : TaxLot = record {
    id = id;
    customer_id = customer;
    security_id = security;
    opening_fill_execution_id = execution;
    quantity_opened = quantity;
    quantity_remaining = quantity;
    original_cost_basis = cost;
    adjusted_basis = cost;
    acquired_at = fill_date;
    designation = unspecified;
    designation_window_closes_at = window_closes_at;
  }
  modify (λ s. record s { tax_lots = s.tax_lots ++ lot ∷ [] })
  pure lot

-- The row of a lot as it stands in the table.
abbrev pub row_now : TaxLot → List TaxLot → TaxLot
row_now lot lots = elim (find_lot lot.id lots) [ some row ↦ row | none ↦ lot ]

module _ (restatement : Restatement) (clock : MarketClock) where
  unfoldable pub record_buy_fill : ℕ → ℕ → ℕ → Units → Price → ℕ → Action TaxLot
  record_buy_fill customer security execution quantity price filled_at = do
    let fill_date = clock.market_date filled_at
    cost ← lift (mul_price_units price quantity)
    units_account ← get_or_create_customer_account customer position_units (some security)
    cost_account ← get_or_create_customer_account customer position_cost (some security)
    cash_account ← require_customer_account customer cash
    entry_event ← fresh_id
    paid ← lift (negate money cost)
    entry ← post trade_buy fill_date entry_event (
        units_leg units_account.id quantity
        ∷ money_leg cost_account.id cost
        ∷ money_leg cash_account.id paid
        ∷ [])
    settlement_date ← lift (add_trading_days clock fill_date settlement_trading_days)
    obligation_event ← fresh_id
    add_obligation entry.id cash_account.id paid settlement_date obligation_event
    window_closes_at ← lift (require (clock.session_close settlement_date) not_a_trading_day)
    lot ← open_lot customer security execution quantity cost fill_date window_closes_at
    on_buy_fill restatement lot
    gets (λ s. row_now lot s.tax_lots)

  -- The consumption rows get their ids when they are flushed.
  unfoldable pub add_consumptions : SellFill → List Consumed → Action (List LotConsumption)
  add_consumptions fill [] = pure []
  add_consumptions fill (c ∷ cs) = do
    id ← fresh_id
    let consumption : LotConsumption = record {
      id = id;
      closing_fill_execution_id = fill.execution_id;
      tax_lot_id = c.tax_lot_id;
      quantity_consumed = c.quantity_consumed;
      realized_gain_loss = c.realized_gain_loss;
      is_provisional = c.is_provisional;
      sale_date = fill.fill_date;
    }
    modify (λ s. record s { lot_consumptions = s.lot_consumptions ++ consumption ∷ [] })
    rest ← add_consumptions fill cs
    pure (consumption ∷ rest)

  -- The scan for wash sales at the end of `record_sell_fill`.
  unfoldable pub scan_losses : ℕ → ℕ → List LotConsumption → Action (Unit {0})
  scan_losses customer security [] = pure tt
  scan_losses customer security (c ∷ cs) = do
    if ltb_ℤ c.realized_gain_loss (pos 0)
        then on_loss_sale restatement c customer security
        else pure tt
    scan_losses customer security cs

  unfoldable pub record_sell_fill :
      ℕ → ℕ → ℕ → Units → Price → ℕ → List ℕ → Action (List LotConsumption)
  record_sell_fill customer security execution quantity price filled_at designated_lot_ids = do
    let fill_date = clock.market_date filled_at
    let fill : SellFill = record {
      execution_id = execution;
      price = price;
      filled_at = filled_at;
      fill_date = fill_date;
    }
    selection ← gets (λ s. select_lots_to_consume customer security designated_lot_ids s.tax_lots)
    (selected, lots) ← lift selection
    sale ← lift (consume_lots fill quantity selected lots)
    modify (λ s. record s { tax_lots = sale.lots })
    consumptions ← add_consumptions fill sale.consumptions
    units_account ← get_or_create_customer_account customer position_units (some security)
    cost_account ← get_or_create_customer_account customer position_cost (some security)
    cash_account ← require_customer_account customer cash
    gain_account ← get_or_create_customer_account customer realized_gain_loss none
    proceeds_total ← lift (mul_price_units price quantity)
    entry_event ← fresh_id
    sold ← lift (negate units quantity)
    basis_out ← lift (negate money sale.consumed_basis_total)
    gain_out ← lift (negate money sale.realized_total)
    entry ← post trade_sell fill_date entry_event (
        units_leg units_account.id sold
        ∷ money_leg cost_account.id basis_out
        ∷ money_leg cash_account.id proceeds_total
        ∷ money_leg gain_account.id gain_out
        ∷ [])
    settlement_date ← lift (add_trading_days clock fill_date settlement_trading_days)
    obligation_event ← fresh_id
    add_obligation entry.id cash_account.id proceeds_total settlement_date obligation_event
    scan_losses customer security consumptions
    pure consumptions
