-- ===== src/Tests/Designations.antt =====
-- A designation of two lots that is accepted, next to an open sale of one of them.
use trueup.Prelude.{
  ℕ, ◌≤◌, ◌≡◌, ◌≢◌, refl, false, Option, none, some, List, [], ◌∷◌, All, length, is_empty, ok, err,
  arith,
}
use trueup.Prelude.Int.{pos, ◌+ℤ◌, ◌-ℤ◌, ◌≤ℤ◌}
use trueup.Errors.{insufficient_lots}
use trueup.Money.{Units}
use trueup.Store.{Store, TaxLot, Order, sell, submitted}
use trueup.Lots.Sale.{consume_lots}
use trueup.Orders.Designation.{validate, has_duplicate, total_committed, open_sell_orders}
use trueup.Orders.Covered.{named_units}
use trueup.Orders.Designated.{IsOwned, validate-ok}
use trueup.Orders.Sellable.{validate-consume_lots}
use trueup.Tests.LotRuns.{lots, first_lot, second_lot, sale}
use trueup.Tests.Books.{opening}

abbrev named : List ℕ
named = 60 ∷ 61 ∷ []

abbrev open_sale : Order
open_sale = record {
  id = 101;
  customer_id = 1;
  security_id = 7;
  side = sell;
  quantity_requested = pos 500000;
  status = submitted;
  filled_quantity = pos 0;
  average_fill_price = none;
  designated_lot_ids = 61 ∷ [];
}

abbrev stocked : Store
stocked = record opening { tax_lots = lots; orders = open_sale ∷ [] }

validate-ok_example :
    (◌≡◌ {A = Option (List ℕ)} (some named) (some named))
    × (sell ≡ sell)
    × (is_empty named ≡ false)
    × (length named ≤ 50)
    × (has_duplicate named ≡ false)
    × All (IsOwned 1 7 lots) named
    × (committed : Units) × (total_committed named (pos 0) (open_sell_orders 1 (open_sale ∷ []))
        ≡ ok committed)
    × ((pos 1500000 +ℤ committed) ≤ℤ named_units named lots)
unfolding validate has_duplicate trueup.Orders.Designation.check_coverage
    trueup.Orders.Designation.named_lots trueup.Orders.Designation.owned_lot
    trueup.Lots.Table.total_remaining trueup.Money.add trueup.Money.make trueup.Money.integer_digits
    ◌+ℤ◌ ◌-ℤ◌ trueup.Decimal.digits total_committed open_sell_orders
    trueup.Orders.Designation.add_committed trueup.Orders.Designation.intersects trueup.Money.sub
validate-ok_example = validate-ok 1 7 sell (pos 1500000) named stocked {r = some named} refl

-- The open sale of half a unit has taken all of it from the first lot.
abbrev half_sold : List TaxLot
half_sold = record first_lot { quantity_remaining = pos 500000 } ∷ second_lot ∷ []

validate-consume_lots_example :
    consume_lots sale (pos 1200000) named half_sold ≢ err insufficient_lots
unfolding validate has_duplicate trueup.Orders.Designation.check_coverage
    trueup.Orders.Designation.named_lots trueup.Orders.Designation.owned_lot
    trueup.Lots.Table.total_remaining trueup.Money.add trueup.Money.make trueup.Money.integer_digits
    ◌+ℤ◌ ◌-ℤ◌ trueup.Decimal.digits total_committed open_sell_orders
    trueup.Orders.Designation.add_committed trueup.Orders.Designation.intersects trueup.Money.sub
    named_units
validate-consume_lots_example =
    validate-consume_lots 1 7 sell (pos 1500000) (pos 1200000) named stocked sale {r = some named}
      (pos 500000) half_sold refl refl (omega arith) (omega arith)
