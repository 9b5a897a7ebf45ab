-- ===== src/Tests/LotRuns.antt =====
-- Sales and wash sales on two small lots.
use trueup.Prelude.{
  ℕ, ◌≡◌, refl, All, Bool, true, false, Option, none, some, List, [], ◌∷◌, Result, ok, err, arith,
}
use trueup.Prelude.Int.{ℤ, pos, negsuc, ◌+ℤ◌, ◌≤ℤ◌}
use trueup.Errors.{Error, unbalanced_entry}
use trueup.Money.{money, Money}
use trueup.Store.{Store, pure, TaxLot, LotConsumption, unspecified}
use trueup.Store.Keeps.{Keeps-pure}
use trueup.Lots.Table.{units_held, basis_held}
use trueup.Lots.Totals.{units_sold, gains, IsStocked}
use trueup.Lots.Sale.{SellFill, SaleState, consume_lots}
use trueup.Lots.Conserved.{consume_lots-conserves}
use trueup.Lots.WashSale.{
  Restatement, exists_for_consumption, disallowed_loss, carry_loss, apply_adjustment,
}
use trueup.Lots.Disallowed.{disallowed_loss-bounds, gains_booked, carry_loss-conserves}
use trueup.Lots.Once.{KeepsAdjustments, apply_adjustment-once}
use trueup.Lots.Balanced.{IsRestatement}
use trueup.Lots.Fills.{record_buy_fill, record_sell_fill}
use trueup.Tests.Values.{weekdays}
use trueup.Tests.Books.{opening}

-- One unit bought at 3.00, and one at 5.00.
abbrev pub first_lot : TaxLot
first_lot = record {
  id = 60;
  customer_id = 1;
  security_id = 7;
  opening_fill_execution_id = 1;
  quantity_opened = pos 1000000;
  quantity_remaining = pos 1000000;
  original_cost_basis = pos 30000;
  adjusted_basis = pos 30000;
  acquired_at = 7;
  designation = unspecified;
  designation_window_closes_at = 870;
}

abbrev pub second_lot : TaxLot
second_lot = record first_lot {
  id = 61;
  opening_fill_execution_id = 2;
  original_cost_basis = pos 50000;
  adjusted_basis = pos 50000;
  acquired_at = 8;
  designation_window_closes_at = 970;
}

abbrev pub lots : List TaxLot
lots = first_lot ∷ second_lot ∷ []

-- One and a half units sold at 4.00.
abbrev pub sale : SellFill
sale = record { execution_id = 3; price = pos 4000000; filled_at = 900; fill_date = 9 }

abbrev sold : SaleState
sold = record {
  lots =
      record first_lot { quantity_remaining = pos 0; adjusted_basis = pos 0 }
      ∷ record second_lot { quantity_remaining = pos 500000; adjusted_basis = pos 25000 }
      ∷ [];
  remaining_to_sell = pos 0;
  consumed_basis_total = pos 55000;
  realized_total = pos 5000;
  consumptions =
      record {
        tax_lot_id = 60;
        quantity_consumed = pos 1000000;
        realized_gain_loss = pos 10000;
        is_provisional = false;
      }
      ∷ record {
        tax_lot_id = 61;
        quantity_consumed = pos 500000;
        realized_gain_loss = negsuc 4999;
        is_provisional = true;
      }
      ∷ [];
}

consume_lots-conserves_example :
    (units_sold sold.consumptions ≡ pos 1500000)
    × (units_held sold.lots +ℤ pos 1500000 ≡ units_held lots)
    × (basis_held sold.lots +ℤ pos 55000 ≡ basis_held lots)
    × (pos 5000 ≡ gains sold.consumptions)
    × All IsStocked sold.lots
unfolding consume_lots trueup.Lots.Sale.sell_loop trueup.Lots.Sale.sell_from
    trueup.Lots.Sale.consume_lot trueup.Money.div_money_units trueup.Money.mul_price_units
    trueup.Money.make trueup.Money.integer_digits trueup.Decimal.digits trueup.Decimal.quotient
    trueup.Decimal.quantize trueup.Decimal.in_context trueup.Decimal.Rounding.half_even
    trueup.Money.sub trueup.Money.add trueup.Prelude.Int.◌-ℤ◌ ◌+ℤ◌
consume_lots-conserves_example =
    consume_lots-conserves sale (pos 1500000) (60 ∷ 61 ∷ []) lots {st = sold} (omega arith)
      (omega arith, (omega arith, tt)) refl

abbrev loss : LotConsumption
loss = record {
  id = 80;
  closing_fill_execution_id = 3;
  tax_lot_id = 61;
  quantity_consumed = pos 500000;
  realized_gain_loss = negsuc 4999;
  is_provisional = true;
  sale_date = 9;
}

disallowed_loss-bounds_example :
    (pos 0 ≤ℤ pos 5000) × (pos 5000 ≤ℤ pos 30000) × (negsuc 4999 +ℤ pos 5000 ≤ℤ pos 0)
unfolding disallowed_loss trueup.Money.absolute trueup.Money.make trueup.Money.integer_digits
disallowed_loss-bounds_example =
    disallowed_loss-bounds loss first_lot {d = pos 5000} (omega arith) (omega arith) refl

abbrev with_loss : Store
with_loss = record opening { tax_lots = lots; lot_consumptions = loss ∷ [] }

abbrev carried : Store
carried = record opening {
  tax_lots = record first_lot { adjusted_basis = pos 35000 } ∷ second_lot ∷ [];
  lot_consumptions = record loss { realized_gain_loss = pos 0 } ∷ [];
}

carry_loss-conserves_example :
    (basis_held carried.tax_lots ≡ basis_held lots +ℤ pos 5000)
    × (gains_booked carried.lot_consumptions ≡ gains_booked (loss ∷ []) +ℤ pos 5000)
    × (units_held carried.tax_lots ≡ units_held lots)
    × (carried.postings ≡ [])
unfolding carry_loss trueup.Money.add trueup.Money.make trueup.Money.integer_digits ◌+ℤ◌
    trueup.Decimal.digits
carry_loss-conserves_example =
    carry_loss-conserves loss first_lot (pos 5000) with_loss {s' = carried} refl refl refl

abbrev pub no_restatement : Restatement
no_restatement = record { restate = λ customer date event. pure tt }

no_restatement-KeepsAdjustments : KeepsAdjustments no_restatement
no_restatement-KeepsAdjustments = record { keeps = λ n customer date event. Keeps-pure tt }

pub no_restatement-IsRestatement : IsRestatement no_restatement
no_restatement-IsRestatement = record { keeps = λ customer date event. Keeps-pure tt }

abbrev adjusted : Store
adjusted = record carried {
  adjustments =
      record {
        original_lot_consumption_id = 80;
        replacement_tax_lot_id = 60;
        disallowed_amount = pos 5000;
        journal_entry_id = 103;
      }
      ∷ [];
}

apply_adjustment-once_example :
    (exists_for_consumption 80 adjusted.adjustments ≡ true)
    × (apply_adjustment no_restatement loss second_lot adjusted ≡ ok (tt, adjusted))
unfolding apply_adjustment
apply_adjustment-once_example =
    apply_adjustment-once no_restatement loss first_lot second_lot adjusted {s' = adjusted}
      no_restatement-KeepsAdjustments refl

abbrev holding : Store
holding = record opening { tax_lots = lots }

-- Two lots of one unit each sold at 10.005050: each lot's proceeds round to 10.0050 (half to even),
-- the whole to 20.0101, and the entry with both figures does not balance.
abbrev outcome : Result Error (List LotConsumption × Store) → Option Error
outcome (ok r) = none
outcome (err e) = some e

sale_of_two_lots_unbalanced :
    outcome
      (record_sell_fill no_restatement weekdays 1 7 3 (pos 2000000) (pos 10005050) 900 [] holding)
    ≡ some unbalanced_entry
unfolding consume_lots trueup.Lots.Sale.sell_loop trueup.Lots.Sale.sell_from
    trueup.Lots.Sale.consume_lot trueup.Money.div_money_units trueup.Money.mul_price_units
    trueup.Money.make trueup.Money.integer_digits trueup.Decimal.digits trueup.Decimal.quotient
    trueup.Decimal.quantize trueup.Decimal.in_context trueup.Decimal.Rounding.half_even
    trueup.Money.sub trueup.Money.add trueup.Prelude.Int.◌-ℤ◌ ◌+ℤ◌ record_sell_fill
    trueup.Lots.Sale.select_lots_to_consume trueup.Lots.Table.lock_open_fifo
    trueup.Lots.Fills.add_consumptions trueup.Store.fresh_id
    trueup.Ledger.Accounts.get_or_create_customer_account trueup.Ledger.Accounts.create
    trueup.Ledger.Accounts.role_dimension trueup.Ledger.Accounts.require_customer_account
    trueup.Money.negate trueup.Prelude.Int.neg trueup.Ledger.Entries.post
    trueup.Ledger.Entries.write trueup.Ledger.Entries.validate_legs trueup.Ledger.Entries.total_legs
    trueup.Ledger.Entries.add_leg
sale_of_two_lots_unbalanced = refl
