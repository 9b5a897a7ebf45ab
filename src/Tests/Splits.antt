-- ===== src/Tests/Splits.antt =====
-- A split of two lots, two for one.
use trueup.Prelude.{◌-◌, ◌≡◌, refl, List, [], ◌∷◌, ok, arith}
use trueup.Prelude.Int.{pos, ◌+ℤ◌, ◌*ℤ◌}
use trueup.Store.{TaxLot}
use trueup.Lots.Table.{units_held, basis_held}
use trueup.Lots.Splits.{fraction, split_holding, open_units, split_holding-conserves}
use trueup.Tests.LotRuns.{lots, first_lot, second_lot}

abbrev doubled : List TaxLot
doubled =
    record first_lot { quantity_opened = pos 2000000; quantity_remaining = pos 2000000 }
    ∷ record second_lot { quantity_opened = pos 2000000; quantity_remaining = pos 2000000 }
    ∷ []

split_holding-conserves_example :
    (units_held doubled ≡ units_held lots +ℤ pos 2000000)
    × (pos 2000000 ≡ open_units 1 7 lots *ℤ pos (2 - 1))
    × (basis_held doubled ≡ basis_held lots)
unfolding split_holding trueup.Lots.Splits.split_lots trueup.Lots.Splits.split_lot
    trueup.Lots.Splits.by_ratio trueup.Lots.Table.total_remaining
    trueup.Lots.Table.lock_open_for_security trueup.Money.times trueup.Money.add trueup.Money.make
    trueup.Money.integer_digits trueup.Decimal.digits ◌+ℤ◌ ◌*ℤ◌
split_holding-conserves_example =
    split_holding-conserves 1 7 2 lots {lots' = doubled} {added = pos 2000000} (omega arith) refl

-- Two lots of one quantum, three for two: each becomes two quanta, and the entry books one.
abbrev quantum : TaxLot → TaxLot
quantum l = record l { quantity_opened = pos 1; quantity_remaining = pos 1 }

abbrev two_quanta : TaxLot → TaxLot
two_quanta l = record l { quantity_opened = pos 2; quantity_remaining = pos 2 }

parts :
    split_holding 1 7
      (fraction (record { value = pos 15; scale = 1 }))
      (quantum first_lot ∷ quantum second_lot ∷ [])
    ≡ ok (two_quanta first_lot ∷ two_quanta second_lot ∷ [], pos 1)
unfolding split_holding trueup.Lots.Table.total_remaining trueup.Lots.Table.lock_open_for_security
    trueup.Money.add trueup.Money.make trueup.Money.integer_digits ◌+ℤ◌
    trueup.Lots.Splits.split_lots trueup.Lots.Splits.split_lot trueup.Lots.Splits.by_ratio
    trueup.Decimal.Signed.quantize_to trueup.Decimal.digits trueup.Decimal.Rounding.half_even
    trueup.Decimal.Signed.product trueup.Decimal.Signed.rounded ◌*ℤ◌ trueup.Decimal.Signed.minus
    trueup.Prelude.Int.◌-ℤ◌
parts = refl
