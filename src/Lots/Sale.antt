-- ===== src/Lots/Sale.antt =====
-- services/lots/lot_consumption_service.py: which lots a sale takes and what it takes of them.
use trueup.Prelude.{
  ℕ, Bool, not, Option, none, some, List, [], ◌∷◌, ◌++◌, map, Result, ok, err, ltb, if◌then◌else◌,
  ◌>>=◌,
}
use trueup.Prelude.Int.{pos, ltb_ℤ, leb_ℤ, min_ℤ}
use trueup.Errors.{Error, insufficient_lots, unknown_tax_lot}
use trueup.Money.{money, units, Money, Units, Price, add, sub, mul_price_units, div_money_units}
use trueup.Store.{TaxLot, specific}
use trueup.Lots.Table.{find_lot, put_lot, belongs, lock_open_fifo}

-- The fill that closes the lots.
pub record SellFill : Type 0 where
  pub execution_id : ℕ
  pub price : Price
  pub filled_at : ℕ
  pub fill_date : ℕ

-- A consumption row before the flush gives it an id.
pub record Consumed : Type 0 where
  pub tax_lot_id : ℕ
  pub quantity_consumed : Units
  pub realized_gain_loss : Money
  pub is_provisional : Bool

-- The variables of the loop of `record_sell_fill`, and the rows that it changes.
pub record SaleState : Type 0 where
  pub lots : List TaxLot
  pub remaining_to_sell : Units
  pub consumed_basis_total : Money
  pub realized_total : Money
  pub consumptions : List Consumed

-- The body of the loop past its two guards.
unfoldable pub consume_lot : SellFill → TaxLot → Units → SaleState → Result Error SaleState
consume_lot fill lot taken st = do
  per_unit_basis ← div_money_units lot.adjusted_basis lot.quantity_remaining
  consumed_basis ← mul_price_units per_unit_basis taken
  proceeds ← mul_price_units fill.price taken
  realized ← sub money proceeds consumed_basis
  quantity_left ← sub units lot.quantity_remaining taken
  basis_left ← sub money lot.adjusted_basis consumed_basis
  basis_total ← add money st.consumed_basis_total consumed_basis
  realized_total ← add money st.realized_total realized
  remaining ← sub units st.remaining_to_sell taken
  let consumption : Consumed = record {
    tax_lot_id = lot.id;
    quantity_consumed = taken;
    realized_gain_loss = realized;
    is_provisional = ltb fill.filled_at lot.designation_window_closes_at;
  }
  ok (record {
    lots =
        put_lot (record lot { quantity_remaining = quantity_left; adjusted_basis = basis_left })
          st.lots;
    remaining_to_sell = remaining;
    consumed_basis_total = basis_total;
    realized_total = realized_total;
    consumptions = st.consumptions ++ consumption ∷ [];
  })

-- One round for a row that is locked: a lot that is named twice is the same row both times.
unfoldable pub sell_from : SellFill → Option TaxLot → SaleState → Result Error SaleState
sell_from fill none st = ok st
sell_from fill (some lot) st =
    let taken = min_ℤ lot.quantity_remaining st.remaining_to_sell in
    if leb_ℤ taken (pos 0) then ok st else consume_lot fill lot taken st

-- `for lot in lots`, with its `break`.
unfoldable pub sell_loop : SellFill → List ℕ → SaleState → Result Error SaleState
sell_loop fill [] st = ok st
sell_loop fill (n ∷ ns) st =
    if leb_ℤ st.remaining_to_sell (pos 0)
    then ok st
    else do st' ← sell_from fill (find_lot n st.lots) st; sell_loop fill ns st'

unfoldable pub consume_lots : SellFill → Units → List ℕ → List TaxLot → Result Error SaleState
consume_lots fill quantity selected lots = do
  st ← sell_loop fill selected (record {
    lots = lots;
    remaining_to_sell = quantity;
    consumed_basis_total = pos 0;
    realized_total = pos 0;
    consumptions = [];
  })
  if ltb_ℤ (pos 0) st.remaining_to_sell then err insufficient_lots else ok st

unfoldable pub designate_lot : ℕ → ℕ → Option TaxLot → List TaxLot → Result Error (List TaxLot)
designate_lot customer security none lots = err unknown_tax_lot
designate_lot customer security (some lot) lots =
    if not (belongs customer security lot)
    then err unknown_tax_lot
    else ok (put_lot (record lot { designation = specific }) lots)

unfoldable pub designate_lots : ℕ → ℕ → List ℕ → List TaxLot → Result Error (List TaxLot)
designate_lots customer security [] lots = ok lots
designate_lots customer security (n ∷ ns) lots = do
  lots' ← designate_lot customer security (find_lot n lots) lots
  designate_lots customer security ns lots'

-- `_select_lots_to_consume`: the ids to walk, in order, and the rows with their designation.
unfoldable pub select_lots_to_consume :
    ℕ → ℕ → List ℕ → List TaxLot → Result Error (List ℕ × List TaxLot)
select_lots_to_consume customer security [] lots =
    ok (map (λ l. l.id) (lock_open_fifo customer security lots), lots)
select_lots_to_consume customer security (n ∷ ns) lots = do
  lots' ← designate_lots customer security (n ∷ ns) lots
  ok (n ∷ ns, lots')
