-- ===== src/Lots/WashSale.antt =====
-- services/lots/wash_sale_service.py: a loss that a repurchase disallows moves into the basis of the
-- replacement lot. The restatement that the service calls in the end is a part of its own, and
-- stands here as an interface.
use trueup.Prelude.{
  ℕ, ◌+◌, Bool, not, ◌&&◌, Option, none, some, List, [], ◌∷◌, ◌++◌, filter, any, Result, ok, err,
  leb, ◌==◌, if◌then◌else◌,
}
use trueup.Prelude.Int.{pos, min_ℤ, ltb_ℤ, leb_ℤ}
use trueup.Errors.{Error}
use trueup.Money.{money, Money, add, absolute, negate}
use trueup.Store.{
  Store, Action, pure, gets, lift, modify, fresh_id, ◌>>=◌, ◌>>◌, TaxLot, LotConsumption,
  WashSaleAdjustment, realized_gain_loss, position_cost, wash_sale_adjustment,
}
use trueup.Ledger.Accounts.{get_or_create_customer_account}
use trueup.Ledger.Entries.{money_leg, post}
use trueup.Lots.Table.{find_lot, put_lot, belongs, find_earliest_replacement_in_window}

-- `RestatementService.restate` on the customer, the date and the source event.
pub record Restatement : Type 0 where
  pub restate : ℕ → ℕ → ℕ → Action (Unit {0})

-- `_WASH_SALE_WINDOW_DAYS`
abbrev pub wash_sale_window_days : ℕ
wash_sale_window_days = 30

abbrev pub exists_for_consumption : ℕ → List WashSaleAdjustment → Bool
exists_for_consumption n adjustments = any (λ a. a.original_lot_consumption_id == n) adjustments

abbrev pub put_consumption : LotConsumption → List LotConsumption → List LotConsumption
put_consumption new [] = []
put_consumption new (c ∷ cs) = if c.id == new.id then new ∷ cs else c ∷ put_consumption new cs

-- `min(abs(consumption.realized_gain_loss), replacement_lot.original_cost_basis)`
unfoldable pub disallowed_loss : LotConsumption → TaxLot → Result Error Money
disallowed_loss consumption lot = elim (absolute money consumption.realized_gain_loss) [
  | ok loss ↦ ok (min_ℤ loss lot.original_cost_basis)
  | err e ↦ err e
]

-- The changes of the two rows.
unfoldable pub carry_loss : LotConsumption → TaxLot → Money → Action (Unit {0})
carry_loss consumption lot disallowed = do
  basis ← lift (add money lot.adjusted_basis disallowed)
  modify (λ s. record s { tax_lots = put_lot (record lot { adjusted_basis = basis }) s.tax_lots })
  gain ← lift (add money consumption.realized_gain_loss disallowed)
  modify (λ s. record s {
    lot_consumptions =
        put_consumption (record consumption { realized_gain_loss = gain }) s.lot_consumptions;
  })

-- `_apply_adjustment` past its guard.
unfoldable pub adjust : Restatement → LotConsumption → TaxLot → Action (Unit {0})
adjust restatement consumption lot = do
  disallowed ← lift (disallowed_loss consumption lot)
  gain_account ← get_or_create_customer_account lot.customer_id realized_gain_loss none
  cost_account ← get_or_create_customer_account lot.customer_id position_cost (some lot.security_id)
  event ← fresh_id
  credit ← lift (negate money disallowed)
  entry ←
      post wash_sale_adjustment lot.acquired_at event
        (money_leg gain_account.id credit ∷ money_leg cost_account.id disallowed ∷ [])
  let adjustment : WashSaleAdjustment = record {
    original_lot_consumption_id = consumption.id;
    replacement_tax_lot_id = lot.id;
    disallowed_amount = disallowed;
    journal_entry_id = entry.id;
  }
  modify (λ s. record s { adjustments = s.adjustments ++ adjustment ∷ [] })
  carry_loss consumption lot disallowed
  restatement.restate lot.customer_id lot.acquired_at entry.source_event_id

-- `_apply_adjustment`
unfoldable pub apply_adjustment : Restatement → LotConsumption → TaxLot → Action (Unit {0})
apply_adjustment restatement consumption lot = do
  adjusted ← gets (λ s. exists_for_consumption consumption.id s.adjustments)
  if adjusted then pure tt else adjust restatement consumption lot

abbrev pub apply_if_found : Restatement → LotConsumption → Option TaxLot → Action (Unit {0})
apply_if_found restatement consumption none = pure tt
apply_if_found restatement consumption (some lot) = apply_adjustment restatement consumption lot

-- Past the two guards of `on_loss_sale`.
unfoldable pub seek_replacement : Restatement → LotConsumption → ℕ → ℕ → Action (Unit {0})
seek_replacement restatement consumption customer security = do
  replacement ← gets (λ s.
      find_earliest_replacement_in_window customer security consumption.sale_date
        wash_sale_window_days consumption.tax_lot_id s.tax_lots)
  apply_if_found restatement consumption replacement

unfoldable pub on_loss_sale : Restatement → LotConsumption → ℕ → ℕ → Action (Unit {0})
on_loss_sale restatement consumption customer security = do
  adjusted ← gets (λ s. exists_for_consumption consumption.id s.adjustments)
  if leb_ℤ (pos 0) consumption.realized_gain_loss
      then pure tt
      else if adjusted
      then pure tt
      else seek_replacement restatement consumption customer security

-- `find_unadjusted_losses_in_window`
unfoldable pub find_unadjusted_losses_in_window : TaxLot → Store → List LotConsumption
find_unadjusted_losses_in_window lot s =
    filter
      (λ c.
        any (λ l. l.id == c.tax_lot_id && belongs lot.customer_id lot.security_id l) s.tax_lots
        && ltb_ℤ c.realized_gain_loss (pos 0)
        && leb lot.acquired_at (c.sale_date + wash_sale_window_days)
        && leb c.sale_date (lot.acquired_at + wash_sale_window_days)
        && not (exists_for_consumption c.id s.adjustments))
      s.lot_consumptions

abbrev current_lot : TaxLot → List TaxLot → TaxLot
current_lot lot lots = elim (find_lot lot.id lots) [ none ↦ lot | some l ↦ l ]

-- The loop of `on_buy_fill`; the lot is one object, so each round reads what the last one wrote.
unfoldable pub adjust_each : Restatement → TaxLot → List LotConsumption → Action (Unit {0})
adjust_each restatement lot [] = pure tt
adjust_each restatement lot (c ∷ cs) = do
  current ← gets (λ s. current_lot lot s.tax_lots)
  if c.tax_lot_id == lot.id then pure tt else apply_adjustment restatement c current
  adjust_each restatement lot cs

unfoldable pub on_buy_fill : Restatement → TaxLot → Action (Unit {0})
on_buy_fill restatement lot = do
  candidates ← gets (find_unadjusted_losses_in_window lot)
  adjust_each restatement lot candidates
