-- ===== src/Lots/Balanced.antt =====
-- Every operation on lots keeps the ledger balanced, the wash-sale rule included.
use trueup.Prelude.{ℕ, Option, none, some, List, [], ◌∷◌}
use trueup.Money.{Money, Units, Price}
use trueup.Clock.{MarketClock}
use trueup.Store.{TaxLot, LotConsumption}
use trueup.Store.Keeps.{Keeps, keeps_rules}
use trueup.Ledger.Written.{IsLedger}
use trueup.Ledger.Kept.{ledger_rules}
use trueup.Lots.Sale.{SellFill, Consumed}
use trueup.Lots.WashSale.{
  Restatement, carry_loss, adjust, apply_adjustment, apply_if_found, seek_replacement, on_loss_sale,
  adjust_each, on_buy_fill,
}
use trueup.Lots.Fills.{open_lot, record_buy_fill, add_consumptions, scan_losses, record_sell_fill}

-- What the lots rely on of a restatement.
pub record IsRestatement (r : Restatement) : Type 0 where
  pub keeps : (customer date event : ℕ) → Keeps IsLedger (r.restate customer date event)

module _ (r : Restatement) (h : IsRestatement r) where
  Keeps-restate : (customer date event : ℕ) → Keeps IsLedger (r.restate customer date event)
  Keeps-restate = h.keeps

  Keeps-carry_loss :
      (c : LotConsumption) (l : TaxLot) (d : Money) → Keeps IsLedger (carry_loss c l d)
  unfolding carry_loss
  Keeps-carry_loss c l d = search ledger_rules depth 12

  Keeps-adjust : (c : LotConsumption) (l : TaxLot) → Keeps IsLedger (adjust r c l)
  unfolding adjust
  Keeps-adjust c l = search (ledger_rules, Keeps-carry_loss, Keeps-restate) depth 24

  pub Keeps-apply_adjustment :
      (c : LotConsumption) (l : TaxLot) → Keeps IsLedger (apply_adjustment r c l)
  unfolding apply_adjustment
  Keeps-apply_adjustment c l = search (ledger_rules, Keeps-adjust)

  Keeps-apply_if_found :
      (c : LotConsumption) (l : Option TaxLot) → Keeps IsLedger (apply_if_found r c l)
  Keeps-apply_if_found c none = search keeps_rules
  Keeps-apply_if_found c (some l) = Keeps-apply_adjustment c l

  Keeps-on_loss_sale :
      (c : LotConsumption) (customer security : ℕ)
      → Keeps IsLedger (on_loss_sale r c customer security)
  unfolding on_loss_sale seek_replacement
  Keeps-on_loss_sale c customer security = search (ledger_rules, Keeps-apply_if_found) depth 8

  Keeps-adjust_each : (l : TaxLot) (cs : List LotConsumption) → Keeps IsLedger (adjust_each r l cs)
  unfolding adjust_each
  Keeps-adjust_each l [] = search keeps_rules
  Keeps-adjust_each l (c ∷ cs) =
      let rest = Keeps-adjust_each l cs in search (keeps_rules, Keeps-apply_adjustment) depth 8

  Keeps-on_buy_fill : (l : TaxLot) → Keeps IsLedger (on_buy_fill r l)
  unfolding on_buy_fill
  Keeps-on_buy_fill l = search (keeps_rules, Keeps-adjust_each)

  Keeps-open_lot :
      (customer security execution : ℕ) (q : Units) (cost : Money) (date closes : ℕ)
      → Keeps IsLedger (open_lot customer security execution q cost date closes)
  unfolding open_lot
  Keeps-open_lot customer security execution q cost date closes = search ledger_rules depth 8

  module _ (clock : MarketClock) where
    Keeps-add_consumptions :
        (fill : SellFill) (cs : List Consumed) → Keeps IsLedger (add_consumptions r clock fill cs)
    unfolding add_consumptions
    Keeps-add_consumptions fill [] = search keeps_rules
    Keeps-add_consumptions fill (c ∷ cs) =
        let rest = Keeps-add_consumptions fill cs in search ledger_rules depth 8

    Keeps-scan_losses :
        (customer security : ℕ) (cs : List LotConsumption)
        → Keeps IsLedger (scan_losses r clock customer security cs)
    unfolding scan_losses
    Keeps-scan_losses customer security [] = search keeps_rules
    Keeps-scan_losses customer security (c ∷ cs) =
        let rest = Keeps-scan_losses customer security cs in
        search (keeps_rules, Keeps-on_loss_sale) depth 8

    -- If restatements keep every journal entry balanced, so does a buy fill, with the lot that it
    -- opens and the wash sales that it sets off.
    pub record_buy_fill-IsLedger :
        (customer security execution : ℕ) (q : Units) (p : Price) (filled_at : ℕ)
        → Keeps IsLedger (record_buy_fill r clock customer security execution q p filled_at)
    unfolding record_buy_fill
    record_buy_fill-IsLedger customer security execution q p filled_at =
        search (ledger_rules, Keeps-open_lot, Keeps-on_buy_fill) depth 40 fits 4000

    -- If restatements keep every journal entry balanced, so does a sell fill, whichever lots it
    -- names.
    pub record_sell_fill-IsLedger :
        (customer security execution : ℕ) (q : Units) (p : Price) (filled_at : ℕ) (named : List ℕ)
        → Keeps IsLedger (record_sell_fill r clock customer security execution q p filled_at named)
    unfolding record_sell_fill
    record_sell_fill-IsLedger customer security execution q p filled_at named =
        search (ledger_rules, Keeps-add_consumptions, Keeps-scan_losses) depth 48 fits 4000
