-- ===== src/Orders/Recorded.antt =====
-- Trade updates: the ledger stays balanced, and a fill is recorded at most once.
use trueup.Prelude.{ℕ, Option, none, some}
use trueup.Money.{Units, Price}
use trueup.Clock.{MarketClock}
use trueup.Store.{
  pure, Order, OrderSide, buy, sell, OrderEvent, OrderEventType, fill, OrderStatus, submitted,
  accepted, rejected, canceled, expired, draft, awaiting_approval, approved, partially_filled,
  filled,
}
use trueup.Store.Keeps.{Keeps, Keeps-pure, keeps_rules}
use trueup.Ledger.Written.{IsLedger}
use trueup.Ledger.Kept.{ledger_rules}
use trueup.Lots.WashSale.{Restatement}
use trueup.Lots.Balanced.{IsRestatement, record_buy_fill-IsLedger, record_sell_fill-IsLedger}
use trueup.Orders.Service.{release_if_warranted, apply_new_event}
use trueup.Orders.TradeUpdates.{
  TradeUpdate, record_side, record_lot_fill, record_if_fill, handle_event, handle,
}

Keeps-release : (n now : ℕ) (t : OrderStatus) → Keeps IsLedger (release_if_warranted n now t)
unfolding release_if_warranted
Keeps-release n now draft = search ledger_rules
Keeps-release n now awaiting_approval = search ledger_rules
Keeps-release n now approved = search ledger_rules
Keeps-release n now submitted = search ledger_rules
Keeps-release n now accepted = search ledger_rules
Keeps-release n now partially_filled = search ledger_rules
Keeps-release n now filled = search ledger_rules
Keeps-release n now rejected = search ledger_rules
Keeps-release n now canceled = search ledger_rules
Keeps-release n now expired = search ledger_rules

Keeps-apply_new_event :
    (now : ℕ) (order : Order) (e : OrderEvent) → Keeps IsLedger (apply_new_event now order e)
unfolding apply_new_event
Keeps-apply_new_event now order e = search (ledger_rules, Keeps-release) depth 20

module _ (r : Restatement) (h : IsRestatement r) (clock : MarketClock) where
  Keeps-record_side :
      (order : Order) (side : OrderSide) (execution : ℕ) (q : Units) (p : Price) (filled_at : ℕ)
      → Keeps IsLedger (record_side r clock order side execution q p filled_at)
  unfolding record_side
  Keeps-record_side order buy execution q p filled_at =
      let fills = record_buy_fill-IsLedger r h clock in search (keeps_rules, fills)
  Keeps-record_side order sell execution q p filled_at =
      let fills = record_sell_fill-IsLedger r h clock in search (keeps_rules, fills)

  Keeps-record_if_fill :
      (t : OrderEventType) (order : Order) (message : TradeUpdate)
      → Keeps IsLedger (record_if_fill r clock t order message)
  unfolding record_lot_fill
  Keeps-record_if_fill fill order message = search (keeps_rules, Keeps-record_side) depth 10
  Keeps-record_if_fill submitted order message = Keeps-pure tt
  Keeps-record_if_fill accepted order message = Keeps-pure tt
  Keeps-record_if_fill rejected order message = Keeps-pure tt
  Keeps-record_if_fill canceled order message = Keeps-pure tt
  Keeps-record_if_fill expired order message = Keeps-pure tt

  Keeps-handle_event :
      (now : ℕ) (message : TradeUpdate) (t : OrderEventType)
      → Keeps IsLedger (handle_event r clock now message t)
  unfolding handle_event
  Keeps-handle_event now message t =
      search (keeps_rules, Keeps-apply_new_event, Keeps-record_if_fill) depth 12

  -- If restatements keep every journal entry balanced, so does a trade update that is handled,
  -- whatever it says.
  pub handle-IsLedger :
      (now : ℕ) (message : TradeUpdate) → Keeps IsLedger (handle r clock now message)
  unfolding handle
  handle-IsLedger now message = tracked message.event
    where
      tracked :
          (t : Option OrderEventType)
          → Keeps IsLedger {A = Option OrderStatus} (elim t [
            | none ↦ pure none
            | some event_type ↦ handle_event r clock now message event_type
          ])
      tracked none = Keeps-pure none
      tracked (some t) = Keeps-handle_event now message t
