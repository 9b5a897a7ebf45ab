-- ===== src/Orders/Designation.antt =====
-- services/orders/lot_designation_service.py: whether the lots that a customer names for a sale may
-- be stored with the order.
use trueup.Prelude.{
  ℕ, Bool, true, false, not, ◌&&◌, ◌||◌, Option, none, some, List, [], ◌∷◌, length, filter, any,
  is_empty, Result, ok, err, ltb, ◌==◌, if◌then◌else◌, ◌>>=◌, ◌>>◌, raise_if,
}
use trueup.Prelude.Int.{pos, ltb_ℤ}
use trueup.Errors.{
  Error, unknown_tax_lot, designation_not_allowed_for_buy, empty_designation, duplicate_designation,
  too_many_designated_lots, insufficient_designated_lots,
}
use trueup.Money.{units, Units, add, sub}
use trueup.Store.{
  Store, TaxLot, Order, OrderSide, buy, sell, OrderStatus, submitted, accepted, partially_filled,
}
use trueup.Lots.Table.{find_lot, belongs, total_remaining}

-- `_MAX_DESIGNATED_LOTS`
abbrev pub max_designated_lots : ℕ
max_designated_lots = 50

abbrev pub is_sell : OrderSide → Bool
is_sell sell = true
is_sell buy = false

abbrev pub is_open : OrderStatus → Bool
is_open submitted = true
is_open accepted = true
is_open partially_filled = true
is_open _ = false

-- `OrderRepository.open_sell_orders`
unfoldable pub open_sell_orders : ℕ → List Order → List Order
open_sell_orders customer orders =
    filter (λ o. o.customer_id == customer && is_sell o.side && is_open o.status) orders

-- `len(set(lot_ids)) != len(lot_ids)`
unfoldable pub has_duplicate : List ℕ → Bool
has_duplicate [] = false
has_duplicate (n ∷ ns) = any (λ m. m == n) ns || has_duplicate ns

-- A lot that is missing or another customer's, or of another security, is unknown alike.
unfoldable pub owned_lot : ℕ → ℕ → Option TaxLot → Result Error TaxLot
owned_lot customer security none = err unknown_tax_lot
owned_lot customer security (some lot) =
    if not (belongs customer security lot) then err unknown_tax_lot else ok lot

-- `named_lots`
unfoldable pub named_lots : ℕ → ℕ → List TaxLot → List ℕ → Result Error (List TaxLot)
named_lots customer security lots [] = ok []
named_lots customer security lots (n ∷ ns) = do
  lot ← owned_lot customer security (find_lot n lots)
  rest ← named_lots customer security lots ns
  ok (lot ∷ rest)

-- `named_ids.intersection(open_designation)`; an order without a designation has no ids.
unfoldable pub intersects : List ℕ → List ℕ → Bool
intersects ids designation = any (λ n. any (λ m. m == n) ids) designation

-- `already_committed`: an open sale counts in full as soon as one of its lots is named.
unfoldable pub add_committed : List ℕ → Units → Order → Result Error Units
add_committed ids total o =
    let left = sub units o.quantity_requested o.filled_quantity in
    if intersects ids o.designated_lot_ids then left >>= add units total else ok total

unfoldable pub total_committed : List ℕ → Units → List Order → Result Error Units
total_committed ids total [] = ok total
total_committed ids total (o ∷ os) = do
  total' ← add_committed ids total o
  total_committed ids total' os

-- The part of `validate` that reads the tables.
unfoldable pub check_coverage : ℕ → ℕ → Units → List ℕ → Store → Result Error (List ℕ)
check_coverage customer security quantity ids s = do
  lots ← named_lots customer security s.tax_lots ids
  named_total ← total_remaining (pos 0) lots
  already_committed ← total_committed ids (pos 0) (open_sell_orders customer s.orders)
  covered ← sub units named_total already_committed
  if ltb_ℤ covered quantity then err insufficient_designated_lots else ok ids

unfoldable pub validate :
    ℕ → ℕ → OrderSide → Units → Option (List ℕ) → Store → Result Error (Option (List ℕ))
validate customer security side quantity none s = ok none
validate customer security side quantity (some ids) s = do
  raise_if (not (is_sell side)) designation_not_allowed_for_buy
  raise_if (is_empty ids) empty_designation
  raise_if (has_duplicate ids) duplicate_designation
  raise_if (ltb max_designated_lots (length ids)) too_many_designated_lots
  designated ← check_coverage customer security quantity ids s
  ok (some designated)
