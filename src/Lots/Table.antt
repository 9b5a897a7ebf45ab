-- ===== src/Lots/Table.antt =====
-- models/ledger/tax_lot.py: the queries of `TaxLotRepository` and an update of one row in place.
use trueup.Prelude.{
  ℕ, ◌+◌, Bool, ◌&&◌, ◌||◌, not, Option, none, some, List, [], ◌∷◌, filter, ltb, leb, ◌==◌,
  if◌then◌else◌, Result, ok, ◌>>=◌,
}
use trueup.Prelude.Int.{ℤ, pos, ◌+ℤ◌, ltb_ℤ}
use trueup.Errors.{Error}
use trueup.Money.{units, Units, add}
use trueup.Store.{TaxLot}

abbrev pub find_lot : ℕ → List TaxLot → Option TaxLot
find_lot n [] = none
find_lot n (l ∷ ls) = if l.id == n then some l else find_lot n ls

abbrev pub put_lot : TaxLot → List TaxLot → List TaxLot
put_lot new [] = []
put_lot new (l ∷ ls) = if l.id == new.id then new ∷ ls else l ∷ put_lot new ls

-- `ORDER BY acquired_at, id`
abbrev pub is_older : TaxLot → TaxLot → Bool
is_older a b = ltb a.acquired_at b.acquired_at || a.acquired_at == b.acquired_at && leb a.id b.id

abbrev pub insert_lot : TaxLot → List TaxLot → List TaxLot
insert_lot a [] = a ∷ []
insert_lot a (b ∷ ls) = if is_older a b then a ∷ b ∷ ls else b ∷ insert_lot a ls

abbrev pub oldest_first : List TaxLot → List TaxLot
oldest_first [] = []
oldest_first (l ∷ ls) = insert_lot l (oldest_first ls)

abbrev pub belongs : ℕ → ℕ → TaxLot → Bool
belongs customer security l = l.customer_id == customer && l.security_id == security

unfoldable pub lock_open_fifo : ℕ → ℕ → List TaxLot → List TaxLot
lock_open_fifo customer security lots =
    oldest_first
      (filter (λ l. belongs customer security l && ltb_ℤ (pos 0) l.quantity_remaining) lots)

-- `lock_open_for_security`
abbrev pub is_open_lot : ℕ → ℕ → TaxLot → Bool
is_open_lot customer security l = belongs customer security l && ltb_ℤ (pos 0) l.quantity_remaining

unfoldable pub lock_open_for_security : ℕ → ℕ → List TaxLot → List TaxLot
lock_open_for_security customer security lots = filter (is_open_lot customer security) lots

-- The sum of the remaining quantities, as `total_remaining` and the services add it up.
unfoldable pub total_remaining : Units → List TaxLot → Result Error Units
total_remaining total [] = ok total
total_remaining total (l ∷ ls) = do
  total' ← add units total l.quantity_remaining
  total_remaining total' ls

abbrev first : List TaxLot → Option TaxLot
first [] = none
first (l ∷ ls) = some l

-- `find_earliest_replacement_in_window`; a window's start is left of the date by subtraction, so
-- it is written as a sum on the other side.
unfoldable pub find_earliest_replacement_in_window : ℕ → ℕ → ℕ → ℕ → ℕ → List TaxLot → Option TaxLot
find_earliest_replacement_in_window customer security anchor days exclude lots = first (
    oldest_first (
      filter
        (λ l.
          belongs customer security l
          && not (l.id == exclude)
          && leb anchor (l.acquired_at + days)
          && leb l.acquired_at (anchor + days))
        lots))

-- The units and the basis that the lots of a table hold.
unfoldable pub units_held : List TaxLot → ℤ
units_held [] = pos 0
units_held (l ∷ ls) = l.quantity_remaining +ℤ units_held ls

unfoldable pub basis_held : List TaxLot → ℤ
basis_held [] = pos 0
basis_held (l ∷ ls) = l.adjusted_basis +ℤ basis_held ls
