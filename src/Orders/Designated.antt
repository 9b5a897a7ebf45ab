-- ===== src/Orders/Designated.antt =====
-- A designation that is accepted: which checks it has passed, and that a sale of its lots finds the
-- units.
use trueup.Prelude.{
  ℕ, ◌≤◌, ◌≡◌, refl, sym, ap, ◌∙◌, inl, inr, Bool, true, false, not, Bool-cases, Option, none, some,
  List, [], ◌∷◌, length, is_empty, All, Result, ok, err, ltb, ltb→le, >>=-eq-ok, ok_injective,
  raise_if, arith,
}
use trueup.Prelude.Int.{ℤ, pos, ◌+ℤ◌, ◌-ℤ◌, ◌≤ℤ◌, ltb_ℤ, int_laws, parts_of_eq}
use trueup.Errors.{Error, insufficient_designated_lots}
use trueup.Money.{units, Units, add, sub}
use trueup.Money.Precision.{make-InRange}
use trueup.Store.{Store, TaxLot, Order, OrderSide, sell}
use trueup.Lots.Table.{find_lot, total_remaining}
use trueup.Orders.Designation.{
  max_designated_lots, is_sell, has_duplicate, owned_lot, named_lots, total_committed,
  open_sell_orders, check_coverage, validate,
}
use trueup.Orders.Covered.{units_of, named_units}

owned-units :
    (customer security : ℕ) (found : Option TaxLot) {lot : TaxLot}
    → owned_lot customer security found ≡ ok lot
    → units_of found ≡ lot.quantity_remaining
unfolding owned_lot
owned-units customer security none e = cc
owned-units customer security (some l) e = ground arith

total_remaining-sum :
    (customer security : ℕ) (lots : List TaxLot) (ns : List ℕ) (total : Units) {ls : List TaxLot}
    {sum : Units}
    → named_lots customer security lots ns ≡ ok ls
    → total_remaining total ls ≡ ok sum
    → sum ≡ total +ℤ named_units ns lots
unfolding named_lots total_remaining named_units add
total_remaining-sum customer security lots [] total {ls} {sum} e k =
    let nil : [] ≡ ls = ok_injective {E = Error} e in
    let same : total ≡ sum = ok_injective {E = Error} (rw (← nil) at k) in
    rw (← same) (omega int_laws)
total_remaining-sum customer security lots (n ∷ ns) total {ls} {sum} e k =
    let (lot, owned, e1) = >>=-eq-ok (owned_lot customer security (find_lot n lots)) _ e in
    let (rest, got, e2) = >>=-eq-ok (named_lots customer security lots ns) _ e1 in
    let cons : lot ∷ rest ≡ ls = ok_injective {E = Error} e2 in
    let (total', added, k1) =
      >>=-eq-ok (add units total lot.quantity_remaining) _ (rw (← cons) at k) in
    let ih = total_remaining-sum customer security lots ns total' got k1 in
    let is = (make-InRange units _ added).0 in
    let held = owned-units customer security (find_lot n lots) owned in
    rw (ih, is, held) (omega int_laws)

-- The id names a lot on file of the customer and the security.
abbrev pub IsOwned : ℕ → ℕ → List TaxLot → ℕ → Type 0
IsOwned customer security lots n =
    (lot : TaxLot) × (find_lot n lots ≡ some lot)
    × (lot.customer_id ≡ customer)
    × (lot.security_id ≡ security)

owned_lot-ok :
    (customer security : ℕ) (found : Option TaxLot) {lot : TaxLot}
    → owned_lot customer security found ≡ ok lot
    → (found ≡ some lot) × (lot.customer_id ≡ customer) × (lot.security_id ≡ security)
unfolding owned_lot
owned_lot-ok customer security none e = cc
owned_lot-ok customer security (some l) e = ground arith

named_lots-IsOwned :
    (customer security : ℕ) (lots : List TaxLot) (ns : List ℕ) {ls : List TaxLot}
    → named_lots customer security lots ns ≡ ok ls
    → All (IsOwned customer security lots) ns
unfolding named_lots
named_lots-IsOwned customer security lots [] e = tt
named_lots-IsOwned customer security lots (n ∷ ns) e =
    let (lot, owned, e1) = >>=-eq-ok (owned_lot customer security (find_lot n lots)) _ e in
    let (rest, got, e2) = >>=-eq-ok (named_lots customer security lots ns) _ e1 in
    let (found, mine, this) = owned_lot-ok customer security (find_lot n lots) owned in
    ((lot, found, mine, this), named_lots-IsOwned customer security lots ns got)

raise_if-ok : (b : Bool) (x : Error) {u : Unit {0}} → raise_if b x ≡ ok u → b ≡ false
raise_if-ok true x e = cc
raise_if-ok false x e = refl

sub-value : (a b : Units) {r : Units} → sub units a b ≡ ok r → r ≡ a -ℤ b
unfolding sub
sub-value a b e = (make-InRange units (a -ℤ b) e).0

covered_bound : (q v c n t : ℤ) → ltb_ℤ v q ≡ false → v ≡ t -ℤ c → t ≡ pos 0 +ℤ n → (q +ℤ c) ≤ℤ n
covered_bound q v c n t enough left is =
    let p1 = parts_of_eq left in
    let p2 = parts_of_eq is in let p3 : q ≤ℤ v = ground arith in omega int_laws

-- The lots that a designation names cover the quantity and what open sales of them have left to sell.
check_coverage-units :
    (customer security : ℕ) (quantity : Units) (ids : List ℕ) (s : Store) {r : List ℕ}
    → check_coverage customer security quantity ids s ≡ ok r
    → (r ≡ ids)
      × All (IsOwned customer security s.tax_lots) ids
      × (committed : Units) × (total_committed ids (pos 0) (open_sell_orders customer s.orders)
          ≡ ok committed)
      × ((quantity +ℤ committed) ≤ℤ named_units ids s.tax_lots)
unfolding check_coverage
check_coverage-units customer security quantity ids s e =
    let (lots, named, e1) = >>=-eq-ok (named_lots customer security s.tax_lots ids) _ e in
    let (total, summed, e2) = >>=-eq-ok (total_remaining (pos 0) lots) _ e1 in
    let (committed, taken, e3) =
      >>=-eq-ok (total_committed ids (pos 0) (open_sell_orders customer s.orders)) _ e2 in
    let (covered, subtracted, e4) = >>=-eq-ok (sub units total committed) _ e3 in
    let is = total_remaining-sum customer security s.tax_lots ids (pos 0) named summed in
    let left = sub-value total committed subtracted in
    elim (Bool-cases (ltb_ℤ covered quantity)) [
      | inl short ↦
          let no : ◌≡◌ {A = Result Error (List ℕ)} (err insufficient_designated_lots) (ok _) =
            rw short at e4 in
          cc
      | inr enough ↦ (
        sym (ok_injective {E = Error} (rw enough at e4)),
        named_lots-IsOwned customer security s.tax_lots ids named,
        committed,
        taken,
        covered_bound quantity covered committed _ total enough left is,
      )
    ]

-- A designation that is accepted is for a sale, and names between 1 and 50 lots, none twice, each on
-- file for the customer and the security of the order, that hold
-- the quantity of the order on top of what is left to sell of the customer's open sales of them.
pub validate-ok :
    (customer security : ℕ) (side : OrderSide) (quantity : Units) (ids : List ℕ) (s : Store)
    {r : Option (List ℕ)}
    → validate customer security side quantity (some ids) s ≡ ok r
    → (r ≡ some ids)
      × (side ≡ sell)
      × (is_empty ids ≡ false)
      × (length ids ≤ 50)
      × (has_duplicate ids ≡ false)
      × All (IsOwned customer security s.tax_lots) ids
      × (committed : Units) × (total_committed ids (pos 0) (open_sell_orders customer s.orders)
          ≡ ok committed)
      × ((quantity +ℤ committed) ≤ℤ named_units ids s.tax_lots)
unfolding validate
validate-ok customer security side quantity ids s e =
    let (u1, selling, e1) = >>=-eq-ok (raise_if (not (is_sell side)) _) _ e in
    let (u2, some_ids, e2) = >>=-eq-ok (raise_if (is_empty ids) _) _ e1 in
    let (u3, fresh, e3) = >>=-eq-ok (raise_if (has_duplicate ids) _) _ e2 in
    let (u4, few, e4) = >>=-eq-ok (raise_if (ltb max_designated_lots (length ids)) _) _ e3 in
    let (r, checked, e5) = >>=-eq-ok (check_coverage customer security quantity ids s) _ e4 in
    let (same, owned, committed, taken, covered) =
      check_coverage-units customer security quantity ids s checked in
    (
      sym (ok_injective {E = Error} e5) ∙ ap some same,
      sells side (raise_if-ok _ _ selling),
      raise_if-ok _ _ some_ids,
      ltb→le 50 (length ids) (raise_if-ok _ _ few),
      raise_if-ok _ _ fresh,
      owned,
      committed,
      taken,
      covered,
    )
  where
    sells : (side : OrderSide) → not (is_sell side) ≡ false → side ≡ sell
    sells sell e = refl
    sells trueup.Store.buy e = cc
