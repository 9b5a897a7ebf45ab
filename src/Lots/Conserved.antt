-- ===== src/Lots/Conserved.antt =====
-- What a sale takes from the lots is what it books: units, basis and gains, over all of its rounds.
use trueup.Prelude.{
  ℕ, ◌≡◌, refl, inl, inr, false, Bool-cases, Option, none, some, List, [], ◌∷◌, All, Result, ok,
  err, if◌then◌else◌, ok_injective, >>=-eq-ok, arith,
}
use trueup.Prelude.Int.{ℤ, pos, ◌+ℤ◌, ◌≤ℤ◌, ltb_ℤ, leb_ℤ, min_ℤ, int_laws, parts_of_eq}
use trueup.Errors.{Error, insufficient_lots}
use trueup.Money.{Units}
use trueup.Store.{TaxLot}
use trueup.Lots.Table.{find_lot, units_held, basis_held}
use trueup.Lots.Sale.{SellFill, SaleState, sell_from, sell_loop, consume_lots}
use trueup.Lots.Totals.{units_sold, gains, IsStocked}
use trueup.Lots.Rounds.{IsSale, consume_lot-IsSale}

min_ℤ-bounds : (a b : ℤ) → (min_ℤ a b ≤ℤ a) × (min_ℤ a b ≤ℤ b)
min_ℤ-bounds a b = (ground arith, ground arith)

module _ (fill : SellFill) (quantity : Units) (lots : List TaxLot) where
  sell_from-IsSale :
      (n : ℕ) (found : Option TaxLot) (st : SaleState) {st' : SaleState}
      → find_lot n st.lots ≡ found
      → IsSale quantity lots st
      → sell_from fill found st ≡ ok st'
      → IsSale quantity lots st'
  unfolding sell_from
  sell_from-IsSale n none st e h k = rw (← ok_injective {E = Error} k) h
  sell_from-IsSale n (some lot) st e h k =
      let taken = min_ℤ lot.quantity_remaining st.remaining_to_sell in
      let (fits, due) = min_ℤ-bounds lot.quantity_remaining st.remaining_to_sell in
      elim (Bool-cases (leb_ℤ taken (pos 0))) [
        | inl nothing ↦ let same = rw nothing at k in rw (← ok_injective {E = Error} same) h
        | inr some_of_it ↦
            consume_lot-IsSale fill n lot taken quantity lots st e fits due h (rw some_of_it at k)
      ]

  sell_loop-IsSale :
      (ns : List ℕ) (st : SaleState) {st' : SaleState}
      → IsSale quantity lots st
      → sell_loop fill ns st ≡ ok st'
      → IsSale quantity lots st'
  unfolding sell_loop
  sell_loop-IsSale [] st h k = rw (← ok_injective {E = Error} k) h
  sell_loop-IsSale (n ∷ ns) st h k = elim (Bool-cases (leb_ℤ st.remaining_to_sell (pos 0))) [
    | inl over ↦ let same = rw over at k in rw (← ok_injective {E = Error} same) h
    | inr more ↦
        let k' = rw more at k in
        let (st1, e1, k1) =
          >>=-eq-ok (sell_from fill (find_lot n st.lots) st) (λ st1. sell_loop fill ns st1) k' in
        sell_loop-IsSale ns st1 (sell_from-IsSale n (find_lot n st.lots) st refl h e1) k1
  ]

abbrev begun : Units → List TaxLot → SaleState
begun quantity lots = record {
  lots = lots;
  remaining_to_sell = quantity;
  consumed_basis_total = pos 0;
  realized_total = pos 0;
  consumptions = [];
}

begun-IsSale :
    (quantity : Units) (lots : List TaxLot)
    → pos 0 ≤ℤ quantity
    → All IsStocked lots
    → IsSale quantity lots (begun quantity lots)
unfolding units_sold gains
begun-IsSale quantity lots positive stocked = record {
  sold = omega int_laws;
  stock = omega int_laws;
  basis = omega int_laws;
  realized = refl;
  unsold = positive;
  stocked = stocked;
}

nothing_left : (x : Units) → pos 0 ≤ℤ x → ltb_ℤ (pos 0) x ≡ false → x ≡ pos 0
nothing_left x h k = ground arith

-- A sale of a quantity that is not negative, from rows with nothing negative, that returns has
-- consumed exactly that quantity; the rows lost exactly what the consumptions and the booked basis
-- say, the booked gain is the sum of the consumptions' gains, and no row is left below zero. This
-- holds whichever lots are named, in any order and with repetitions.
pub consume_lots-conserves :
    (fill : SellFill) (quantity : Units) (selected : List ℕ) (lots : List TaxLot) {st : SaleState}
    → pos 0 ≤ℤ quantity
    → All IsStocked lots
    → consume_lots fill quantity selected lots ≡ ok st
    → (units_sold st.consumptions ≡ quantity)
      × (units_held st.lots +ℤ quantity ≡ units_held lots)
      × (basis_held st.lots +ℤ st.consumed_basis_total ≡ basis_held lots)
      × (st.realized_total ≡ gains st.consumptions)
      × All IsStocked st.lots
unfolding consume_lots
consume_lots-conserves fill quantity selected lots {st} positive stocked e =
    let (end, sold, e') =
      >>=-eq-ok (sell_loop fill selected (begun quantity lots))
        (λ st. if ltb_ℤ (pos 0) st.remaining_to_sell then err insufficient_lots else ok st) e in
    let h =
      sell_loop-IsSale fill quantity lots selected (begun quantity lots)
        (begun-IsSale quantity lots positive stocked) sold in
    elim (Bool-cases (ltb_ℤ (pos 0) end.remaining_to_sell)) [
      | inl left ↦
          let same : ◌≡◌ {A = Result Error SaleState} (err insufficient_lots) (ok st) =
            rw left at e' in
          cc
      | inr done ↦
          let same = rw done at e' in
          let is : end ≡ st = ok_injective {E = Error} same in
          let books : IsSale quantity lots st = rw (← is) h in
          let zero_left : st.remaining_to_sell ≡ pos 0 =
            rw (← is) (nothing_left end.remaining_to_sell h.unsold done) in
          closed st books zero_left
    ]
  where
    closed :
        (st : SaleState)
        → IsSale quantity lots st
        → st.remaining_to_sell ≡ pos 0
        → (units_sold st.consumptions ≡ quantity)
          × (units_held st.lots +ℤ quantity ≡ units_held lots)
          × (basis_held st.lots +ℤ st.consumed_basis_total ≡ basis_held lots)
          × (st.realized_total ≡ gains st.consumptions)
          × All IsStocked st.lots
    closed st h z =
        let all_sold : units_sold st.consumptions ≡ quantity =
          let s = parts_of_eq h.sold in let z' = parts_of_eq z in omega int_laws in
        (all_sold, (rw all_sold at h.stock), h.basis, h.realized, h.stocked)
