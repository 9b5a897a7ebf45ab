-- ===== src/Lots/Rounds.antt =====
-- One round of the loop of a sale keeps the sale's books.
use trueup.Prelude.{
  ℕ, ◌≡◌, sym, ◌∙◌, some, List, [], ◌∷◌, ◌++◌, All, ok, ltb, ok_injective, >>=-eq-ok,
}
use trueup.Prelude.Int.{pos, ◌+ℤ◌, ◌-ℤ◌, ◌≤ℤ◌, int_laws, parts_of_eq}
use trueup.Errors.{Error}
use trueup.Money.{money, units, Money, Units, add, sub, mul_price_units, div_money_units}
use trueup.Money.Precision.{make-InRange}
use trueup.Store.{TaxLot}
use trueup.Lots.Table.{find_lot, put_lot, units_held, basis_held}
use trueup.Lots.Sale.{SellFill, SaleState, consume_lot}
use trueup.Lots.Totals.{
  units_sold, gains, units_sold-append, gains-append, IsStocked, find_lot-IsStocked,
  put_lot-IsStocked, put_lot_totals,
}

-- The state of a sale of `quantity` that began with the rows `lots`.
pub record IsSale (quantity : Units) (lots : List TaxLot) (st : SaleState) : Type 0 where
  pub sold : units_sold st.consumptions +ℤ st.remaining_to_sell ≡ quantity
  pub stock : units_held st.lots +ℤ units_sold st.consumptions ≡ units_held lots
  pub basis : basis_held st.lots +ℤ st.consumed_basis_total ≡ basis_held lots
  pub realized : st.realized_total ≡ gains st.consumptions
  pub unsold : pos 0 ≤ℤ st.remaining_to_sell
  pub stocked : All IsStocked st.lots

-- The state after a round that took `taken` of a lot, from the values that the round computed.
abbrev pub after :
    SellFill
    → TaxLot
    → Units
    → SaleState
    → (realized : Money) (left : Units) (basis_left basis_total realized_total : Money)
      (rest : Units)
    → SaleState
after fill lot taken st realized left basis_left basis_total realized_total rest = record {
  lots = put_lot (record lot { quantity_remaining = left; adjusted_basis = basis_left }) st.lots;
  remaining_to_sell = rest;
  consumed_basis_total = basis_total;
  realized_total = realized_total;
  consumptions =
      st.consumptions
      ++ record {
        tax_lot_id = lot.id;
        quantity_consumed = taken;
        realized_gain_loss = realized;
        is_provisional = ltb fill.filled_at lot.designation_window_closes_at;
      }
        ∷ [];
}

exactly :
    (fill : SellFill) (lot : TaxLot) (taken : Units) (st : SaleState) (realized : Money)
    {l l' : Units} {b b' t t' g g' : Money} {r r' : Units}
    → l ≡ l'
    → b ≡ b'
    → t ≡ t'
    → g ≡ g'
    → r ≡ r'
    → after fill lot taken st realized l b t g r ≡ after fill lot taken st realized l' b' t' g' r'
exactly fill lot taken st realized e1 e2 e3 e4 e5 = rw (e1, e2, e3, e4, e5)

-- The values of a round that returned.
pub consume_lot-ok :
    (fill : SellFill) (lot : TaxLot) (taken : Units) (st : SaleState) {st' : SaleState}
    → consume_lot fill lot taken st ≡ ok st'
    → (basis : Money) × (realized : Money) × (st'
        ≡ after fill lot taken st realized
            (lot.quantity_remaining -ℤ taken)
            (lot.adjusted_basis -ℤ basis)
            (st.consumed_basis_total +ℤ basis)
            (st.realized_total +ℤ realized)
            (st.remaining_to_sell -ℤ taken))
unfolding consume_lot add sub
consume_lot-ok fill lot taken st e =
    let (per_unit, _, e1) =
      >>=-eq-ok (div_money_units lot.adjusted_basis lot.quantity_remaining) _ e in
    let (basis, _, e2) = >>=-eq-ok (mul_price_units per_unit taken) _ e1 in
    let (proceeds, _, e3) = >>=-eq-ok (mul_price_units fill.price taken) _ e2 in
    let (realized, _, e4) = >>=-eq-ok (sub money proceeds basis) _ e3 in
    let (left, m5, e5) = >>=-eq-ok (sub units lot.quantity_remaining taken) _ e4 in
    let (basis_left, m6, e6) = >>=-eq-ok (sub money lot.adjusted_basis basis) _ e5 in
    let (total, m7, e7) = >>=-eq-ok (add money st.consumed_basis_total basis) _ e6 in
    let (gain, m8, e8) = >>=-eq-ok (add money st.realized_total realized) _ e7 in
    let (rest, m9, e9) = >>=-eq-ok (sub units st.remaining_to_sell taken) _ e8 in
    (
      basis,
      realized,
      sym (ok_injective {E = Error} e9)
          ∙ exactly fill lot taken st realized (make-InRange units _ m5).0
              (make-InRange money _ m6).0 (make-InRange money _ m7).0 (make-InRange money _ m8).0
              (make-InRange units _ m9).0,
    )

after-IsSale :
    (fill : SellFill) (n : ℕ) (lot : TaxLot) (taken : Units) (quantity : Units) (lots : List TaxLot)
    (st : SaleState) (basis realized : Money)
    → find_lot n st.lots ≡ some lot
    → taken ≤ℤ lot.quantity_remaining
    → taken ≤ℤ st.remaining_to_sell
    → IsSale quantity lots st
    → IsSale quantity lots (
        after fill lot taken st realized
          (lot.quantity_remaining -ℤ taken)
          (lot.adjusted_basis -ℤ basis)
          (st.consumed_basis_total +ℤ basis)
          (st.realized_total +ℤ realized)
          (st.remaining_to_sell -ℤ taken))
after-IsSale fill n lot taken quantity lots st basis realized found fits due h =
    let (same, _) = find_lot-IsStocked n st.lots found h.stocked in
    let new = record lot {
      quantity_remaining = lot.quantity_remaining -ℤ taken;
      adjusted_basis = lot.adjusted_basis -ℤ basis;
    } in
    let (u, b) = put_lot_totals n st.lots new found same in
    let u' = parts_of_eq u in
    let b' = parts_of_eq b in
    let sold' = parts_of_eq h.sold in
    let stock' = parts_of_eq h.stock in
    let basis' = parts_of_eq h.basis in
    record {
      sold = rw (units_sold-append st.consumptions _) (omega int_laws);
      stock = rw (units_sold-append st.consumptions _) (omega int_laws);
      basis = omega int_laws;
      realized = rw (gains-append st.consumptions _, h.realized);
      unsold = omega int_laws;
      stocked = put_lot-IsStocked new st.lots (omega int_laws) h.stocked;
    }

pub consume_lot-IsSale :
    (fill : SellFill) (n : ℕ) (lot : TaxLot) (taken : Units) (quantity : Units) (lots : List TaxLot)
    (st : SaleState) {st' : SaleState}
    → find_lot n st.lots ≡ some lot
    → taken ≤ℤ lot.quantity_remaining
    → taken ≤ℤ st.remaining_to_sell
    → IsSale quantity lots st
    → consume_lot fill lot taken st ≡ ok st'
    → IsSale quantity lots st'
consume_lot-IsSale fill n lot taken quantity lots st found fits due h e =
    let (basis, realized, is) = consume_lot-ok fill lot taken st e in
    rw is (after-IsSale fill n lot taken quantity lots st basis realized found fits due h)
