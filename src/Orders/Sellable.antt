-- ===== src/Orders/Sellable.antt =====
-- A sale of the lots of an accepted designation.
use trueup.Prelude.{
  ℕ, ◌≡◌, ◌≢◌, ◌∙◌, sym, ok_injective, inl, inr, Bool-cases, false, Option, none, some, List, [],
  ◌∷◌, Result, ok, err, Result-cases, ◌>>=◌, arith,
}
use trueup.Prelude.Int.{ℤ, pos, ◌+ℤ◌, ◌≤ℤ◌, ltb_ℤ, leb_ℤ, min_ℤ, int_laws}
use trueup.Errors.{Error, insufficient_lots}
use trueup.Money.{
  Kind, Money, Units, Price, make, add, sub, money, mul_price_units, div_money_units,
}
use trueup.Store.{Store, TaxLot, OrderSide}
use trueup.Lots.Table.{find_lot}
use trueup.Lots.Sale.{SellFill, SaleState, sell_from, sell_loop, consume_lots, consume_lot}
use trueup.Orders.Designation.{open_sell_orders, total_committed, validate}
use trueup.Orders.Covered.{sell_loop-Covers, named_units}
use trueup.Orders.Designated.{validate-ok}

-- Arithmetic raises, but not for want of lots.
abbrev IsNotShort : {A : Type 0} → Result Error A → Type 0
IsNotShort r = r ≢ err insufficient_lots

>>=-IsNotShort :
    {A B : Type 0} (r : Result Error A) (f : A → Result Error B)
    → IsNotShort r
    → ((a : A) → IsNotShort (f a))
    → IsNotShort (r >>= f)
>>=-IsNotShort (ok a) f h k = k a
>>=-IsNotShort (err x) f h k = λ e. h (cc)

ok-IsNotShort : {A : Type 0} (a : A) → IsNotShort (ok a)
ok-IsNotShort a = λ e. cc

make-IsNotShort : (k : Kind) (z : ℤ) → IsNotShort (make k z)
unfolding make
make-IsNotShort k z = λ e. ground arith

add-IsNotShort : (k : Kind) (a b : ℤ) → IsNotShort (add k a b)
unfolding add
add-IsNotShort k a b = make-IsNotShort k _

sub-IsNotShort : (k : Kind) (a b : ℤ) → IsNotShort (sub k a b)
unfolding sub
sub-IsNotShort k a b = make-IsNotShort k _

mul-IsNotShort : (p : Price) (u : Units) → IsNotShort (mul_price_units p u)
unfolding mul_price_units
mul-IsNotShort p u = make-IsNotShort money _

div-IsNotShort : (m : Money) (u : Units) → IsNotShort (div_money_units m u)
unfolding div_money_units make
div-IsNotShort m u = λ e. ground arith

ruleset short_rules =
    (>>=-IsNotShort, ok-IsNotShort, add-IsNotShort, sub-IsNotShort, mul-IsNotShort, div-IsNotShort)

consume_lot-IsNotShort :
    (fill : SellFill) (lot : TaxLot) (taken : Units) (st : SaleState)
    → IsNotShort (consume_lot fill lot taken st)
unfolding consume_lot
consume_lot-IsNotShort fill lot taken st = search (short_rules) depth 30

sell_from-IsNotShort :
    (fill : SellFill) (lot : Option TaxLot) (st : SaleState) → IsNotShort (sell_from fill lot st)
unfolding sell_from
sell_from-IsNotShort fill none st = ok-IsNotShort st
sell_from-IsNotShort fill (some lot) st =
    elim (Bool-cases (leb_ℤ (min_ℤ lot.quantity_remaining st.remaining_to_sell) (pos 0))) [
      | inl nothing ↦ rw nothing (ok-IsNotShort st)
      | inr something ↦ rw something (consume_lot-IsNotShort fill lot _ st)
    ]

sell_loop-IsNotShort :
    (fill : SellFill) (ns : List ℕ) (st : SaleState) → IsNotShort (sell_loop fill ns st)
unfolding sell_loop
sell_loop-IsNotShort fill [] st = ok-IsNotShort st
sell_loop-IsNotShort fill (n ∷ ns) st = elim (Bool-cases (leb_ℤ st.remaining_to_sell (pos 0))) [
  | inl done ↦ rw done (ok-IsNotShort st)
  | inr more ↦ rw more (
      >>=-IsNotShort (sell_from fill (find_lot n st.lots) st) _
        (sell_from-IsNotShort fill (find_lot n st.lots) st) (sell_loop-IsNotShort fill ns))
]

-- A sale of the quantity, or of less, from the lots of an accepted designation does not run out of
-- lots, on any later table on which these lots have lost at most the units that the customer's open
-- sales of them had left to sell when it was accepted. Sales that were not open then are not counted.
pub validate-consume_lots :
    (customer security : ℕ) (side : OrderSide) (quantity sold : Units) (ids : List ℕ) (s : Store)
    (fill : SellFill) {r : Option (List ℕ)} (committed : Units) (later : List TaxLot)
    → validate customer security side quantity (some ids) s ≡ ok r
    → total_committed ids (pos 0) (open_sell_orders customer s.orders) ≡ ok committed
    → named_units ids s.tax_lots ≤ℤ (named_units ids later +ℤ committed)
    → sold ≤ℤ quantity
    → consume_lots fill sold ids later ≢ err insufficient_lots
unfolding consume_lots
validate-consume_lots customer security side quantity sold ids s fill {r} committed later e taken
      lost less short =
    let (same, selling, some_ids, few, fresh, owned, counted, total, covered) =
      validate-ok customer security side quantity ids s e in
    let is : counted ≡ committed = ok_injective {E = Error} (sym total ∙ taken) in
    let held : (quantity +ℤ committed) ≤ℤ named_units ids s.tax_lots = rw is at covered in
    let start : SaleState = record {
      lots = later;
      remaining_to_sell = sold;
      consumed_basis_total = pos 0;
      realized_total = pos 0;
      consumptions = [];
    } in
    elim (Result-cases (sell_loop fill ids start)) [
      | inl (st, ran) ↦
          let done = sell_loop-Covers fill ids start fresh (inr (omega int_laws)) ran in
          let enough : ltb_ℤ (pos 0) st.remaining_to_sell ≡ false = ground arith in
          ok-IsNotShort st (rw (ran, enough) at short)
      | inr (x, raised) ↦
          let same_error : ◌≡◌ {A = Result Error SaleState} (err x) (err insufficient_lots) =
            rw raised at short in
          sell_loop-IsNotShort fill ids start (raised ∙ same_error)
    ]
