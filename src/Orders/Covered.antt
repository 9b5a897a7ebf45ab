-- ===== src/Orders/Covered.antt =====
-- The loop of a sale over lots that are named once each, and that hold enough.
use trueup.Prelude.{
  ℕ, ◌≡◌, refl, ap, ◌⊎◌, inl, inr, true, false, Bool-cases, Option, none, some, Option-cases, List,
  [], ◌∷◌, any, ok, ◌==◌, if◌then◌else◌, >>=-eq-ok, ok_injective, arith,
}
use trueup.Prelude.Int.{ℤ, pos, ◌+ℤ◌, ◌-ℤ◌, ◌≤ℤ◌, leb_ℤ, ltb_ℤ, min_ℤ, int_laws}
use trueup.Errors.{Error}
use trueup.Store.{TaxLot}
use trueup.Lots.Table.{find_lot, put_lot}
use trueup.Lots.Sale.{SellFill, SaleState, sell_from, sell_loop, consume_lot}
use trueup.Lots.Totals.{find_lot-id}
use trueup.Lots.Rounds.{consume_lot-ok}
use trueup.Orders.Designation.{has_duplicate}

-- The units of a row that may be there.
abbrev pub units_of : Option TaxLot → ℤ
units_of none = pos 0
units_of (some l) = l.quantity_remaining

-- The units that the named rows hold.
unfoldable pub named_units : List ℕ → List TaxLot → ℤ
named_units [] lots = pos 0
named_units (n ∷ ns) lots = units_of (find_lot n lots) +ℤ named_units ns lots

find-put_lot_other :
    (n : ℕ) (new : TaxLot) (lots : List TaxLot)
    → (new.id == n) ≡ false
    → find_lot n (put_lot new lots) ≡ find_lot n lots
find-put_lot_other n new [] e = refl
find-put_lot_other n new (x ∷ lots) e = elim (Bool-cases (x.id == new.id)) [
  | inl here ↦ let other : (x.id == n) ≡ false = ground arith in rw (here, e, other) refl
  | inr there ↦
      rw there (ap (λ o. if x.id == n then some x else o) (find-put_lot_other n new lots e))
]

named_units-put_lot :
    (ns : List ℕ) (new : TaxLot) (lots : List TaxLot)
    → any (λ m. m == new.id) ns ≡ false
    → named_units ns (put_lot new lots) ≡ named_units ns lots
unfolding named_units
named_units-put_lot [] new lots e = refl
named_units-put_lot (n ∷ ns) new lots e =
    let other : (new.id == n) ≡ false = ground arith in
    let rest : any (λ m. m == new.id) ns ≡ false = ground arith in
    rw (find-put_lot_other n new lots other, named_units-put_lot ns new lots rest) refl

-- What is left to sell is not more than what the lots that are still to come hold.
abbrev pub Covers : List ℕ → SaleState → Type 0
Covers ns st = (st.remaining_to_sell ≤ℤ pos 0) ⊎ (st.remaining_to_sell ≤ℤ named_units ns st.lots)

covers_rest :
    (r u t : ℤ)
    → r ≤ℤ (u +ℤ t)
    → leb_ℤ (min_ℤ u r) (pos 0) ≡ false
    → ((r -ℤ min_ℤ u r) ≤ℤ pos 0) ⊎ ((r -ℤ min_ℤ u r) ≤ℤ t)
covers_rest r u t h k = elim (Bool-cases (ltb_ℤ r u)) [
  | inl less ↦ inl (rw less (omega int_laws))
  | inr enough ↦ inr (rw enough (omega int_laws))
]

covers_none :
    (r u t : ℤ) → r ≤ℤ (u +ℤ t) → leb_ℤ (min_ℤ u r) (pos 0) ≡ true → (r ≤ℤ pos 0) ⊎ (r ≤ℤ t)
covers_none r u t h k = elim (Bool-cases (ltb_ℤ r u)) [
  | inl less ↦ inl (let done : leb_ℤ r (pos 0) ≡ true = rw less at k in ground arith)
  | inr enough ↦
      let none_there : leb_ℤ u (pos 0) ≡ true = rw enough at k in
      let below : u ≤ℤ pos 0 = ground arith in inr (omega int_laws)
]

-- A round that takes what a lot has, or what is still wanted.
consume_lot-Covers :
    (fill : SellFill) (lot : TaxLot) (ns : List ℕ) (st : SaleState) {st' : SaleState}
    → any (λ m. m == lot.id) ns ≡ false
    → leb_ℤ (min_ℤ lot.quantity_remaining st.remaining_to_sell) (pos 0) ≡ false
    → st.remaining_to_sell ≤ℤ (lot.quantity_remaining +ℤ named_units ns st.lots)
    → consume_lot fill lot (min_ℤ lot.quantity_remaining st.remaining_to_sell) st ≡ ok st'
    → Covers ns st'
consume_lot-Covers fill lot ns st fresh some_taken h e =
    let (basis, realized, is) =
      consume_lot-ok fill lot (min_ℤ lot.quantity_remaining st.remaining_to_sell) st e in
    let kept =
      named_units-put_lot ns
        (record lot {
          quantity_remaining =
              lot.quantity_remaining -ℤ min_ℤ lot.quantity_remaining st.remaining_to_sell;
          adjusted_basis = lot.adjusted_basis -ℤ basis;
        })
        st.lots fresh in
    rw (is, kept)
      (covers_rest st.remaining_to_sell lot.quantity_remaining (named_units ns st.lots) h
        some_taken)

sell_from-Covers :
    (fill : SellFill) (n : ℕ) (ns : List ℕ) (st : SaleState) {st' : SaleState}
    → any (λ m. m == n) ns ≡ false
    → st.remaining_to_sell ≤ℤ named_units (n ∷ ns) st.lots
    → sell_from fill (find_lot n st.lots) st ≡ ok st'
    → Covers ns st'
unfolding sell_from named_units
sell_from-Covers fill n ns st {st'} fresh h e = elim (Option-cases (find_lot n st.lots)) [
  | inl missing ↦
      let same : st ≡ st' = ok_injective {E = Error} (rw missing at e) in
      let k : st.remaining_to_sell ≤ℤ (pos 0 +ℤ named_units ns st.lots) = rw missing at h in
      rw (← same) (inr (omega int_laws))
  | inr (lot, found) ↦
      let k : st.remaining_to_sell ≤ℤ (lot.quantity_remaining +ℤ named_units ns st.lots) =
        rw found at h in
      let id = find_lot-id n st.lots found in
      elim (Bool-cases (leb_ℤ (min_ℤ lot.quantity_remaining st.remaining_to_sell) (pos 0))) [
        | inl nothing ↦
            let same : st ≡ st' = ok_injective {E = Error} (rw (found, nothing) at e) in
            rw (← same) (
              covers_none st.remaining_to_sell lot.quantity_remaining (named_units ns st.lots) k
                nothing)
        | inr something ↦
            consume_lot-Covers fill lot ns st (rw id fresh) something k (rw (found, something) at e)
      ]
]

pub sell_loop-Covers :
    (fill : SellFill) (ns : List ℕ) (st : SaleState) {st' : SaleState}
    → has_duplicate ns ≡ false
    → Covers ns st
    → sell_loop fill ns st ≡ ok st'
    → st'.remaining_to_sell ≤ℤ pos 0
unfolding sell_loop has_duplicate named_units
sell_loop-Covers fill [] st fresh (inl h) e = rw (← ok_injective {E = Error} e) h
sell_loop-Covers fill [] st fresh (inr h) e = rw (← ok_injective {E = Error} e) h
sell_loop-Covers fill (n ∷ ns) st {st'} fresh h e =
    elim (Bool-cases (leb_ℤ st.remaining_to_sell (pos 0))) [
      | inl done ↦
          let same : st ≡ st' = ok_injective {E = Error} (rw done at e) in
          rw (← same) (ground arith)
      | inr more ↦
          let (st1, first, e1) =
            >>=-eq-ok (sell_from fill (find_lot n st.lots) st) _ (rw more at e) in
          sell_loop-Covers fill ns st1 (ground arith)
            (sell_from-Covers fill n ns st (ground arith) (still _ h more) first) e1
    ]
  where
    still :
        (t : ℤ)
        → (st.remaining_to_sell ≤ℤ pos 0) ⊎ (st.remaining_to_sell ≤ℤ t)
        → leb_ℤ st.remaining_to_sell (pos 0) ≡ false
        → st.remaining_to_sell ≤ℤ t
    still t (inl h) more = ground arith
    still t (inr h) more = h
