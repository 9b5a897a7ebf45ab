-- ===== src/Lots/Disallowed.antt =====
-- The wash-sale rule: how much of a loss it disallows, where that goes, and that it does so once.
use trueup.Prelude.{
  ℕ, ◌≡◌, refl, ap, inl, inr, true, false, Bool-cases, Option, none, some, List, [], ◌∷◌, Result,
  ok, err, ◌==◌, if◌then◌else◌, ok_injective, arith,
}
use trueup.Prelude.Int.{ℤ, pos, pos_part, ◌+ℤ◌, ◌≤ℤ◌, ◌<ℤ◌, abs, min_ℤ, int_laws, parts_of_eq}
use trueup.Errors.{Error}
use trueup.Money.{money, Money, make, add, absolute}
use trueup.Money.Precision.{make-InRange}
use trueup.Store.{Store, lift, modify, ◌>>=◌, ◌>>◌, TaxLot, LotConsumption}
use trueup.Lots.Table.{find_lot, put_lot, units_held, basis_held}
use trueup.Lots.Totals.{put_lot_totals}
use trueup.Lots.WashSale.{put_consumption, disallowed_loss, carry_loss}

absolute-ok : (a : Money) {r : Money} → absolute money a ≡ ok r → r ≡ pos (abs a)
unfolding absolute
absolute-ok a e = (make-InRange money (pos (abs a)) e).0

loss_left : (g x b d : ℤ) → g <ℤ pos 0 → x ≡ pos (abs g) → min_ℤ x b ≡ d → g +ℤ d ≤ℤ pos 0
loss_left g x b d loss is d_is =
    let below : pos_part g ≡ 0 = ground arith in
    let most : d ≤ℤ pos (abs g) = ground arith in omega int_laws

-- The disallowed part of a loss, for a replacement lot with a basis of at least 0, is at least 0 and
-- at most that basis, and the loss that remains is not turned into a gain.
pub disallowed_loss-bounds :
    (c : LotConsumption) (l : TaxLot) {d : Money}
    → c.realized_gain_loss <ℤ pos 0
    → pos 0 ≤ℤ l.original_cost_basis
    → disallowed_loss c l ≡ ok d
    → (pos 0 ≤ℤ d) × (d ≤ℤ l.original_cost_basis) × (c.realized_gain_loss +ℤ d ≤ℤ pos 0)
unfolding disallowed_loss
disallowed_loss-bounds c l loss basis e = bounded (absolute money c.realized_gain_loss) refl e
  where
    bounded :
        {d : Money} (r : Result Error Money)
        → absolute money c.realized_gain_loss ≡ r
        → ◌≡◌ {A = Result Error Money}
            (elim r [ ok x ↦ ok (min_ℤ x l.original_cost_basis) | err x ↦ err x ])
            (ok d)
        → (pos 0 ≤ℤ d) × (d ≤ℤ l.original_cost_basis) × (c.realized_gain_loss +ℤ d ≤ℤ pos 0)
    bounded (err x) m k = cc
    bounded {d} (ok x) m k =
        let is = absolute-ok c.realized_gain_loss m in
        let d_is : min_ℤ x l.original_cost_basis ≡ d = ok_injective {E = Error} k in
        (
          ground arith,
          ground arith,
          loss_left c.realized_gain_loss x l.original_cost_basis d loss is d_is,
        )

unfoldable pub gains_booked : List LotConsumption → ℤ
gains_booked [] = pos 0
gains_booked (c ∷ cs) = c.realized_gain_loss +ℤ gains_booked cs

abbrev pub find_consumption : ℕ → List LotConsumption → Option LotConsumption
find_consumption n [] = none
find_consumption n (c ∷ cs) = if c.id == n then some c else find_consumption n cs

put_consumption_total :
    (n : ℕ) (cs : List LotConsumption) {old : LotConsumption} (new : LotConsumption)
    → find_consumption n cs ≡ some old
    → new.id ≡ n
    → gains_booked (put_consumption new cs) +ℤ old.realized_gain_loss
      ≡ gains_booked cs +ℤ new.realized_gain_loss
unfolding gains_booked
put_consumption_total n [] new e k = cc
put_consumption_total n (x ∷ cs) {old} new e k = elim (Bool-cases (x.id == n)) [
  | inl here ↦
      let same : ◌≡◌ {A = Option LotConsumption} (some x) (some old) = rw here at e in
      let is : x ≡ old = cc in
      let put : (x.id == new.id) ≡ true = rw k here in rw (put, ← is) (omega int_laws)
  | inr there ↦
      let put : (x.id == new.id) ≡ false = rw k there in
      let u = parts_of_eq (put_consumption_total n cs new (rw there at e) k) in
      rw put (omega int_laws)
]

-- Carrying a loss over, from a lot and a consumption on file, moves exactly the disallowed amount
-- into the lots' basis and out of the booked losses, and no units.
pub carry_loss-conserves :
    (c : LotConsumption) (l : TaxLot) (d : Money) (s : Store) {s' : Store}
    → find_lot l.id s.tax_lots ≡ some l
    → find_consumption c.id s.lot_consumptions ≡ some c
    → carry_loss c l d s ≡ ok (tt, s')
    → (basis_held s'.tax_lots ≡ basis_held s.tax_lots +ℤ d)
      × (gains_booked s'.lot_consumptions ≡ gains_booked s.lot_consumptions +ℤ d)
      × (units_held s'.tax_lots ≡ units_held s.tax_lots)
      × (s'.postings ≡ s.postings)
unfolding carry_loss add
carry_loss-conserves c l d s {s'} lot row e =
    carried (add money l.adjusted_basis d) (add money c.realized_gain_loss d) refl refl e
  where
    moved : (basis gain : Money) → Store
    moved basis gain = record s {
      tax_lots = put_lot (record l { adjusted_basis = basis }) s.tax_lots;
      lot_consumptions =
          put_consumption (record c { realized_gain_loss = gain }) s.lot_consumptions;
    }

    booked :
        (basis gain : Money)
        → basis ≡ l.adjusted_basis +ℤ d
        → gain ≡ c.realized_gain_loss +ℤ d
        → (basis_held (moved basis gain).tax_lots ≡ basis_held s.tax_lots +ℤ d)
          × (gains_booked (moved basis gain).lot_consumptions
              ≡ gains_booked s.lot_consumptions +ℤ d)
          × (units_held (moved basis gain).tax_lots ≡ units_held s.tax_lots)
          × ((moved basis gain).postings ≡ s.postings)
    booked basis gain b g =
        let (u, m) =
          put_lot_totals l.id s.tax_lots (record l { adjusted_basis = basis }) lot refl in
        let v =
          put_consumption_total c.id s.lot_consumptions (record c { realized_gain_loss = gain }) row
            refl in
        let u' = parts_of_eq u in
        let m' = parts_of_eq m in
        let v' = parts_of_eq v in
        let b' = parts_of_eq b in
        let g' = parts_of_eq g in (omega int_laws, omega int_laws, omega int_laws, refl)

    carried :
        (r1 r2 : Result Error Money)
        → make money (l.adjusted_basis +ℤ d) ≡ r1
        → make money (c.realized_gain_loss +ℤ d) ≡ r2
        → (do
          basis ← lift r1
          modify (λ s. record s {
            tax_lots = put_lot (record l { adjusted_basis = basis }) s.tax_lots;
          })
          gain ← lift r2
          modify (λ s. record s {
            lot_consumptions =
                put_consumption (record c { realized_gain_loss = gain }) s.lot_consumptions;
          }))
            s
          ≡ ok (tt, s')
        → (basis_held s'.tax_lots ≡ basis_held s.tax_lots +ℤ d)
          × (gains_booked s'.lot_consumptions ≡ gains_booked s.lot_consumptions +ℤ d)
          × (units_held s'.tax_lots ≡ units_held s.tax_lots)
          × (s'.postings ≡ s.postings)
    carried (err x) r2 m1 m2 k = cc
    carried (ok b) (err x) m1 m2 k = cc
    carried (ok b) (ok g) m1 m2 k =
        let same : moved b g ≡ s' =
          ap (λ (p : Unit {0} × Store). p.1) (ok_injective {E = Error} k) in
        rw (← same) (
          booked b g (make-InRange money (l.adjusted_basis +ℤ d) m1).0
            (make-InRange money (c.realized_gain_loss +ℤ d) m2).0)
