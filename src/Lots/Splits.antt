-- ===== src/Lots/Splits.antt =====
-- services/lots/corporate_action_service.py: what a split makes of a customer's lots, and that a split
-- by an integer ratio books what it adds.
use trueup.Prelude.{
  ℕ, suc, ◌-◌, ◌^◌, ◌≤◌, Bool, leb, ◌≡◌, refl, ap, sym, ◌∙◌, inl, inr, Bool-cases, List, [], ◌∷◌,
  Result, ok, if◌then◌else◌, ◌>>=◌, >>=-eq-ok, ok_injective, arith,
}
use trueup.Prelude.Int.{ℤ, pos, ◌+ℤ◌, ◌*ℤ◌, leb_ℤ, int_laws, parts_of_eq}
use trueup.Errors.{Error}
use trueup.Money.{units, Units, add, times, make}
use trueup.Decimal.Signed.{SignedDecimal, one, of_quanta, minus, product, quantize_to}
use trueup.Money.Precision.{make-InRange}
use trueup.Store.{TaxLot}
use trueup.Lots.Table.{is_open_lot, lock_open_for_security, total_remaining, units_held, basis_held}
use trueup.Lots.Multiples.{*ℤ_parts, *ℤ_suc, *ℤ_distrib}

-- `int | Decimal`
pub data SplitRatio : Type 0 where
  whole : ℕ → SplitRatio
  fraction : SignedDecimal → SplitRatio

-- `Units * ratio`
unfoldable pub by_ratio : Units → SplitRatio → Result Error Units
by_ratio u (whole n) = times units u (pos n)
by_ratio u (fraction d) = do quanta ← quantize_to 6 (product (of_quanta u 6) d); make units quanta

-- `ratio - 1`, for a ratio of at least 1
abbrev pub less_one : SplitRatio → SplitRatio
less_one (whole n) = whole (n - 1)
less_one (fraction d) = fraction (minus d one)

-- `ratio <= 1`
abbrev pub at_most_one : SplitRatio → Bool
at_most_one (whole n) = leb n 1
at_most_one (fraction d) = leb_ℤ d.value (pos (10 ^ d.scale))

-- The change of one row by a split.
unfoldable pub split_lot : SplitRatio → TaxLot → Result Error TaxLot
split_lot ratio l = do
  opened ← by_ratio l.quantity_opened ratio
  remaining ← by_ratio l.quantity_remaining ratio
  ok (record l { quantity_opened = opened; quantity_remaining = remaining })

-- The loop over the open lots, in the table.
unfoldable pub split_lots : ℕ → ℕ → SplitRatio → List TaxLot → Result Error (List TaxLot)
split_lots customer security ratio [] = ok []
split_lots customer security ratio (l ∷ ls) = do
  l' ← if is_open_lot customer security l then split_lot ratio l else ok l
  rest ← split_lots customer security ratio ls
  ok (l' ∷ rest)

-- The lots after a split, and the units that it adds.
unfoldable pub split_holding : ℕ → ℕ → SplitRatio → List TaxLot → Result Error (List TaxLot × Units)
split_holding customer security ratio lots = do
  prior_total ← total_remaining (pos 0) (lock_open_for_security customer security lots)
  lots' ← split_lots customer security ratio lots
  added_units ← by_ratio prior_total (less_one ratio)
  ok (lots', added_units)

-- The units of the open lots of a holding.
unfoldable pub open_units : ℕ → ℕ → List TaxLot → ℤ
open_units customer security [] = pos 0
open_units customer security (l ∷ ls) =
    if is_open_lot customer security l
    then l.quantity_remaining +ℤ open_units customer security ls
    else open_units customer security ls

total_remaining-open :
    (customer security : ℕ) (lots : List TaxLot) (total : Units) {sum : Units}
    → total_remaining total (lock_open_for_security customer security lots) ≡ ok sum
    → sum ≡ total +ℤ open_units customer security lots
unfolding lock_open_for_security total_remaining open_units add
total_remaining-open customer security [] total e =
    rw (← ok_injective {E = Error} e) (omega int_laws)
total_remaining-open customer security (l ∷ ls) total {sum} e =
    elim (Bool-cases (is_open_lot customer security l)) [
      | inl here ↦
          let (total', added, e1) =
            >>=-eq-ok (add units total l.quantity_remaining) _ (rw here at e) in
          let is = (make-InRange units _ added).0 in
          let ih = total_remaining-open customer security ls total' e1 in
          rw (here, ih, is) (omega int_laws)
      | inr there ↦ rw there (total_remaining-open customer security ls total (rw there at e))
    ]

split_lot-ok :
    (ratio : ℕ) (l : TaxLot) {l' : TaxLot}
    → split_lot (whole ratio) l ≡ ok l'
    → (l'.quantity_remaining ≡ l.quantity_remaining *ℤ pos ratio)
      × (l'.adjusted_basis ≡ l.adjusted_basis)
unfolding split_lot by_ratio times
split_lot-ok ratio l e =
    let (opened, m1, e1) = >>=-eq-ok (times units l.quantity_opened (pos ratio)) _ e in
    let (remaining, m2, e2) = >>=-eq-ok (times units l.quantity_remaining (pos ratio)) _ e1 in
    let is = ok_injective {E = Error} e2 in
    (
      ap (λ (l : TaxLot). l.quantity_remaining) (sym is) ∙ (make-InRange units _ m2).0,
      ap (λ (l : TaxLot). l.adjusted_basis) (sym is),
    )

no_units : (m : ℕ) → pos 0 ≡ pos 0 +ℤ pos 0 *ℤ pos m
no_units m = omega (int_laws, *ℤ_parts (pos 0) m)

split_lots-totals :
    (customer security m : ℕ) (lots : List TaxLot) {lots' : List TaxLot}
    → split_lots customer security (whole (suc m)) lots ≡ ok lots'
    → (units_held lots' ≡ units_held lots +ℤ open_units customer security lots *ℤ pos m)
      × (basis_held lots' ≡ basis_held lots)
unfolding split_lots units_held basis_held open_units
split_lots-totals customer security m [] e =
    let is = ok_injective {E = Error} e in rw (← is) (no_units m, refl)
split_lots-totals customer security m (l ∷ ls) {lots'} e =
    elim (Bool-cases (is_open_lot customer security l)) [
      | inl here ↦
          let (l', changed, e1) = >>=-eq-ok (split_lot (whole (suc m)) l) _ (rw here at e) in
          let (rest, others, e2) =
            >>=-eq-ok (split_lots customer security (whole (suc m)) ls) _ e1 in
          let is : l' ∷ rest ≡ lots' = ok_injective {E = Error} e2 in
          let (u, b) = split_lots-totals customer security m ls others in
          let (r, k) = split_lot-ok (suc m) l changed in
          rw
            (
              here,
              ← is,
              u,
              b,
              r,
              k,
              *ℤ_suc l.quantity_remaining m,
              *ℤ_distrib l.quantity_remaining (open_units customer security ls) m,
            )
            (omega int_laws, refl)
      | inr there ↦
          let (rest, others, e2) =
            >>=-eq-ok (split_lots customer security (whole (suc m)) ls) _ (rw there at e) in
          let is : l ∷ rest ≡ lots' = ok_injective {E = Error} e2 in
          let (u, b) = split_lots-totals customer security m ls others in
          rw (there, ← is, u, b) (omega int_laws, refl)
    ]

-- A split by an integer ratio of at least 1 adds to the lots exactly the units that its entry books,
-- and neither adds nor takes basis.
pub split_holding-conserves :
    (customer security ratio : ℕ) (lots : List TaxLot) {lots' : List TaxLot} {added : Units}
    → 1 ≤ ratio
    → split_holding customer security (whole ratio) lots ≡ ok (lots', added)
    → (units_held lots' ≡ units_held lots +ℤ added)
      × (added ≡ open_units customer security lots *ℤ pos (ratio - 1))
      × (basis_held lots' ≡ basis_held lots)
unfolding split_holding by_ratio times
split_holding-conserves customer security ratio lots {lots'} {added} least e =
    let (prior, summed, e1) =
      >>=-eq-ok (total_remaining (pos 0) (lock_open_for_security customer security lots)) _ e in
    let (rows, splits, e2) = >>=-eq-ok (split_lots customer security (whole ratio) lots) _ e1 in
    let (more, product, e3) = >>=-eq-ok (times units prior (pos (ratio - 1))) _ e2 in
    let end = ok_injective {E = Error} e3 in
    let one_more : ratio ≡ suc (ratio - 1) = omega arith in
    let total = total_remaining-open customer security lots (pos 0) summed in
    let all_units : prior ≡ open_units customer security lots =
      let p = parts_of_eq total in omega int_laws in
    let counted = (make-InRange units _ product).0 in
    let (u, b) =
      split_lots-totals customer security (ratio - 1) lots
        (ap (λ (r : ℕ). split_lots customer security (whole r) lots) (sym one_more) ∙ splits) in
    let same_rows : lots' ≡ rows = sym (ap (λ (p : List TaxLot × Units). p.0) end) in
    let is : added ≡ open_units customer security lots *ℤ pos (ratio - 1) =
      sym (ap (λ (p : List TaxLot × Units). p.1) end)
      ∙ (counted ∙ ap (λ z. z *ℤ pos (ratio - 1)) all_units) in
    (
      ap units_held same_rows ∙ (u ∙ ap (λ z. units_held lots +ℤ z) (sym is)),
      is,
      ap basis_held same_rows ∙ b,
    )
