-- ===== src/Lots/Totals.antt =====
-- The totals of a table of lots and of a list of consumptions, and how one row moves them.
use trueup.Prelude.{
  ℕ, ◌≡◌, inl, inr, true, false, Bool-cases, Option, some, List, [], ◌∷◌, ◌++◌, All, ◌==◌, ==→eq,
  arith,
}
use trueup.Prelude.Int.{ℤ, pos, ◌+ℤ◌, ◌≤ℤ◌, int_laws, parts_of_eq}
use trueup.Store.{TaxLot}
use trueup.Lots.Table.{find_lot, put_lot, units_held, basis_held}
use trueup.Lots.Sale.{Consumed}

unfoldable pub units_sold : List Consumed → ℤ
units_sold [] = pos 0
units_sold (c ∷ cs) = c.quantity_consumed +ℤ units_sold cs

unfoldable pub gains : List Consumed → ℤ
gains [] = pos 0
gains (c ∷ cs) = c.realized_gain_loss +ℤ gains cs

pub units_sold-append :
    (cs : List Consumed) (c : Consumed)
    → units_sold (cs ++ c ∷ []) ≡ units_sold cs +ℤ c.quantity_consumed
unfolding units_sold
units_sold-append [] c = omega int_laws
units_sold-append (x ∷ cs) c = rw (units_sold-append cs c) (omega int_laws)

pub gains-append :
    (cs : List Consumed) (c : Consumed) → gains (cs ++ c ∷ []) ≡ gains cs +ℤ c.realized_gain_loss
unfolding gains
gains-append [] c = omega int_laws
gains-append (x ∷ cs) c = rw (gains-append cs c) (omega int_laws)

pub find_lot-id : (n : ℕ) (ls : List TaxLot) {l : TaxLot} → find_lot n ls ≡ some l → l.id ≡ n
find_lot-id n [] e = cc
find_lot-id n (x ∷ ls) {l} e = elim (Bool-cases (x.id == n)) [
  | inl here ↦
      let same : ◌≡◌ {A = Option TaxLot} (some x) (some l) = rw here at e in
      let is = ==→eq x.id n here in ground arith
  | inr there ↦ find_lot-id n ls (rw there at e)
]

abbrev pub IsStocked : TaxLot → Type 0
IsStocked l = pos 0 ≤ℤ l.quantity_remaining

pub find_lot-IsStocked :
    (n : ℕ) (ls : List TaxLot) {l : TaxLot}
    → find_lot n ls ≡ some l
    → All IsStocked ls
    → (l.id ≡ n) × IsStocked l
find_lot-IsStocked n [] e h = cc
find_lot-IsStocked n (x ∷ ls) e h = elim (Bool-cases (x.id == n)) [
  | inl here ↦
      let same : ◌≡◌ {A = Option TaxLot} (some x) (some _) = rw here at e in
      let is = ==→eq x.id n here in (ground arith, ground arith)
  | inr there ↦ find_lot-IsStocked n ls (rw there at e) h.1
]

pub put_lot-IsStocked :
    (new : TaxLot) (ls : List TaxLot)
    → IsStocked new
    → All IsStocked ls
    → All IsStocked (put_lot new ls)
put_lot-IsStocked new [] k h = tt
put_lot-IsStocked new (x ∷ ls) k h = elim (Bool-cases (x.id == new.id)) [
  | inl here ↦ rw here (k, h.1)
  | inr there ↦ rw there (h.0, put_lot-IsStocked new ls k h.1)
]

shift : (x a b c d : ℤ) → a +ℤ c ≡ b +ℤ d → (x +ℤ a) +ℤ c ≡ (x +ℤ b) +ℤ d
shift x a b c d e = let p = parts_of_eq e in omega int_laws

-- A row that is put back moves the totals by what changed in it.
pub put_lot_totals :
    (n : ℕ) (ls : List TaxLot) {old : TaxLot} (new : TaxLot)
    → find_lot n ls ≡ some old
    → new.id ≡ n
    → (units_held (put_lot new ls) +ℤ old.quantity_remaining
        ≡ units_held ls +ℤ new.quantity_remaining)
      × (basis_held (put_lot new ls) +ℤ old.adjusted_basis ≡ basis_held ls +ℤ new.adjusted_basis)
unfolding units_held basis_held
put_lot_totals n [] new e k = cc
put_lot_totals n (x ∷ ls) {old} new e k = elim (Bool-cases (x.id == n)) [
  | inl here ↦
      let same : ◌≡◌ {A = Option TaxLot} (some x) (some old) = rw here at e in
      let is : x ≡ old = cc in
      let put : (x.id == new.id) ≡ true = rw k here in
      rw (put, ← is) (omega int_laws, omega int_laws)
  | inr there ↦
      let put : (x.id == new.id) ≡ false = rw k there in
      let (u, b) = put_lot_totals n ls new (rw there at e) k in
      rw put (shift x.quantity_remaining _ _ _ _ u, shift x.adjusted_basis _ _ _ _ b)
]
