-- ===== src/Lots/Multiples.antt =====
-- A count of quanta times a natural number.
use trueup.Prelude.{ℕ, suc, ◌+◌, ◌*◌, ◌≡◌, ap, arith}
use trueup.Prelude.Int.{ℤ, pos, pos_part, neg_part, ◌+ℤ◌, ◌*ℤ◌, +ℤ_parts, eq_of_parts}

pub *ℤ_parts :
    (a : ℤ) (m : ℕ)
    → pos_part (a *ℤ pos m) + neg_part a * m ≡ neg_part (a *ℤ pos m) + pos_part a * m
unfolding ◌*ℤ◌
*ℤ_parts a m = ground arith

pub *ℤ_suc : (a : ℤ) (m : ℕ) → a *ℤ pos (suc m) ≡ a +ℤ a *ℤ pos m
*ℤ_suc a m =
    eq_of_parts _ _ (omega (arith, *ℤ_parts a m, *ℤ_parts a (suc m), +ℤ_parts a (a *ℤ pos m)))

pub *ℤ_distrib : (a b : ℤ) (m : ℕ) → (a +ℤ b) *ℤ pos m ≡ a *ℤ pos m +ℤ b *ℤ pos m
*ℤ_distrib a b m =
    let scaled = ap (λ x. x * m) (+ℤ_parts a b) in
    eq_of_parts _ _ (
      omega (
        arith,
        scaled,
        *ℤ_parts a m,
        *ℤ_parts b m,
        *ℤ_parts (a +ℤ b) m,
        +ℤ_parts (a *ℤ pos m) (b *ℤ pos m),
      ))
