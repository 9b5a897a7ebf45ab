-- ===== src/Money/Allocate/Exact.antt =====
-- `allocate` as a whole: it returns, and nothing is lost or made.
use trueup.Prelude.{
  ℕ, suc, ◌+◌, ◌*◌, ◌^◌, ◌<◌, ◌≡◌, refl, ap, ◌==◌, false, List, [], ◌∷◌, map, length, any, sum, ok,
  arith,
}
use trueup.Prelude.Int.{ℤ, pos, negsuc, abs, pos_part, sum_ℤ, ◌+ℤ◌, with_sign}
use trueup.Money.{Kind, precision, is_negative}
use trueup.Money.Precision.{InRange, make_ok}
use trueup.Money.Allocate.{make_all, shares, allocate}
use trueup.Money.Allocate.Lists.{length-map}
use trueup.Money.Allocate.Sum.{sum-shares}

abs-with_sign : (z : ℤ) (u : ℕ) → abs (with_sign z u) ≡ u
abs-with_sign (pos n) u = omega arith
abs-with_sign (negsuc n) u = ground arith

with_sign-abs : (z : ℤ) → with_sign z (abs z) ≡ z
with_sign-abs (pos n) = ground arith
with_sign-abs (negsuc n) = ground arith

with_sign-add : (z : ℤ) (u v : ℕ) → with_sign z (u + v) ≡ with_sign z u +ℤ with_sign z v
unfolding ◌+ℤ◌
with_sign-add (pos n) u v = ground arith
with_sign-add (negsuc n) u v = ground arith

with_sign-zero : (z : ℤ) → with_sign z 0 ≡ pos 0
with_sign-zero (pos n) = refl
with_sign-zero (negsuc n) = refl

-- Parts that together fit the precision are all accepted, and keep their sum.
make_all_ok :
    (k : Kind) (z : ℤ) (us : List ℕ)
    → sum us < 10 ^ precision k
    → (parts : List ℤ) × (make_all k z us ≡ ok parts)
      × (sum_ℤ parts ≡ with_sign z (sum us))
      × (length parts ≡ length us)
unfolding make_all sum_ℤ
make_all_ok k z [] h = ([], refl, rw (with_sign-zero z), refl)
make_all_ok k z (u ∷ us) h =
    let (rest, made, total, count) = make_all_ok k z us (omega arith) in
    (
      with_sign z u ∷ rest,
      rw (make_ok k (with_sign z u) (rw (abs-with_sign z u) (omega arith))) (rw made),
      rw (total, with_sign-add z u (sum us)),
      ap suc count,
    )

-- For a value that fits its column, weights that are not negative and not all 0, and quanta times
-- total weight below 10^27: `allocate` returns one part for each weight, and the parts add up to
-- the value exactly.
pub allocate_exact :
    (k : Kind) (z : ℤ) (weights : List ℤ)
    → InRange k z
    → any is_negative weights ≡ false
    → 0 < sum (map pos_part weights)
    → abs z * sum (map pos_part weights) < 10 ^ 27
    → sum (map pos_part weights) < 10 ^ 27
    → (parts : List ℤ) × (allocate k z weights ≡ ok parts)
      × (sum_ℤ parts ≡ z)
      × (length parts ≡ length weights)
unfolding allocate
allocate_exact k z [] fits nonneg h small wsmall = absurd (omega arith)
allocate_exact k z (w ∷ ws) fits nonneg h small wsmall =
    let ns = map pos_part (w ∷ ws) in
    let (total, count) = sum-shares (abs z) ns h small wsmall in
    let (parts, made, added, made_count) = make_all_ok k z (shares (abs z) ns) (rw total fits) in
    (
      parts,
      rw nonneg (rw (positive (sum ns) h) made),
      rw (added, total, with_sign-abs z),
      omega (arith, made_count, count, length-map {0, 0} pos_part (w ∷ ws)),
    )
  where
    positive : (n : ℕ) → 0 < n → (n == 0) ≡ false
    positive n p = ground arith
