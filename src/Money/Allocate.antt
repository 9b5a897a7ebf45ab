-- ===== src/Money/Allocate.antt =====
-- `_QuantizedDecimal.allocate`: a split by integer weights with the largest-remainder method.
pub mod Lists
pub mod Sum
pub mod Exact
use trueup.Prelude.{
  ℕ, zero, suc, ◌+◌, ◌-◌, ◌*◌, ◌/◌, ◌≤◌, ◌<◌, Bool, true, false, not, List, [], ◌∷◌, map, length,
  take, any, is_empty, sum, Result, ok, err, raise_if, ◌>>=◌, ◌>>◌, leb, ◌==◌, if◌then◌else◌,
}
use trueup.Prelude.Int.{ℤ, pos, negsuc, abs, pos_part, sub_ℕ, with_sign}
use trueup.Decimal.{Magnitude, in_context, quotient, floor, fraction, le_magnitude}
use trueup.Errors.{Error, invalid_weights}
use trueup.Money.{Kind, make, is_negative}

-- `Decimal(total) * Decimal(weight) / Decimal(total_weight)`
unfoldable pub raw_share : ℕ → ℕ → ℕ → Magnitude
raw_share total total_weight weight = quotient (in_context (total * weight)) total_weight

-- `range(len(...))` zipped with the remainders.
unfoldable pub enumerate : ℕ → List Magnitude → List (ℕ × Magnitude)
enumerate i [] = []
enumerate i (m ∷ ms) = (i, m) ∷ enumerate (suc i) ms

-- Python's stable sort by the key (-remainder, index): an entry goes in front of those whose
-- remainder is no larger.
unfoldable pub insert_share : ℕ × Magnitude → List (ℕ × Magnitude) → List (ℕ × Magnitude)
insert_share x [] = x ∷ []
insert_share x (y ∷ ys) = if le_magnitude y.1 x.1 then x ∷ y ∷ ys else y ∷ insert_share x ys

unfoldable pub sort_shares : List (ℕ × Magnitude) → List (ℕ × Magnitude)
sort_shares [] = []
sort_shares (x ∷ xs) = insert_share x (sort_shares xs)

abbrev pub index_of : ℕ × Magnitude → ℕ
index_of (i, m) = i

-- `order[:n]`, where a negative n drops from the end.
unfoldable pub slice_to : ℤ → List ℕ → List ℕ
slice_to (pos n) xs = take n xs
slice_to (negsuc n) xs = take (length xs - suc n) xs

-- `final_units[i] += 1`
unfoldable pub bump : ℕ → List ℕ → List ℕ
bump i [] = []
bump zero (u ∷ us) = suc u ∷ us
bump (suc i) (u ∷ us) = u ∷ bump i us

unfoldable pub bump_all : List ℕ → List ℕ → List ℕ
bump_all [] us = us
bump_all (i ∷ is) us = bump_all is (bump i us)

-- `[type(self)(Decimal(units) * quantum * sign) for units in final_units]`
unfoldable pub make_all : Kind → ℤ → List ℕ → Result Error (List ℤ)
make_all k z [] = ok []
make_all k z (u ∷ us) = do part ← make k (with_sign z u); rest ← make_all k z us; ok (part ∷ rest)

-- The parts as counts of quanta, without the sign.
unfoldable pub shares : ℕ → List ℕ → List ℕ
shares total weights =
    let raw_shares = map (raw_share total (sum weights)) weights in
    let base_units = map floor raw_shares in
    let order = map index_of (sort_shares (enumerate 0 (map fraction raw_shares))) in
    bump_all (slice_to (sub_ℕ total (sum base_units)) order) base_units

unfoldable pub allocate : Kind → ℤ → List ℤ → Result Error (List ℤ)
allocate k z weights = do
  raise_if (is_empty weights) invalid_weights
  raise_if (any is_negative weights) invalid_weights
  raise_if (sum (map pos_part weights) == 0) invalid_weights
  make_all k z (shares (abs z) (map pos_part weights))
