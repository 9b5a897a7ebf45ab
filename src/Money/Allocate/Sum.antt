-- ===== src/Money/Allocate/Sum.antt =====
-- The parts of an allocation add up to the whole.
use native.Mathlib.Nat.{div-add-mod, mod-lt, le_of_mul-le-mul_left, mul-le-mul_left}
use trueup.Prelude.{
  ℕ, ◌+◌, ◌*◌, ◌/◌, ◌^◌, ◌≤◌, ◌<◌, ◌≡◌, ap, List, [], ◌∷◌, map, length, sum, le→leb, arith,
}
use trueup.Prelude.Int.{sub_ℕ}
use trueup.Decimal.{in_context, digits, prec, floor, fraction}
use trueup.Decimal.Digits.{digits_iff}
use trueup.Decimal.Quotient.{floor-quotient}
use trueup.Money.Allocate.{raw_share, enumerate, sort_shares, index_of, slice_to, shares}
use trueup.Money.Allocate.Lists.{
  length-map, length-bump_all, sum-bump_all, order_below, length_order, slice_to_take,
}

in_context_small : (n : ℕ) → n < 10 ^ 27 → in_context n ≡ n
unfolding in_context
in_context_small n h =
    rw (le→leb (digits n) prec (omega (arith, (digits_iff 27 n (omega arith)).1 h)))

-- Below the limit the base of a share is the exact quotient rounded down.
floor-raw_share :
    (t w total_weight : ℕ)
    → 0 < total_weight
    → t * w < 10 ^ 27
    → total_weight < 10 ^ 27
    → floor (raw_share t total_weight w) ≡ t * w / total_weight
unfolding raw_share
floor-raw_share t w total_weight h small wsmall =
    rw (in_context_small (t * w) small) (floor-quotient (t * w) total_weight h small (omega arith))

abbrev bases : ℕ → ℕ → List ℕ → List ℕ
bases t total_weight ws = map floor (map (raw_share t total_weight) ws)

term_small :
    (t w v total_weight : ℕ) → w + v ≤ total_weight → t * total_weight < 10 ^ 27 → t * w < 10 ^ 27
term_small t w v total_weight h small = omega (arith, mul-le-mul_left t h)

-- The bases miss the whole by less than one each.
bases_bounds :
    (t total_weight : ℕ) (ws : List ℕ)
    → 0 < total_weight
    → sum ws ≤ total_weight
    → t * total_weight < 10 ^ 27
    → total_weight < 10 ^ 27
    → (total_weight * sum (bases t total_weight ws) ≤ t * sum ws)
      × (t * sum ws ≤ total_weight * (sum (bases t total_weight ws) + length ws))
bases_bounds t total_weight [] h le small wsmall = omega arith
bases_bounds t total_weight (w ∷ ws) h le small wsmall = omega (
  arith,
  bases_bounds t total_weight ws h (omega arith) small wsmall,
  ap (λ (b : ℕ). total_weight * b)
      (floor-raw_share t w total_weight h (term_small t w (sum ws) total_weight le small) wsmall),
  div-add-mod (t * w) total_weight,
  mod-lt (t * w) h,
)

module _ (t : ℕ) (ws : List ℕ) (h : 0 < sum ws) (small : t * sum ws < 10 ^ 27)
    (wsmall : sum ws < 10 ^ 27) where
  bounds : (sum (bases t (sum ws) ws) ≤ t) × (t ≤ sum (bases t (sum ws) ws) + length ws)
  bounds =
      let b = bases_bounds t (sum ws) ws h (omega arith) small wsmall in
      (le_of_mul-le-mul_left (omega (arith, b.0)) h, le_of_mul-le-mul_left (omega (arith, b.1)) h)

  length-bases : length (bases t (sum ws) ws) ≡ length ws
  length-bases = omega (
    arith,
    length-map {0, 0} floor (map (raw_share t (sum ws)) ws),
    length-map {0, 0} (raw_share t (sum ws)) ws,
  )

  length_fractions : length (map fraction (map (raw_share t (sum ws)) ws)) ≡ length ws
  length_fractions = omega (
    arith,
    length-map {0, 0} fraction (map (raw_share t (sum ws)) ws),
    length-map {0, 0} (raw_share t (sum ws)) ws,
  )

  pub sum-shares : (sum (shares t ws) ≡ t) × (length (shares t ws) ≡ length ws)
  unfolding shares
  sum-shares =
      let fractions = map fraction (map (raw_share t (sum ws)) ws) in
      let order = map index_of (sort_shares (enumerate 0 fractions)) in
      let us = bases t (sum ws) ws in
      let chosen = slice_to (sub_ℕ t (sum us)) order in
      let cut =
        slice_to_take t (sum us) (length fractions) order (bounds.0)
          (omega (arith, bounds.1, length_order fractions, length_fractions))
          (order_below fractions) in
      (
        omega (
          arith,
          sum-bump_all chosen us (length fractions) (omega (arith, length-bases, length_fractions))
              cut.1,
          cut.0,
        ),
        omega (arith, length-bump_all chosen us, length-bases),
      )
