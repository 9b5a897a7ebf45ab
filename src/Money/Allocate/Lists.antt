-- ===== src/Money/Allocate/Lists.antt =====
-- The list helpers of `allocate`: lengths, sums and ranges of indices.
use trueup.Prelude.{
  ℕ, zero, suc, ◌+◌, ◌-◌, ◌≤◌, ◌<◌, ◌≡◌, refl, ap, List, [], ◌∷◌, map, length, take, sum, All,
  length-take, le→leb, inl, inr, Bool-cases, arith,
}
use trueup.Prelude.Int.{sub_ℕ}
use trueup.Decimal.{Magnitude, le_magnitude}
use trueup.Money.Allocate.{enumerate, insert_share, sort_shares, index_of, slice_to, bump, bump_all}

pub length-map {ℓ κ} :
    {A : Type ℓ} {B : Type κ} (f : A → B) (xs : List A) → length (map f xs) ≡ length xs
length-map f [] = refl
length-map f (x ∷ xs) = ap suc (length-map f xs)

pub length-bump : (i : ℕ) (us : List ℕ) → length (bump i us) ≡ length us
unfolding bump
length-bump i [] = refl
length-bump zero (u ∷ us) = refl
length-bump (suc i) (u ∷ us) = ap suc (length-bump i us)

sum-bump : (i : ℕ) (us : List ℕ) → i < length us → sum (bump i us) ≡ sum us + 1
unfolding bump
sum-bump i [] h = absurd (omega arith)
sum-bump zero (u ∷ us) h = omega arith
sum-bump (suc i) (u ∷ us) h = omega (arith, sum-bump i us (omega arith))

pub length-bump_all : (is us : List ℕ) → length (bump_all is us) ≡ length us
unfolding bump_all
length-bump_all [] us = refl
length-bump_all (i ∷ is) us = omega (arith, length-bump_all is (bump i us), length-bump i us)

-- Each index below the length adds one.
pub sum-bump_all :
    (is us : List ℕ) (n : ℕ)
    → length us ≡ n
    → All (λ i. i < n) is
    → sum (bump_all is us) ≡ sum us + length is
unfolding bump_all
sum-bump_all [] us n e h = omega arith
sum-bump_all (i ∷ is) us n e h = omega (
  arith,
  sum-bump_all is (bump i us) n (omega (arith, length-bump i us)) h.1,
  sum-bump i us (omega arith),
)

abbrev Below : ℕ → ℕ × Magnitude → Type 0
Below n x = x.0 < n

enumerate-Below :
    (i : ℕ) (ms : List Magnitude) (n : ℕ) → i + length ms ≤ n → All (Below n) (enumerate i ms)
unfolding enumerate
enumerate-Below i [] n h = tt
enumerate-Below i (m ∷ ms) n h = (omega arith, enumerate-Below (suc i) ms n (omega arith))

length-enumerate : (i : ℕ) (ms : List Magnitude) → length (enumerate i ms) ≡ length ms
unfolding enumerate
length-enumerate i [] = refl
length-enumerate i (m ∷ ms) = ap suc (length-enumerate (suc i) ms)

insert_share-Below :
    (n : ℕ) (x : ℕ × Magnitude) (ys : List (ℕ × Magnitude))
    → Below n x
    → All (Below n) ys
    → All (Below n) (insert_share x ys)
unfolding insert_share
insert_share-Below n x [] h hs = (h, tt)
insert_share-Below n x (y ∷ ys) h hs = elim (Bool-cases (le_magnitude y.1 x.1)) [
  | inl le ↦ rw le (h, hs)
  | inr gt ↦ rw gt (hs.0, insert_share-Below n x ys h hs.1)
]

length-insert_share :
    (x : ℕ × Magnitude) (ys : List (ℕ × Magnitude)) → length (insert_share x ys) ≡ suc (length ys)
unfolding insert_share
length-insert_share x [] = refl
length-insert_share x (y ∷ ys) = elim (Bool-cases (le_magnitude y.1 x.1)) [
  | inl le ↦ rw le
  | inr gt ↦ rw gt (ap suc (length-insert_share x ys))
]

sort_shares-Below :
    (n : ℕ) (xs : List (ℕ × Magnitude)) → All (Below n) xs → All (Below n) (sort_shares xs)
unfolding sort_shares
sort_shares-Below n [] h = tt
sort_shares-Below n (x ∷ xs) h =
    insert_share-Below n x (sort_shares xs) h.0 (sort_shares-Below n xs h.1)

length-sort_shares : (xs : List (ℕ × Magnitude)) → length (sort_shares xs) ≡ length xs
unfolding sort_shares
length-sort_shares [] = refl
length-sort_shares (x ∷ xs) =
    omega (arith, length-insert_share x (sort_shares xs), length-sort_shares xs)

map_index-Below :
    (n : ℕ) (xs : List (ℕ × Magnitude)) → All (Below n) xs → All (λ i. i < n) (map index_of xs)
map_index-Below n [] h = tt
map_index-Below n ((i, m) ∷ xs) h = (h.0, map_index-Below n xs h.1)

take-below : (n k : ℕ) (is : List ℕ) → All (λ i. i < n) is → All (λ i. i < n) (take k is)
take-below n zero is h = tt
take-below n (suc k) [] h = tt
take-below n (suc k) (i ∷ is) h = (h.0, take-below n k is h.1)

-- The order of the remainders holds as many indices as there are weights, all in range.
pub order_below :
    (ms : List Magnitude) → All (λ i. i < length ms) (map index_of (sort_shares (enumerate 0 ms)))
order_below ms =
    map_index-Below _ _ (sort_shares-Below _ _ (enumerate-Below 0 ms (length ms) (omega arith)))

pub length_order :
    (ms : List Magnitude) → length (map index_of (sort_shares (enumerate 0 ms))) ≡ length ms
length_order ms = omega (
  arith,
  length-map {0, 0} index_of (sort_shares (enumerate 0 ms)),
  length-sort_shares (enumerate 0 ms),
  length-enumerate 0 ms,
)

-- A slice by a difference that is not negative takes that many indices.
pub slice_to_take :
    (a b n : ℕ) (is : List ℕ)
    → b ≤ a
    → a ≤ b + length is
    → All (λ i. i < n) is
    → (length (slice_to (sub_ℕ a b) is) + b ≡ a) × All (λ i. i < n) (slice_to (sub_ℕ a b) is)
unfolding slice_to
slice_to_take a b n is h fits below =
    rw (le→leb b a h) (omega (arith, length-take (a - b) is), take-below n (a - b) is below)
