-- ===== src/Ledger/Balance.antt =====
-- What the ledger promises: every journal entry that is written balances, whoever writes it.
use trueup.Prelude.{
  ℕ, ◌≡◌, ◌≢◌, ◌⊎◌, inl, inr, refl, Option, none, some, List, [], ◌∷◌, All, ok_injective, >>=-eq-ok,
  ok, err, ◌==◌, if◌then◌else◌, arith,
}
use trueup.Prelude.Int.{ℤ, pos, ◌+ℤ◌, int_laws}
use trueup.Errors.{Error, unbalanced_entry}
use trueup.Money.{money, Money, Units, add, is_zero}
use trueup.Money.Precision.{make-InRange}
use trueup.Store.{Posting}
use trueup.Ledger.Entries.{PostingLeg, add_leg, total_legs, validate_legs}

abbrev pub or_zero : Option Money → ℤ
or_zero none = pos 0
or_zero (some m) = m

-- The money of one entry's postings, which the trigger `check_journal_entry_balance` sums.
unfoldable pub entry_total : ℕ → List Posting → ℤ
entry_total e [] = pos 0
entry_total e (p ∷ ps) =
    if p.journal_entry_id == e then or_zero p.amount_money +ℤ entry_total e ps else entry_total e ps

-- The exact sum of the money legs.
unfoldable pub legs_sum : List PostingLeg → ℤ
legs_sum [] = pos 0
legs_sum (l ∷ ls) = or_zero l.amount_money +ℤ legs_sum ls

abbrev pub SetsOne : PostingLeg → Type 0
SetsOne l =
    (l.amount_money ≢ none) × (l.quantity_units ≡ none)
    ⊎ (l.amount_money ≡ none) × (l.quantity_units ≢ none)

add_leg_sum :
    (m : Option Money) (u : Option Units) (t r : ℤ)
    → add_leg m u t ≡ ok r
    → (r ≡ t +ℤ or_zero m) × ((m ≢ none) × (u ≡ none) ⊎ (m ≡ none) × (u ≢ none))
unfolding add_leg add
add_leg_sum none none t r h = cc
add_leg_sum (some m) (some u) t r h = cc
add_leg_sum (some m) none t r h = ((make-InRange money (t +ℤ m) h).0, inl ((λ e. cc), refl))
add_leg_sum none (some u) t r h =
    let same : t ≡ r = ok_injective {E = Error} h in
    (rw (← same) (omega int_laws), inr (refl, λ e. cc))

total_legs_sum :
    (t : ℤ) (ls : List PostingLeg) (r : ℤ)
    → total_legs t ls ≡ ok r
    → (r ≡ t +ℤ legs_sum ls) × All SetsOne ls
unfolding total_legs legs_sum
total_legs_sum t [] r h =
    let same : t ≡ r = ok_injective {E = Error} h in (rw (← same) (omega int_laws), tt)
total_legs_sum t (l ∷ ls) r h =
    let (t', e, k) =
      >>=-eq-ok (add_leg l.amount_money l.quantity_units t) (λ t'. total_legs t' ls) h in
    let (sum, one) = add_leg_sum l.amount_money l.quantity_units t t' e in
    let (rest, ones) = total_legs_sum t' ls r k in (rw (rest, sum) (omega int_laws), (one, ones))

-- `_validate_legs` passes only a list of legs that is not empty, in which each leg sets exactly
-- one dimension and the money adds up to exactly zero.
pub validate_legs_sound :
    (ls : List PostingLeg)
    → validate_legs ls ≡ ok tt
    → (ls ≢ []) × All SetsOne ls × (legs_sum ls ≡ pos 0)
unfolding validate_legs
validate_legs_sound [] h = cc
validate_legs_sound (l ∷ ls) h =
    let (t, e, k) =
      >>=-eq-ok (total_legs (pos 0) (l ∷ ls))
        (λ t. if is_zero t then ok tt else err unbalanced_entry) h in
    let (sum, ones) = total_legs_sum (pos 0) (l ∷ ls) t e in
    let zero_total : t ≡ pos 0 = ground arith in ((λ n. cc), ones, eq_parts sum zero_total)
  where
    eq_parts : {t : ℤ} → t ≡ pos 0 +ℤ legs_sum (l ∷ ls) → t ≡ pos 0 → legs_sum (l ∷ ls) ≡ pos 0
    eq_parts e f = rw (← f, e) (omega int_laws)
