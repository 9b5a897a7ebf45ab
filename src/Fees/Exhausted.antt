-- ===== src/Fees/Exhausted.antt =====
-- The retries of a charge come to an end.
use trueup.Prelude.{
  ℕ, ◌+◌, ◌≤◌, ◌<◌, ◌≡◌, refl, ◌∙◌, ◌⊎◌, inl, inr, false, none, some, List, [], ◌∷◌, All, length,
  ok, arith,
}
use trueup.Store.{Store, Action, pure, ◌>>◌, FeeCharge}
use trueup.Store.Keeps.{bind-at}
use trueup.Fees.Dunning.{DunningPolicy}
use trueup.Fees.Charges.{find_charge, find_dunning, is_resolved, apply_charge_failure}
use trueup.Fees.Failures.{
  Retrying, GivenUp, IsInTime, first_failure, retry_failure, GivenUp-failure,
}

-- The failures of one charge, at the instants of a list.
unfoldable pub fail_at : DunningPolicy → List ℕ → ℕ → Action (Unit {0})
fail_at policy [] n = pure tt
fail_at policy (now ∷ times) n = apply_charge_failure policy now n >> fail_at policy times n

fail_at-then :
    (policy : DunningPolicy) (now : ℕ) (times : List ℕ) (n : ℕ) (s : Store) {s1 : Store}
    → apply_charge_failure policy now n s ≡ ok (tt, s1)
    → fail_at policy (now ∷ times) n s ≡ fail_at policy times n s1
unfolding fail_at
fail_at-then policy now times n s e = bind-at (apply_charge_failure policy now n) _ s e

GivenUp-for_good :
    (policy : DunningPolicy) (times : List ℕ) (n k : ℕ) (s : Store)
    → GivenUp n k s
    → fail_at policy times n s ≡ ok (tt, s)
unfolding fail_at
GivenUp-for_good policy [] n k s over = refl
GivenUp-for_good policy (now ∷ times) n k s over =
    fail_at-then policy now times n s (GivenUp-failure policy now n k s over)
    ∙ GivenUp-for_good policy times n k s over

-- From a charge that is retried, enough failures give it up, at the limit or at the next attempt.
retries_end :
    (policy : DunningPolicy) (now : ℕ) (times : List ℕ) (n k : ℕ) (s : Store)
    → All (IsInTime policy) (now ∷ times)
    → Retrying policy n k s
    → policy.max_attempts ≤ k + length (now ∷ times)
    → (s' : Store) × (j : ℕ) × (fail_at policy (now ∷ times) n s ≡ ok (tt, s'))
      × GivenUp n j s'
      × (policy.max_attempts ≤ j)
      × ((j ≡ policy.max_attempts) ⊎ (j ≡ k + 1))
retries_end policy now [] n k s within r enough =
    let (s1, failed, next) = retry_failure policy now n k s within.0 r in
    elim next [
      | inr (reached, over) ↦ (
        s1,
        k + 1,
        fail_at-then policy now [] n s failed ∙ GivenUp-for_good policy [] n (k + 1) s1 over,
        over,
        reached,
        inr refl,
      )
      | inl (more, again) ↦ absurd (omega arith)
    ]
retries_end policy now (then ∷ times) n k s within r enough =
    let (s1, failed, next) = retry_failure policy now n k s within.0 r in
    elim next [
      | inr (reached, over) ↦ (
        s1,
        k + 1,
        fail_at-then policy now (then ∷ times) n s failed
            ∙ GivenUp-for_good policy (then ∷ times) n (k + 1) s1 over,
        over,
        reached,
        inr refl,
      )
      | inl (more, again) ↦
          let (s', j, rest, over, reached, count) =
            retries_end policy then times n (k + 1) s1 within.1 again (omega arith) in
          (
            s',
            j,
            fail_at-then policy now (then ∷ times) n s failed ∙ rest,
            over,
            reached,
            counted count more reached,
          )
    ]
  where
    counted : {j m : ℕ} → (j ≡ m) ⊎ (j ≡ k + 1 + 1) → k + 1 < m → m ≤ j → (j ≡ m) ⊎ (j ≡ k + 1)
    counted (inl e) more reached = inl e
    counted (inr e) more reached = inl (omega arith)

-- However a charge that is not resolved and has no retries on file fails, at any instants from which
-- the longest wait of the policy ends before the last date of a `datetime` does: once it
-- has failed as often as the limit says, and twice at least, every attempt has returned, and the charge
-- is given up, with as many attempts on file as the limit, or 2 if the limit is lower. Any further
-- failure changes nothing.
pub fail_at-GivenUp :
    (policy : DunningPolicy) (first second : ℕ) (times : List ℕ) (n : ℕ) (c : FeeCharge) (s : Store)
    → All (IsInTime policy) (first ∷ second ∷ times)
    → find_charge n s.fee_charges ≡ some c
    → is_resolved c.status ≡ false
    → find_dunning n s.dunning_states ≡ none
    → policy.max_attempts ≤ length (first ∷ second ∷ times)
    → (s' : Store) × (j : ℕ) × (fail_at policy (first ∷ second ∷ times) n s ≡ ok (tt, s'))
      × GivenUp n j s'
      × (policy.max_attempts ≤ j)
      × ((j ≡ policy.max_attempts) ⊎ (j ≡ 2))
      × ((later : ℕ) → apply_charge_failure policy later n s' ≡ ok (tt, s'))
fail_at-GivenUp policy first second times n c s within found unresolved no_row enough =
    let (s1, failed, retrying) =
      first_failure policy first n s c within.0 found unresolved no_row in
    let (s', j, rest, over, reached, count) =
      retries_end policy second times n 1 s1 within.1 retrying (omega arith) in
    (
      s',
      j,
      fail_at-then policy first (second ∷ times) n s failed ∙ rest,
      over,
      reached,
      count,
      λ later. GivenUp-failure policy later n j s' over,
    )
