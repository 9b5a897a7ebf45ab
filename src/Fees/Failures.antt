-- ===== src/Fees/Failures.antt =====
-- One failed attempt at a charge: which rows it leaves.
use trueup.Prelude.{
  ℕ, ◌+◌, ◌-◌, ◌*◌, ◌^◌, ◌≤◌, ◌<◌, ◌≡◌, refl, ap, ◌∙◌, ◌⊎◌, false, Bool-cases, inl, inr, leb,
  leb→le, leb→lt, ltb, Option, none, some, ok, find_by-key, find_by-put_by, find_by-append, arith,
}
use trueup.Store.{Store, FeeCharge, failed, dunning, DunningState, retrying, exhausted}
use native.Mathlib.Nat.{mul-le-mul_left, pow-le-pow_right}
use trueup.Fees.Dunning.{
  end_of_time, end_of_durations, hours, add_duration, compute_backoff, DunningPolicy, start,
  record_retry_failure, fail_charge,
}
use trueup.Fees.Charges.{
  find_charge, put_charge, find_dunning, store_dunning, is_resolved, record_failure,
  apply_charge_failure,
}

-- A charge after k failures that is still retried, and one that was given up after k.
abbrev pub Retrying : DunningPolicy → ℕ → ℕ → Store → Type 0
Retrying policy n k s =
    (c : FeeCharge) × (d : DunningState) × (find_charge n s.fee_charges ≡ some c)
    × (is_resolved c.status ≡ false)
    × (find_dunning n s.dunning_states ≡ some d)
    × (d.attempt_number ≡ k)
    × (d.max_attempts ≡ policy.max_attempts)

abbrev pub GivenUp : ℕ → ℕ → Store → Type 0
GivenUp n k s =
    (c : FeeCharge) × (d : DunningState) × (find_charge n s.fee_charges ≡ some c)
    × (c.status ≡ dunning)
    × (find_dunning n s.dunning_states ≡ some d)
    × (d.status ≡ exhausted)
    × (d.attempt_number ≡ k)

-- The longest wait of the policy, from the instant on, ends before the last date does.
abbrev pub IsInTime : DunningPolicy → ℕ → Type 0
IsInTime policy now =
    now + policy.backoff_base_hours * 2 ^ (policy.max_attempts - 1) * 3600 < end_of_time

backoff_le : (base j m : ℕ) → j ≤ m → base * 2 ^ j ≤ base * 2 ^ m
backoff_le base j m h = mul-le-mul_left base (pow-le-pow_right (omega arith) h)

not_past : (a b : ℕ) → a < b → leb b a ≡ false
not_past a b h = ground arith

-- No wait before an attempt within the limit raises.
waits :
    (policy : DunningPolicy) (now j : ℕ)
    → IsInTime policy now
    → j ≤ policy.max_attempts - 1
    → let wait = policy.backoff_base_hours * 2 ^ j in
      (hours wait ≡ ok (wait * 3600)) × (add_duration now (wait * 3600) ≡ ok (now + wait * 3600))
unfolding hours add_duration
waits policy now j within h =
    let wait = policy.backoff_base_hours * 2 ^ j in
    let most = policy.backoff_base_hours * 2 ^ (policy.max_attempts - 1) in
    let least : wait ≤ most = backoff_le policy.backoff_base_hours j (policy.max_attempts - 1) h in
    let short : leb end_of_durations (wait * 3600) ≡ false =
      not_past (wait * 3600) end_of_durations (omega arith) in
    let soon : leb end_of_time (now + wait * 3600) ≡ false =
      not_past (now + wait * 3600) end_of_time (omega arith) in
    (rw short refl, rw soon refl)

module _ (policy : DunningPolicy) (now : ℕ) where
  failure-found :
      (n : ℕ) (s : Store) (c : FeeCharge)
      → find_charge n s.fee_charges ≡ some c
      → is_resolved c.status ≡ false
      → apply_charge_failure policy now n s ≡ record_failure policy now c s
  unfolding apply_charge_failure
  failure-found n s c found e = rw (found, e) refl

  -- The store after a failure that leaves the rows `c` and `d`.
  abbrev after : Store → Option DunningState → FeeCharge → DunningState → Store
  after s existing c d = record s {
    fee_charges = put_charge c s.fee_charges;
    dunning_states = store_dunning existing d s.dunning_states;
  }

  record_failure-after :
      (s : Store) (c : FeeCharge) (existing : Option DunningState) {c' : FeeCharge}
      {d' : DunningState}
      → find_dunning c.id s.dunning_states ≡ existing
      → fail_charge policy now c existing ≡ ok (c', d')
      → record_failure policy now c s ≡ ok (tt, after s existing c' d')
  unfolding record_failure
  record_failure-after s c existing row rows = rw (row, rows) refl

  pub first_failure :
      (n : ℕ) (s : Store) (c : FeeCharge)
      → IsInTime policy now
      → find_charge n s.fee_charges ≡ some c
      → is_resolved c.status ≡ false
      → find_dunning n s.dunning_states ≡ none
      → (s' : Store) × (apply_charge_failure policy now n s ≡ ok (tt, s')) × Retrying policy n 1 s'
  unfolding fail_charge start compute_backoff
  first_failure n s c within found unresolved no_row =
      let id = find_by-key (λ (c : FeeCharge). c.id) n s.fee_charges found in
      let (wait, next) = waits policy now 0 within (omega arith) in
      let c' = record c { status = failed } in
      let row : DunningState = record {
        fee_charge_id = c.id;
        customer_id = c.customer_id;
        attempt_number = 1;
        next_retry_at = now + policy.backoff_base_hours * 2 ^ 0 * 3600;
        max_attempts = policy.max_attempts;
        status = retrying;
      } in
      let missing : find_dunning c.id s.dunning_states ≡ none =
        ap (λ m. find_dunning m s.dunning_states) id ∙ no_row in
      (
        after s none c' row,
        failure-found n s c found unresolved
            ∙ record_failure-after s c none missing (rw (wait, next) refl),
        (
          c',
          row,
          find_by-put_by (λ (c : FeeCharge). c.id) n s.fee_charges c' found id,
          refl,
          find_by-append (λ (d : DunningState). d.fee_charge_id) n s.dunning_states row no_row id,
          refl,
          refl,
        ),
      )

  -- One more failure counts the attempt, and gives the charge up at the limit.
  pub retry_failure :
      (n k : ℕ) (s : Store)
      → IsInTime policy now
      → Retrying policy n k s
      → (s' : Store) × (apply_charge_failure policy now n s ≡ ok (tt, s'))
        × (((k + 1 < policy.max_attempts) × Retrying policy n (k + 1) s')
            ⊎ ((policy.max_attempts ≤ k + 1) × GivenUp n (k + 1) s'))
  unfolding fail_charge record_retry_failure compute_backoff
  retry_failure n k s within (c, d, found, unresolved, row, attempt, most) =
      let id = find_by-key (λ (c : FeeCharge). c.id) n s.fee_charges found in
      let owner = find_by-key (λ (d : DunningState). d.fee_charge_id) n s.dunning_states row in
      let there : find_dunning c.id s.dunning_states ≡ some d =
        ap (λ m. find_dunning m s.dunning_states) id ∙ row in
      elim (Bool-cases (leb d.max_attempts (d.attempt_number + 1))) [
        | inl limit ↦
            let c' = record c { status = dunning } in
            let d' = record d { attempt_number = d.attempt_number + 1; status = exhausted } in
            (
              after s (some d) c' d',
              failure-found n s c found unresolved
                  ∙ record_failure-after s c (some d) there (rw limit refl),
              inr (
                let reached = leb→le d.max_attempts (d.attempt_number + 1) limit in omega arith,
                (
                  c',
                  d',
                  find_by-put_by (λ (c : FeeCharge). c.id) n s.fee_charges c' found id,
                  refl,
                  find_by-put_by (λ (d : DunningState). d.fee_charge_id) n s.dunning_states d' row
                      owner,
                  refl,
                  omega arith,
                ),
              ),
            )
        | inr below ↦
            let wait = policy.backoff_base_hours * 2 ^ (d.attempt_number + 1 - 1) * 3600 in
            let d' = record d {
              attempt_number = d.attempt_number + 1;
              next_retry_at = now + wait;
            } in
            let first : ltb (d.attempt_number + 1) 1 ≡ false = ground arith in
            let more = leb→lt d.max_attempts (d.attempt_number + 1) below in
            let (hours_ok, at_ok) =
              waits policy now (d.attempt_number + 1 - 1) within (omega (arith, most)) in
            (
              after s (some d) c d',
              failure-found n s c found unresolved
                  ∙ record_failure-after s c (some d) there
                      (rw (below, first, hours_ok, at_ok) refl),
              inl (
                omega arith,
                (
                  c,
                  d',
                  find_by-put_by (λ (c : FeeCharge). c.id) n s.fee_charges c found id,
                  unresolved,
                  find_by-put_by (λ (d : DunningState). d.fee_charge_id) n s.dunning_states d' row
                      owner,
                  omega arith,
                  most,
                ),
              ),
            )
      ]

  pub GivenUp-failure :
      (n k : ℕ) (s : Store) → GivenUp n k s → apply_charge_failure policy now n s ≡ ok (tt, s)
  unfolding apply_charge_failure
  GivenUp-failure n k s (c, d, found, over, _, _, _) = rw (found, over) refl
