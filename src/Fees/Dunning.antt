-- ===== src/Fees/Dunning.antt =====
-- services/fees/dunning_service.py: the retries of a charge that failed. Instants are counted in
-- seconds from midnight of day 0 of the calendar of Clock.antt.
use trueup.Prelude.{
  ℕ, ◌+◌, ◌-◌, ◌*◌, ◌^◌, Option, none, some, Result, ok, err, ltb, leb, if◌then◌else◌, ◌>>=◌,
}
use trueup.Errors.{Error, attempt_number_below_one, date_out_of_range, duration_out_of_range}
use trueup.Clock.{last_date}
use trueup.Store.{FeeCharge, failed, dunning, DunningState, retrying, exhausted}

abbrev pub seconds_per_hour : ℕ
seconds_per_hour = 3600

-- The first instant that is no `datetime`, and the first duration that is no `timedelta`.
abbrev pub end_of_time : ℕ
end_of_time = (last_date + 1) * 86400

abbrev pub end_of_durations : ℕ
end_of_durations = 1000000000 * 86400

-- `timedelta(hours=...)`, in seconds, and a `datetime` that long after another.
unfoldable pub hours : ℕ → Result Error ℕ
hours n =
    if leb end_of_durations (n * seconds_per_hour)
    then err duration_out_of_range
    else ok (n * seconds_per_hour)

unfoldable pub add_duration : ℕ → ℕ → Result Error ℕ
add_duration now duration =
    if leb end_of_time (now + duration) then err date_out_of_range else ok (now + duration)

unfoldable pub compute_backoff : ℕ → ℕ → Result Error ℕ
compute_backoff attempt_number base_hours =
    if ltb attempt_number 1
    then err attempt_number_below_one
    else hours (base_hours * 2 ^ (attempt_number - 1))

-- The parameters of a `DunningService`.
pub record DunningPolicy : Type 0 where
  pub max_attempts : ℕ
  pub backoff_base_hours : ℕ

module _ (policy : DunningPolicy) (now : ℕ) where
  -- `start`: the row that it adds.
  unfoldable pub start : FeeCharge → Result Error DunningState
  start charge = do
    backoff ← compute_backoff 1 policy.backoff_base_hours
    next_retry_at ← add_duration now backoff
    ok (record {
      fee_charge_id = charge.id;
      customer_id = charge.customer_id;
      attempt_number = 1;
      next_retry_at = next_retry_at;
      max_attempts = policy.max_attempts;
      status = retrying;
    })

  -- `record_retry_failure`: both rows after it.
  unfoldable pub record_retry_failure :
      DunningState → FeeCharge → Result Error (FeeCharge × DunningState)
  record_retry_failure row charge =
      let bumped = record row { attempt_number = row.attempt_number + 1 } in
      if leb bumped.max_attempts bumped.attempt_number
      then ok (record charge { status = dunning }, record bumped { status = exhausted })
      else compute_backoff bumped.attempt_number policy.backoff_base_hours >>= λ backoff.
          add_duration now backoff >>= λ next_retry_at.
          ok (charge, record bumped { next_retry_at = next_retry_at })

  -- The rows of `apply_charge_failure`, for a charge that is neither paid nor given up.
  unfoldable pub fail_charge :
      FeeCharge → Option DunningState → Result Error (FeeCharge × DunningState)
  fail_charge charge none = do row ← start charge; ok (record charge { status = failed }, row)
  fail_charge charge (some row) = record_retry_failure row charge
