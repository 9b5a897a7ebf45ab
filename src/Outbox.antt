-- ===== src/Outbox.antt =====
-- models/ops/job_outbox.py and workers/outbox.py: durable tasks that workers claim, run and retry.
pub mod Attempts
pub mod OnFile
pub mod Claimed
use trueup.Prelude.{
  require, ℕ, suc, ◌+◌, ◌-◌, ◌^◌, Bool, true, false, ◌&&◌, Option, none, some, List, [], ◌∷◌, ◌++◌,
  Result, ok, err, ltb, leb, ◌==◌, if◌then◌else◌, ◌>>=◌,
}
use trueup.Errors.{Error, row_not_claimed}

pub data JobOutboxStatus : Type 0 where
  pending processing completed dead_letter : JobOutboxStatus

pub record JobOutbox : Type 0 where
  pub id : ℕ
  pub attempts : ℕ
  pub next_attempt_at : ℕ
  pub status : JobOutboxStatus
  pub locked_by : Option ℕ
  pub created_at : ℕ

abbrev pub is_pending_job : JobOutboxStatus → Bool
is_pending_job pending = true
is_pending_job _ = false

abbrev pub is_processing : JobOutboxStatus → Bool
is_processing processing = true
is_processing _ = false

-- `enqueue`: the insert with the column defaults.
unfoldable pub enqueue : ℕ → ℕ → List JobOutbox → List JobOutbox
enqueue id now rows =
    let row : JobOutbox = record {
      id = id;
      attempts = 0;
      next_attempt_at = now;
      status = pending;
      locked_by = none;
      created_at = now;
    } in
    rows ++ row ∷ []

abbrev pub older_job : JobOutbox → Option JobOutbox → JobOutbox
older_job r none = r
older_job r (some q) = if ltb q.created_at r.created_at then q else r

-- The row that the query of `claim_next` returns.
unfoldable pub next_claimable : ℕ → List JobOutbox → Option JobOutbox
next_claimable now [] = none
next_claimable now (r ∷ rs) =
    let later = next_claimable now rs in
    if is_pending_job r.status && leb r.next_attempt_at now then some (older_job r later) else later

-- The update of the rows with an id, which is unique.
abbrev pub update_job : ℕ → (JobOutbox → JobOutbox) → List JobOutbox → List JobOutbox
update_job n f [] = []
update_job n f (r ∷ rs) = if r.id == n then f r ∷ rs else r ∷ update_job n f rs

unfoldable pub claim : ℕ → JobOutbox → JobOutbox
claim worker r = record r {
  status = processing;
  locked_by = some worker;
  attempts = suc r.attempts;
}

abbrev pub claim_found : ℕ → Option JobOutbox → List JobOutbox → Option JobOutbox × List JobOutbox
claim_found worker none rows = (none, rows)
claim_found worker (some r) rows =
    (some (claim worker r), update_job r.id (λ _. claim worker r) rows)

unfoldable pub claim_next : ℕ → ℕ → List JobOutbox → Option JobOutbox × List JobOutbox
claim_next worker now rows = claim_found worker (next_claimable now rows) rows

abbrev pub is_worker : ℕ → Option ℕ → Bool
is_worker worker none = false
is_worker worker (some w) = w == worker

-- `_locked_by_worker`
unfoldable pub locked_by_worker : ℕ → ℕ → List JobOutbox → Option JobOutbox
locked_by_worker n worker [] = none
locked_by_worker n worker (r ∷ rs) =
    if r.id == n && is_processing r.status && is_worker worker r.locked_by
    then some r
    else locked_by_worker n worker rs

unfoldable pub complete_row : JobOutbox → JobOutbox
complete_row r = record r { status = completed; locked_by = none }

unfoldable pub complete : ℕ → ℕ → List JobOutbox → Result Error (List JobOutbox)
complete n worker rows = do
  row ← require (locked_by_worker n worker rows) row_not_claimed
  ok (update_job row.id (λ _. complete_row row) rows)

-- The change of the row in `retry_or_dead_letter`.
unfoldable pub retry_row : ℕ → ℕ → JobOutbox → JobOutbox
retry_row next_attempt_at max_attempts r =
    if leb max_attempts r.attempts
    then record r { status = dead_letter; locked_by = none }
    else record r { status = pending; locked_by = none; next_attempt_at = next_attempt_at }

unfoldable pub retry_or_dead_letter : ℕ → ℕ → ℕ → ℕ → List JobOutbox → Result Error (List JobOutbox)
retry_or_dead_letter n worker next_attempt_at max_attempts rows = do
  row ← require (locked_by_worker n worker rows) row_not_claimed
  ok (update_job row.id (λ _. retry_row next_attempt_at max_attempts row) rows)

-- The delay in seconds after a failure.
abbrev pub delay_seconds : ℕ → ℕ
delay_seconds attempts = 2 ^ (attempts - 1)

-- What follows the run of the handler in `drain_once`, on whether it raised; each part is a
-- transaction of its own, so other workers may step between the claim and this.
unfoldable pub record_outcome :
    Bool → ℕ → ℕ → ℕ → JobOutbox → List JobOutbox → Result Error (List JobOutbox)
record_outcome raised worker now max_attempts row rows =
    if raised
    then retry_or_dead_letter row.id worker (now + delay_seconds row.attempts) max_attempts rows
    else complete row.id worker rows
