-- ===== src/Outbox/Attempts.antt =====
-- However many workers drain the outbox, and however their steps interleave, the attempts on a row
-- stay within the limit.
use trueup.Prelude.{
  ℕ, ◌+◌, ◌>>=◌, ◌≤◌, ◌<◌, ◌≡◌, refl, ap, inl, inr, Bool, true, false, Bool-cases, Option, none,
  some, List, [], ◌∷◌, ◌++◌, any, All, ok, require, ltb, leb, ◌==◌, ok_injective, ◌&&◌, arith,
}
use trueup.Errors.{Error, row_not_claimed}
use trueup.Outbox.{
  JobOutbox, JobOutboxStatus, pending, processing, completed, dead_letter, is_pending_job,
  is_processing, enqueue, older_job, next_claimable, update_job, claim, claim_found, claim_next,
  locked_by_worker, complete_row, complete, retry_row, is_worker, delay_seconds,
  retry_or_dead_letter, record_outcome,
}

abbrev pub is_on_file : ℕ → List JobOutbox → Bool
is_on_file n rows = any (λ r. r.id == n) rows

abbrev pub id_of : Option JobOutbox → List ℕ
id_of none = []
id_of (some r) = r.id ∷ []

-- The steps that workers with one limit and the services take on the table, in any order.
-- A step names the task that it claimed; the id of a new task is fresh.
pub data Step (max : ℕ) : List JobOutbox → Option JobOutbox → List JobOutbox → Type 0 where
  enqueues :
      {rows : List JobOutbox} (id now : ℕ)
      → is_on_file id rows ≡ false
      → Step max rows none (enqueue id now rows)
  claims :
      {rows rows' : List JobOutbox} {found : Option JobOutbox} (worker now : ℕ)
      → claim_next worker now rows ≡ (found, rows')
      → Step max rows found rows'
  records :
      {rows rows' : List JobOutbox} (raised : Bool) (worker now : ℕ) (row : JobOutbox)
      → record_outcome raised worker now max row rows ≡ ok rows'
      → Step max rows none rows'

-- The tables that are reached, with the ids of the tasks in the order in which they were claimed, the
-- last first.
pub data Run (max : ℕ) : List ℕ → List JobOutbox → Type 0 where
  start : Run max [] []
  next :
      {claimed : List ℕ} {rows rows' : List JobOutbox} {found : Option JobOutbox}
      → Run max claimed rows
      → Step max rows found rows'
      → Run max (id_of found ++ claimed) rows'

abbrev pub MayRun : ℕ → JobOutboxStatus → ℕ → Type 0
MayRun max pending n = n < max
MayRun max _ n = n ≤ max

-- A row within its attempts; one that waits has an attempt left.
abbrev pub IsWithin : ℕ → JobOutbox → Type 0
IsWithin max r = MayRun max r.status r.attempts

pub MayRun-le : (max : ℕ) (s : JobOutboxStatus) (n : ℕ) → MayRun max s n → n ≤ max
MayRun-le max pending n h = omega arith
MayRun-le max processing n h = h
MayRun-le max completed n h = h
MayRun-le max dead_letter n h = h

MayRun-pending :
    (max : ℕ) (s : JobOutboxStatus) (n : ℕ) → is_pending_job s ≡ true → MayRun max s n → n < max
MayRun-pending max pending n e h = h
MayRun-pending max processing n e h = cc
MayRun-pending max completed n e h = cc
MayRun-pending max dead_letter n e h = cc

update_job-IsWithin :
    (max n : ℕ) (new : JobOutbox) (rows : List JobOutbox)
    → IsWithin max new
    → All (IsWithin max) rows
    → All (IsWithin max) (update_job n (λ _. new) rows)
update_job-IsWithin max n new [] h k = tt
update_job-IsWithin max n new (r ∷ rs) h k = elim (Bool-cases (r.id == n)) [
  | inl here ↦ rw here (h, k.1)
  | inr there ↦ rw there (k.0, update_job-IsWithin max n new rs h k.1)
]

enqueue-IsWithin :
    (max id now : ℕ) (rows : List JobOutbox)
    → 0 < max
    → All (IsWithin max) rows
    → All (IsWithin max) (enqueue id now rows)
unfolding enqueue
enqueue-IsWithin max id now [] h k = (h, tt)
enqueue-IsWithin max id now (r ∷ rs) h k = (k.0, enqueue-IsWithin max id now rs h k.1)

locked-IsWithin :
    (max n worker : ℕ) (rows : List JobOutbox) {r : JobOutbox}
    → All (IsWithin max) rows
    → locked_by_worker n worker rows ≡ some r
    → r.attempts ≤ max
unfolding locked_by_worker
locked-IsWithin max n worker [] k e = cc
locked-IsWithin max n worker (x ∷ rs) {r} k e =
    elim (Bool-cases (x.id == n && is_processing x.status && is_worker worker x.locked_by)) [
      | inl here ↦
          let same : ◌≡◌ {A = Option JobOutbox} (some x) (some r) = rw here at e in
          let is : x ≡ r = cc in rw (← is) (MayRun-le max x.status x.attempts k.0)
      | inr there ↦ locked-IsWithin max n worker rs k.1 (rw there at e)
    ]

abbrev IsClaimable : ℕ → Option JobOutbox → Type 0
IsClaimable max none = Unit
IsClaimable max (some r) = r.attempts < max

older_job-IsClaimable :
    (max : ℕ) (r : JobOutbox) (later : Option JobOutbox)
    → r.attempts < max
    → IsClaimable max later
    → IsClaimable max (some (older_job r later))
older_job-IsClaimable max r none h k = h
older_job-IsClaimable max r (some q) h k = elim (Bool-cases (ltb q.created_at r.created_at)) [
  | inl older ↦ rw older k
  | inr not_older ↦ rw not_older h
]

next-IsClaimable :
    (max now : ℕ) (rows : List JobOutbox)
    → All (IsWithin max) rows
    → IsClaimable max (next_claimable now rows)
unfolding next_claimable
next-IsClaimable max now [] k = tt
next-IsClaimable max now (r ∷ rs) k =
    elim (Bool-cases (is_pending_job r.status && leb r.next_attempt_at now)) [
      | inl ready ↦ rw ready (
          older_job-IsClaimable max r (next_claimable now rs)
            (MayRun-pending max r.status r.attempts (ground arith) k.0)
            (next-IsClaimable max now rs k.1))
      | inr waits ↦ rw waits (next-IsClaimable max now rs k.1)
    ]

claim_found-IsWithin :
    (max worker : ℕ) (found : Option JobOutbox) (rows : List JobOutbox)
    → IsClaimable max found
    → All (IsWithin max) rows
    → All (IsWithin max) (claim_found worker found rows).1
unfolding claim
claim_found-IsWithin max worker none rows h k = k
claim_found-IsWithin max worker (some r) rows h k =
    update_job-IsWithin max r.id (claim worker r) rows (omega arith) k

retry_row-IsWithin :
    (max at : ℕ) (r : JobOutbox) → r.attempts ≤ max → IsWithin max (retry_row at max r)
unfolding retry_row
retry_row-IsWithin max at r h = elim (Bool-cases (leb max r.attempts)) [
  | inl last ↦ rw last h
  | inr more ↦ let left : r.attempts < max = ground arith in rw more left
]

-- A change of the locked row.
changed-IsWithin :
    (max n worker : ℕ) (f : JobOutbox → JobOutbox) (rows : List JobOutbox) {rows' : List JobOutbox}
    → ((r : JobOutbox) → r.attempts ≤ max → IsWithin max (f r))
    → All (IsWithin max) rows
    → (require (locked_by_worker n worker rows) row_not_claimed >>= λ row.
        ok (update_job row.id (λ _. f row) rows))
      ≡ ok rows'
    → All (IsWithin max) rows'
changed-IsWithin max n worker f rows {rows'} keeps k e =
    found (locked_by_worker n worker rows) refl e
  where
    found :
        (r : Option JobOutbox)
        → locked_by_worker n worker rows ≡ r
        → (require r row_not_claimed >>= λ row. ok (update_job row.id (λ _. f row) rows)) ≡ ok rows'
        → All (IsWithin max) rows'
    found none l e = cc
    found (some r) l e = rw (← ok_injective {E = Error} e) (
        update_job-IsWithin max r.id (f r) rows (keeps r (locked-IsWithin max n worker rows k l)) k)

record_outcome-IsWithin :
    (max : ℕ) (raised : Bool) (worker now : ℕ) (row : JobOutbox) (rows : List JobOutbox)
    {rows' : List JobOutbox}
    → All (IsWithin max) rows
    → record_outcome raised worker now max row rows ≡ ok rows'
    → All (IsWithin max) rows'
unfolding record_outcome retry_or_dead_letter complete complete_row
record_outcome-IsWithin max true worker now row rows k e =
    changed-IsWithin max row.id worker (retry_row (now + delay_seconds row.attempts) max) rows
      (retry_row-IsWithin max (now + delay_seconds row.attempts)) k e
record_outcome-IsWithin max false worker now row rows k e =
    changed-IsWithin max row.id worker complete_row rows (λ r h. h) k e

-- In every table that workers with a limit of at least 1 can reach from an empty one, by any
-- interleaving of their transactions, the attempts on a row are at most the limit, and fewer if it
-- waits.
pub Run-IsWithin :
    (max : ℕ) {claimed : List ℕ} {rows : List JobOutbox}
    → 0 < max
    → Run max claimed rows
    → All (IsWithin max) rows
unfolding claim_next
Run-IsWithin max h start = tt
Run-IsWithin max h (next run (enqueues {rows} id now fresh)) =
    enqueue-IsWithin max id now rows h (Run-IsWithin max h run)
Run-IsWithin max h (next run (claims {rows} worker now e)) =
    let k = Run-IsWithin max h run in
    rw (← ap (λ (p : Option JobOutbox × List JobOutbox). p.1) e) (
      claim_found-IsWithin max worker (next_claimable now rows) rows
        (next-IsClaimable max now rows k) k)
Run-IsWithin max h (next run (records {rows} {rows'} raised worker now row e)) =
    record_outcome-IsWithin max raised worker now row rows (Run-IsWithin max h run) e
