-- ===== src/Outbox/Claimed.antt =====
-- However many workers drain the outbox, and however their steps interleave, no task is claimed more
-- often than the limit allows.
use trueup.Prelude.{
  ℕ, suc, ◌+◌, ◌>>=◌, ◌≤◌, ◌<◌, ◌≡◌, refl, ap, sym, ◌∙◌, inl, inr, Bool, true, false, Bool-cases,
  Option, none, some, List, [], ◌∷◌, ◌++◌, All, length, filter, ok, require, leb, ◌==◌, ==→eq,
  ok_injective, arith,
}
use trueup.Errors.{Error, row_not_claimed}
use trueup.Outbox.{
  JobOutbox, next_claimable, update_job, claim, claim_found, claim_next, locked_by_worker,
  complete_row, complete, retry_row, delay_seconds, retry_or_dead_letter, record_outcome,
}
use trueup.Outbox.Attempts.{
  id_of, enqueues, claims, records, Run, start, next, IsWithin, MayRun-le, Run-IsWithin,
}
use trueup.Outbox.OnFile.{
  attempts_of, HaveUniqueIds, IsOnFile, MayBeOnFile, next-IsOnFile, locked-IsOnFile,
  update_job-HaveUniqueIds, update_job-attempts, enqueue-HaveUniqueIds, enqueue-attempts,
}

-- How often a task was claimed.
abbrev pub times_claimed : ℕ → List ℕ → ℕ
times_claimed n claimed = length (filter (λ m. m == n) claimed)

-- Ids are unique, and the attempts on file are the claims.
record IsCounted (claimed : List ℕ) (rows : List JobOutbox) : Type 0 where
  unique : HaveUniqueIds rows
  count : (n : ℕ) → times_claimed n claimed ≡ attempts_of n rows

claim_counted :
    (worker n : ℕ) (r : JobOutbox) (claimed : List ℕ) (rows : List JobOutbox)
    → IsOnFile r rows
    → times_claimed n claimed ≡ attempts_of n rows
    → times_claimed n (r.id ∷ claimed) ≡ attempts_of n (update_job r.id (λ _. claim worker r) rows)
unfolding claim
claim_counted worker n r claimed rows h e =
    let written = update_job-attempts n r.id (claim worker r) rows refl h.there in
    elim (Bool-cases (r.id == n)) [
      | inl own ↦
          let is = ==→eq r.id n own in
          let before : attempts_of n rows ≡ r.attempts = rw is at h.counted in
          rw (written, own) (ap suc (e ∙ before))
      | inr other ↦ rw (written, other) e
    ]

claim_found-IsCounted :
    (worker : ℕ) (found : Option JobOutbox) (claimed : List ℕ) (rows : List JobOutbox)
    → MayBeOnFile found rows
    → IsCounted claimed rows
    → IsCounted
        (id_of (claim_found worker found rows).0 ++ claimed)
        (claim_found worker found rows).1
unfolding claim
claim_found-IsCounted worker none claimed rows h k = k
claim_found-IsCounted worker (some r) claimed rows h k = record {
  unique = update_job-HaveUniqueIds r.id (claim worker r) rows refl k.unique;
  count = λ n. claim_counted worker n r claimed rows h (k.count n);
}

-- A write that leaves the id and the attempts of the row.
written-IsCounted :
    (r new : JobOutbox) (claimed : List ℕ) (rows : List JobOutbox)
    → new.id ≡ r.id
    → new.attempts ≡ r.attempts
    → IsOnFile r rows
    → IsCounted claimed rows
    → IsCounted claimed (update_job r.id (λ _. new) rows)
written-IsCounted r new claimed rows id attempts h k = record {
  unique = update_job-HaveUniqueIds r.id new rows id k.unique;
  count = λ n.
      let written = update_job-attempts n r.id new rows id h.there in
      elim (Bool-cases (r.id == n)) [
        | inl own ↦
            let is = ==→eq r.id n own in
            let before : attempts_of n rows ≡ r.attempts = rw is at h.counted in
            k.count n ∙ before ∙ sym (rw own at written ∙ attempts)
        | inr other ↦ k.count n ∙ sym (rw other at written)
      ];
}

changed-IsCounted :
    (n worker : ℕ) (f : JobOutbox → JobOutbox) (claimed : List ℕ) (rows : List JobOutbox)
    {rows' : List JobOutbox}
    → ((r : JobOutbox) → ((f r).id ≡ r.id) × ((f r).attempts ≡ r.attempts))
    → IsCounted claimed rows
    → (require (locked_by_worker n worker rows) row_not_claimed >>= λ row.
        ok (update_job row.id (λ _. f row) rows))
      ≡ ok rows'
    → IsCounted claimed rows'
changed-IsCounted n worker f claimed rows {rows'} keeps k e =
    found (locked_by_worker n worker rows) (locked-IsOnFile n worker rows k.unique) e
  where
    found :
        (r : Option JobOutbox)
        → MayBeOnFile r rows
        → (require r row_not_claimed >>= λ row. ok (update_job row.id (λ _. f row) rows)) ≡ ok rows'
        → IsCounted claimed rows'
    found none h e = cc
    found (some r) h e =
        let (id, attempts) = keeps r in
        rw (← ok_injective {E = Error} e) (written-IsCounted r (f r) claimed rows id attempts h k)

record_outcome-IsCounted :
    (max : ℕ) (raised : Bool) (worker now : ℕ) (row : JobOutbox) (claimed : List ℕ)
    (rows : List JobOutbox) {rows' : List JobOutbox}
    → IsCounted claimed rows
    → record_outcome raised worker now max row rows ≡ ok rows'
    → IsCounted claimed rows'
unfolding record_outcome retry_or_dead_letter complete complete_row retry_row
record_outcome-IsCounted max true worker now row claimed rows k e =
    changed-IsCounted row.id worker (retry_row (now + delay_seconds row.attempts) max) claimed rows
      (λ r. elim (Bool-cases (leb max r.attempts)) [
        | inl last ↦ rw last (refl, refl)
        | inr more ↦ rw more (refl, refl)
      ])
      k e
record_outcome-IsCounted max false worker now row claimed rows k e =
    changed-IsCounted row.id worker complete_row claimed rows (λ r. (refl, refl)) k e

Run-IsCounted :
    (max : ℕ) {claimed : List ℕ} {rows : List JobOutbox}
    → Run max claimed rows
    → IsCounted claimed rows
unfolding claim_next attempts_of
Run-IsCounted max start = record { unique = tt; count = λ n. refl }
Run-IsCounted max (next {claimed} run (enqueues {rows} id now fresh)) =
    let k = Run-IsCounted max run in
    record {
      unique = enqueue-HaveUniqueIds id now rows fresh k.unique;
      count = λ n. k.count n ∙ sym (enqueue-attempts n id now rows);
    }
Run-IsCounted max (next {claimed} run (claims {rows} {rows'} {found} worker now e)) =
    let k = Run-IsCounted max run in
    let h = next-IsOnFile now rows k.unique in
    let c = claim_found-IsCounted worker (next_claimable now rows) claimed rows h k in
    rw
      (
        ← ap (λ (p : Option JobOutbox × List JobOutbox). p.0) e,
        ← ap (λ (p : Option JobOutbox × List JobOutbox). p.1) e,
      )
      c
Run-IsCounted max (next {claimed} run (records {rows} {rows'} raised worker now row e)) =
    record_outcome-IsCounted max raised worker now row claimed rows (Run-IsCounted max run) e

attempts_of-le :
    (max n : ℕ) (rows : List JobOutbox) → All (IsWithin max) rows → attempts_of n rows ≤ max
unfolding attempts_of
attempts_of-le max n [] h = omega arith
attempts_of-le max n (r ∷ rs) h = elim (Bool-cases (r.id == n)) [
  | inl own ↦ rw own (MayRun-le max r.status r.attempts h.0)
  | inr other ↦ rw other (attempts_of-le max n rs h.1)
]

-- In every run of workers with a limit of at least 1 from an empty table, by any interleaving of their
-- transactions, each task was claimed at most as often as the limit says.
pub Run-claims :
    (max n : ℕ) {claimed : List ℕ} {rows : List JobOutbox}
    → 0 < max
    → Run max claimed rows
    → times_claimed n claimed ≤ max
Run-claims max n {claimed} {rows} h run =
    let counted = (Run-IsCounted max run).count n in
    let most = attempts_of-le max n rows (Run-IsWithin max h run) in omega (arith, counted)
