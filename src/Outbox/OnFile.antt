-- ===== src/Outbox/OnFile.antt =====
-- The rows of the outbox by their ids: what its operations find, and what they leave of the attempts.
use trueup.Prelude.{
  ℕ, ◌≡◌, refl, sym, ◌∙◌, inl, inr, Bool, true, false, Bool-cases, Option, none, some, List, [],
  ◌∷◌, ltb, leb, ◌==◌, ==→eq, if◌then◌else◌, ◌&&◌, ◌||◌, arith,
}
use trueup.Outbox.{
  JobOutbox, is_pending_job, is_processing, is_worker, enqueue, older_job, next_claimable,
  update_job, locked_by_worker,
}
use trueup.Outbox.Attempts.{is_on_file}

-- The attempts on the first row with an id.
unfoldable pub attempts_of : ℕ → List JobOutbox → ℕ
attempts_of n [] = 0
attempts_of n (r ∷ rs) = if r.id == n then r.attempts else attempts_of n rs

abbrev pub HaveUniqueIds : List JobOutbox → Type 0
HaveUniqueIds [] = Unit
HaveUniqueIds (r ∷ rs) = (is_on_file r.id rs ≡ false) × HaveUniqueIds rs

-- The row is the one with its id.
pub record IsOnFile (r : JobOutbox) (rows : List JobOutbox) : Type 0 where
  pub there : is_on_file r.id rows ≡ true
  pub counted : attempts_of r.id rows ≡ r.attempts

IsOnFile-here : (r : JobOutbox) (rs : List JobOutbox) → IsOnFile r (r ∷ rs)
unfolding attempts_of
IsOnFile-here r rs =
    let same : (r.id == r.id) ≡ true = ground arith in
    record { there = rw same refl; counted = rw same refl }

IsOnFile-later :
    (r x : JobOutbox) (rs : List JobOutbox)
    → is_on_file x.id rs ≡ false
    → IsOnFile r rs
    → IsOnFile r (x ∷ rs)
unfolding attempts_of
IsOnFile-later r x rs fresh h = elim (Bool-cases (x.id == r.id)) [
  | inl same ↦
      let is = ==→eq x.id r.id same in
      let no : ◌≡◌ {A = Bool} true false = sym h.there ∙ (rw is at fresh) in cc
  | inr other ↦ record { there = rw other h.there; counted = rw other h.counted }
]

abbrev pub MayBeOnFile : Option JobOutbox → List JobOutbox → Type 0
MayBeOnFile none rows = Unit
MayBeOnFile (some r) rows = IsOnFile r rows

MayBeOnFile-later :
    (found : Option JobOutbox) (x : JobOutbox) (rs : List JobOutbox)
    → is_on_file x.id rs ≡ false
    → MayBeOnFile found rs
    → MayBeOnFile found (x ∷ rs)
MayBeOnFile-later none x rs fresh h = tt
MayBeOnFile-later (some r) x rs fresh h = IsOnFile-later r x rs fresh h

older_job-IsOnFile :
    (x : JobOutbox) (later : Option JobOutbox) (rows : List JobOutbox)
    → IsOnFile x rows
    → MayBeOnFile later rows
    → IsOnFile (older_job x later) rows
older_job-IsOnFile x none rows h k = h
older_job-IsOnFile x (some q) rows h k = elim (Bool-cases (ltb q.created_at x.created_at)) [
  | inl older ↦ rw older k
  | inr not_older ↦ rw not_older h
]

pub next-IsOnFile :
    (now : ℕ) (rows : List JobOutbox)
    → HaveUniqueIds rows
    → MayBeOnFile (next_claimable now rows) rows
unfolding next_claimable
next-IsOnFile now [] u = tt
next-IsOnFile now (x ∷ xs) u =
    let later = next_claimable now xs in
    let h = MayBeOnFile-later later x xs u.0 (next-IsOnFile now xs u.1) in
    elim (Bool-cases (is_pending_job x.status && leb x.next_attempt_at now)) [
      | inl ready ↦ rw ready (older_job-IsOnFile x later (x ∷ xs) (IsOnFile-here x xs) h)
      | inr waits ↦ rw waits h
    ]

pub locked-IsOnFile :
    (n worker : ℕ) (rows : List JobOutbox)
    → HaveUniqueIds rows
    → MayBeOnFile (locked_by_worker n worker rows) rows
unfolding locked_by_worker
locked-IsOnFile n worker [] u = tt
locked-IsOnFile n worker (x ∷ xs) u =
    elim (Bool-cases (x.id == n && is_processing x.status && is_worker worker x.locked_by)) [
      | inl here ↦ rw here (IsOnFile-here x xs)
      | inr there ↦ rw there (
          MayBeOnFile-later (locked_by_worker n worker xs) x xs u.0
            (locked-IsOnFile n worker xs u.1))
    ]

-- A row that is written under its own id.
update_job-is_on_file :
    (m n : ℕ) (new : JobOutbox) (rows : List JobOutbox)
    → new.id ≡ n
    → is_on_file m (update_job n (λ _. new) rows) ≡ is_on_file m rows
update_job-is_on_file m n new [] e = refl
update_job-is_on_file m n new (x ∷ xs) e = elim (Bool-cases (x.id == n)) [
  | inl here ↦ let is = ==→eq x.id n here in rw (here, e, is) refl
  | inr there ↦ rw (there, update_job-is_on_file m n new xs e) refl
]

pub update_job-HaveUniqueIds :
    (n : ℕ) (new : JobOutbox) (rows : List JobOutbox)
    → new.id ≡ n
    → HaveUniqueIds rows
    → HaveUniqueIds (update_job n (λ _. new) rows)
update_job-HaveUniqueIds n new [] e u = tt
update_job-HaveUniqueIds n new (x ∷ xs) e u = elim (Bool-cases (x.id == n)) [
  | inl here ↦ let is = ==→eq x.id n here in rw (here, e, ← is) u
  | inr there ↦
      rw there
        (update_job-is_on_file x.id n new xs e ∙ u.0, update_job-HaveUniqueIds n new xs e u.1)
]

pub update_job-attempts :
    (m n : ℕ) (new : JobOutbox) (rows : List JobOutbox)
    → new.id ≡ n
    → is_on_file n rows ≡ true
    → attempts_of m (update_job n (λ _. new) rows)
      ≡ (if n == m then new.attempts else attempts_of m rows)
unfolding attempts_of
update_job-attempts m n new [] e there = cc
update_job-attempts m n new (x ∷ xs) e there = elim (Bool-cases (x.id == n)) [
  | inl here ↦
      let is = ==→eq x.id n here in
      elim (Bool-cases (n == m)) [
        | inl own ↦ rw (here, e, own) refl
        | inr of_other ↦ rw (here, e, is, of_other) refl
      ]
  | inr other ↦
      let ih = update_job-attempts m n new xs e (rw other at there) in
      elim (Bool-cases (x.id == m)) [
        | inl own ↦ let of_other : (n == m) ≡ false = ground arith in rw (other, own, of_other) refl
        | inr not_own ↦ rw (other, not_own) ih
      ]
]

enqueue-is_on_file :
    (m id now : ℕ) (rows : List JobOutbox)
    → is_on_file m (enqueue id now rows) ≡ (is_on_file m rows || id == m)
unfolding enqueue
enqueue-is_on_file m id now [] = ground arith
enqueue-is_on_file m id now (x ∷ xs) = elim (Bool-cases (x.id == m)) [
  | inl here ↦ rw here refl
  | inr there ↦ rw there (enqueue-is_on_file m id now xs)
]

pub enqueue-HaveUniqueIds :
    (id now : ℕ) (rows : List JobOutbox)
    → is_on_file id rows ≡ false
    → HaveUniqueIds rows
    → HaveUniqueIds (enqueue id now rows)
unfolding enqueue
enqueue-HaveUniqueIds id now [] fresh u = (refl, tt)
enqueue-HaveUniqueIds id now (x ∷ xs) fresh u =
    let other : (x.id == id) ≡ false = ground arith in
    let apart : (id == x.id) ≡ false = ground arith in
    (
      enqueue-is_on_file x.id id now xs ∙ rw (u.0, apart) refl,
      enqueue-HaveUniqueIds id now xs (rw other at fresh) u.1,
    )

pub enqueue-attempts :
    (m id now : ℕ) (rows : List JobOutbox)
    → attempts_of m (enqueue id now rows) ≡ attempts_of m rows
unfolding enqueue attempts_of
enqueue-attempts m id now [] = ground arith
enqueue-attempts m id now (x ∷ xs) = elim (Bool-cases (x.id == m)) [
  | inl here ↦ rw here refl
  | inr there ↦ rw there (enqueue-attempts m id now xs)
]
