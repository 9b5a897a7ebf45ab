-- ===== src/Ledger/Written.antt =====
-- Every operation that writes journal entries keeps the ledger balanced.
use trueup.Prelude.{
  ℕ, suc, ◌≤◌, ◌<◌, ◌≡◌, ◌≢◌, inl, inr, refl, Bool, not, true, false, Option, none, some, List, [],
  ◌∷◌, ◌++◌, All, Bool-cases, Result, ok, err, ◌==◌, if◌then◌else◌, arith,
}
use native.Mathlib.Decide.{ℕ_discrete}
use trueup.Prelude.Int.{ℤ, pos, ◌+ℤ◌, +ℤ_assoc, int_laws}
use trueup.Errors.{Error, dimension_mismatch}
use trueup.Store.{
  Store, Action, pure, lift, guard, modify, fresh_id, ◌>>=◌, ◌>>◌, JournalEntry, JournalEntryType,
  Posting, Account,
}
use trueup.Store.Keeps.{Keeps, Holds, Holds-then}
use trueup.Ledger.Balance.{or_zero, entry_total, legs_sum, validate_legs_sound}
use trueup.Ledger.Entries.{
  PostingLeg, validate_legs, add_posting, add_postings, insert_entry, write, post, correct,
  dimension_fits,
}

entry_total-append :
    (e : ℕ) (ps qs : List Posting) → entry_total e (ps ++ qs) ≡ entry_total e ps +ℤ entry_total e qs
unfolding entry_total
entry_total-append e [] qs = omega int_laws
entry_total-append e (p ∷ ps) qs = elim (Bool-cases (p.journal_entry_id == e)) [
  | inl same ↦ rw same (rw (entry_total-append e ps qs) (omega int_laws))
  | inr other ↦ rw other (entry_total-append e ps qs)
]

abbrev IsBefore : ℕ → Posting → Type 0
IsBefore n p = p.journal_entry_id < n

All-append :
    (n : ℕ) (ps qs : List Posting)
    → All (IsBefore n) ps
    → All (IsBefore n) qs
    → All (IsBefore n) (ps ++ qs)
All-append n [] qs h k = k
All-append n (p ∷ ps) qs h k = (h.0, All-append n ps qs h.1 k)

pub IsBefore-mono :
    (n m : ℕ) (ps : List Posting) → n ≤ m → All (IsBefore n) ps → All (IsBefore m) ps
IsBefore-mono n m [] le h = tt
IsBefore-mono n m (p ∷ ps) le h = (omega arith, IsBefore-mono n m ps le h.1)

-- Every entry on file balances, and no posting names an entry that is yet to come.
pub record IsLedger (s : Store) : Type 0 where
  pub balanced : (e : ℕ) → entry_total e s.postings ≡ pos 0
  pub known : All (IsBefore s.next_id) s.postings

-- How far the legs of entry e have been written: their sum, and nothing on another entry.
record Wrote (e : ℕ) (sum : ℤ) (s : Store) : Type 0 where
  own : entry_total e s.postings ≡ sum
  others : (x : ℕ) → x ≢ e → entry_total x s.postings ≡ pos 0
  past : e < s.next_id
  known : All (IsBefore s.next_id) s.postings

append-Wrote :
    (e : ℕ) (q : Posting) (sum : ℤ) (s : Store)
    → q.journal_entry_id ≡ e
    → Wrote e sum s
    → Wrote e (sum +ℤ or_zero q.amount_money) (record s { postings = s.postings ++ q ∷ [] })
unfolding entry_total
append-Wrote e q sum s same w = record {
  own =
      rw (entry_total-append e s.postings (q ∷ []))
        (rw (w.own, own_entry (q.journal_entry_id == e) (ground arith)) (omega int_laws));
  others = λ x ne.
      rw (entry_total-append x s.postings (q ∷ [])) (
        rw (w.others x ne, other_entry x (q.journal_entry_id == x) (ground arith))
          (omega int_laws));
  past = w.past;
  known = All-append s.next_id s.postings (q ∷ []) w.known (rw same w.past, tt);
}
  where
    own_entry :
        (b : Bool)
        → b ≡ true
        → (if b then or_zero q.amount_money +ℤ pos 0 else pos 0) ≡ or_zero q.amount_money
    own_entry true h = omega int_laws
    own_entry false h = cc

    other_entry :
        (x : ℕ) (b : Bool)
        → b ≡ false
        → (if b then or_zero q.amount_money +ℤ pos 0 else pos 0) ≡ pos 0
    other_entry x true h = cc
    other_entry x false h = refl

add_posting-Wrote :
    (e : ℕ) (l : PostingLeg) (sum : ℤ) (s : Store)
    → Wrote e sum s
    → Holds (Wrote e (sum +ℤ or_zero l.amount_money)) (add_posting e l s)
unfolding add_posting
add_posting-Wrote e l sum s w = found _
  where
    found :
        (r : Result Error Account)
        → Holds (Wrote e (sum +ℤ or_zero l.amount_money)) (
            (do
              account ← lift r
              guard (not (dimension_fits account.dimension l)) dimension_mismatch
              let posting : Posting = record {
                journal_entry_id = e;
                account_id = l.account_id;
                customer_id = account.customer_id;
                amount_money = l.amount_money;
                quantity_units = l.quantity_units;
              }
              modify (λ s. record s { postings = s.postings ++ posting ∷ [] }))
              s)
    found (err x) = tt
    found (ok account) = elim (Bool-cases (not (dimension_fits account.dimension l))) [
      | inl bad ↦ rw bad tt
      | inr fits ↦ rw fits (append-Wrote e _ sum s refl w)
    ]

add_postings-Wrote :
    (e : ℕ) (ls : List PostingLeg) (sum : ℤ) (s : Store)
    → Wrote e sum s
    → Holds (Wrote e (sum +ℤ legs_sum ls)) (add_postings e ls s)
unfolding add_postings legs_sum
add_postings-Wrote e [] sum s w = let same : sum +ℤ pos 0 ≡ sum = omega int_laws in rw same w
add_postings-Wrote e (l ∷ ls) sum s w =
    Holds-then (Wrote e (sum +ℤ or_zero l.amount_money))
      (Wrote e (sum +ℤ (or_zero l.amount_money +ℤ legs_sum ls))) (add_posting e l s)
      (λ _. add_postings e ls) (add_posting-Wrote e l sum s w)
      λ _ s' w'.
        rw (+ℤ_assoc sum (or_zero l.amount_money) (legs_sum ls))
          (add_postings-Wrote e ls (sum +ℤ or_zero l.amount_money) s' w')

settled : (e : ℕ) (s : Store) → Wrote e (pos 0) s → IsLedger s
settled e s w = record { balanced = total; known = w.known }
  where
    total : (x : ℕ) → entry_total x s.postings ≡ pos 0
    total x = elim (ℕ_discrete x e) [ yes same ↦ rw same w.own | no ne ↦ w.others x ne ]

started :
    (s s1 : Store)
    → IsLedger s
    → s1.postings ≡ s.postings
    → s1.next_id ≡ suc s.next_id
    → Wrote s.next_id (pos 0) s1
started s s1 h ep en = record {
  own = rw ep (h.balanced s.next_id);
  others = λ x _. rw ep (h.balanced x);
  past = rw en (omega arith);
  known = rw (ep, en) (IsBefore-mono s.next_id (suc s.next_id) s.postings (omega arith) h.known);
}

insert_entry-IsLedger :
    (t : JournalEntryType) (d ev : ℕ) (legs : List PostingLeg) (sup : Option ℕ) (s : Store)
    → legs_sum legs ≡ pos 0
    → IsLedger s
    → Holds IsLedger (insert_entry t d ev legs sup s)
unfolding insert_entry fresh_id
insert_entry-IsLedger t d ev legs sup s zero_sum h =
    let entry : JournalEntry = record {
      id = s.next_id;
      entry_type = t;
      effective_date = d;
      source_event_id = ev;
      superseded_by = sup;
    } in
    let s1 = record s {
      next_id = suc s.next_id;
      journal_entries = s.journal_entries ++ entry ∷ [];
    } in
    let done : pos 0 +ℤ legs_sum legs ≡ pos 0 = rw zero_sum (omega int_laws) in
    Holds-then (Wrote s.next_id (pos 0)) IsLedger (add_postings s.next_id legs s1) (λ _. pure entry)
      (rw done at (add_postings-Wrote s.next_id legs (pos 0) s1 (started s s1 h refl refl)))
      (λ _ s' w. settled s.next_id s' w)

-- Whatever legs it is given, `_write` either raises or leaves every entry on file balanced, if they
-- were before.
pub write-IsLedger :
    (t : JournalEntryType) (d ev : ℕ) (legs : List PostingLeg) (sup : Option ℕ)
    → Keeps IsLedger (write t d ev legs sup)
unfolding write
write-IsLedger t d ev legs sup = record { at = λ s h. checked s h (validate_legs legs) refl }
  where
    checked :
        (s : Store)
        → IsLedger s
        → (r : Result Error (Unit {0})) → validate_legs legs ≡ r
        → Holds IsLedger ((lift r >> insert_entry t d ev legs sup) s)
    checked s h (err x) e = tt
    checked s h (ok tt) e = insert_entry-IsLedger t d ev legs sup s (validate_legs_sound legs e).2 h

pub post-IsLedger :
    (t : JournalEntryType) (d ev : ℕ) (legs : List PostingLeg) → Keeps IsLedger (post t d ev legs)
unfolding post
post-IsLedger t d ev legs = write-IsLedger t d ev legs none

pub correct-IsLedger :
    (o : JournalEntry) (d ev : ℕ) (legs : List PostingLeg) → Keeps IsLedger (correct o d ev legs)
unfolding correct
correct-IsLedger o d ev legs = write-IsLedger o.entry_type d ev legs (some o.id)

-- What leaves the postings alone and only moves the ids on keeps the ledger.
pub Keeps-of_same_postings :
    {A : Type 0} (m : Action A)
    → ((s : Store) → Holds (λ s'. (s'.postings ≡ s.postings) × (s.next_id ≤ s'.next_id)) (m s))
    → Keeps IsLedger m
Keeps-of_same_postings {A} m same = record { at = λ s h. moved s h (m s) (same s) }
  where
    moved :
        (s : Store)
        → IsLedger s
        → (r : Result Error (A × Store))
        → Holds (λ s'. (s'.postings ≡ s.postings) × (s.next_id ≤ s'.next_id)) r
        → Holds IsLedger r
    moved s h (err x) k = tt
    moved s h (ok (a, s')) k = record {
      balanced = λ e. rw k.0 (h.balanced e);
      known = rw k.0 (IsBefore-mono s.next_id s'.next_id s.postings k.1 h.known);
    }
