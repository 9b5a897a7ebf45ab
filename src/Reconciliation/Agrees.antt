-- ===== src/Reconciliation/Agrees.antt =====
-- When the files and the tables agree, and the transactions of both in open terms.
use trueup.Prelude.{
  ℕ, ◌≡◌, ◌↔◌, not, any, filter, ◌==◌, ◌&&◌, ◌||◌, arith, refl, sym, ◌∙◌, Bool, true, false, List,
  [], ◌∷◌, All, ok, ok_injective, >>=-eq-ok,
}
use trueup.Prelude.Int.{pos}
use trueup.Errors.{Error}
use trueup.Store.{Store, JournalEntry, JournalEntryType, split, correction, wash_sale_adjustment}
use trueup.Ledger.CashPolicy.{settled_cash}
use trueup.Reconciliation.Files.{
  CustodianPositionRow, CustodianTransactionRow, CustodianFileSet, quantity_in, cash_in,
  by_transaction_id, is_observable, snapshots_of, InternalTransactionSnapshot,
  read_internal_transactions,
}
use trueup.Reconciliation.Loops.{has_snapshot, has_row}
use trueup.Reconciliation.Keys.{has_key, has_key-dict_of, has_key-filter, same_keys_iff}
use trueup.Reconciliation.Sides.{snapshots_of-has_key}

-- Entries of these types are between accounts of the books only; every other one is a movement that
-- the custodian sees.
abbrev pub is_internal : JournalEntryType → Bool
is_internal split = true
is_internal correction = true
is_internal wash_sale_adjustment = true
is_internal _ = false

-- What the two sides have to say alike on a date: the quantity of each position, where one that is not
-- listed is 0, the settled cash of each customer that one of them has, and, of each id of a
-- transaction, whether there was one.
abbrev pub Agrees :
    (source : ℕ → ℕ) (date : ℕ) → CustodianFileSet → List CustodianPositionRow → Store → Type 0
Agrees source date files internal s =
    ((k : ℕ × ℕ) → quantity_in k (pos 0) internal ≡ quantity_in k (pos 0) files.positions)
    × ((n : ℕ)
        → (has_key (λ r. r.customer_id) n files.cash || has_key (λ c. c.id) n s.customers) ≡ true
        → settled_cash n s ≡ ok (cash_in n (pos 0) files.cash))
    × ((t : ℕ)
        → has_key (λ r. r.custodian_transaction_id) t files.transactions
          ≡ any
              (λ e.
                (e.effective_date == date && not (is_internal e.entry_type))
                && source e.source_event_id == t)
              s.journal_entries)

same_types : (e : JournalEntryType) → is_observable e ≡ not (is_internal e)
same_types e = ground arith

-- The ids of the transactions that the tables give.
snapshot_keys :
    (source : ℕ → ℕ) (date : ℕ) (s : Store) (t : ℕ) {xs : List InternalTransactionSnapshot}
    → read_internal_transactions source date s ≡ ok xs
    → has_key (λ x. x.source_event) t xs
      ≡ any
          (λ e.
            (e.effective_date == date && not (is_internal e.entry_type))
            && source e.source_event_id == t)
          s.journal_entries
unfolding read_internal_transactions
snapshot_keys source date s t e =
    let observed = λ (x : JournalEntry). x.effective_date == date && is_observable x.entry_type in
    let (snapshots, read, e1) =
      >>=-eq-ok (snapshots_of source s (filter observed s.journal_entries)) _ e in
    rw (← ok_injective {E = Error} e1) (
      has_key-dict_of (λ x. x.source_event) t [] snapshots
      ∙ or_false _
      ∙ snapshots_of-has_key source s t (filter observed s.journal_entries) read
      ∙ has_key-filter (λ x. source x.source_event_id) observed t s.journal_entries
      ∙ any_same s.journal_entries)
  where
    or_false : (b : Bool) → (b || false) ≡ b
    or_false true = refl
    or_false false = refl

    any_same :
        (es : List JournalEntry)
        → any
            (λ x.
              (x.effective_date == date && is_observable x.entry_type)
              && source x.source_event_id == t)
            es
          ≡ any
              (λ x.
                (x.effective_date == date && not (is_internal x.entry_type))
                && source x.source_event_id == t)
              es
    any_same [] = refl
    any_same (x ∷ xs) = rw (same_types x.entry_type, any_same xs) refl

-- The transactions of both sides in open terms.
pub transactions_iff :
    (source : ℕ → ℕ) (date : ℕ) (files : CustodianFileSet) (s : Store)
    (snapshots : List InternalTransactionSnapshot)
    → read_internal_transactions source date s ≡ ok snapshots
    → (All (λ r. has_snapshot snapshots r ≡ true) (by_transaction_id files.transactions)
        × All (λ x. has_row (by_transaction_id files.transactions) x ≡ true) snapshots)
      ↔ ((t : ℕ)
          → has_key (λ r. r.custodian_transaction_id) t files.transactions
            ≡ any
                (λ e.
                  (e.effective_date == date && not (is_internal e.entry_type))
                  && source e.source_event_id == t)
                s.journal_entries)
transactions_iff source date files s snapshots read =
    let same =
      same_keys_iff (λ (r : CustodianTransactionRow). r.custodian_transaction_id)
        (λ (x : InternalTransactionSnapshot). x.source_event) (by_transaction_id files.transactions)
        snapshots in
    (
      λ p t. sym (dict_keys t) ∙ same.0 p t ∙ snapshot_keys source date s t read,
      λ h. same.1 (λ t. dict_keys t ∙ h t ∙ sym (snapshot_keys source date s t read)),
    )
  where
    or_false : (b : Bool) → (b || false) ≡ b
    or_false true = refl
    or_false false = refl

    dict_keys :
        (t : ℕ)
        → has_key (λ r. r.custodian_transaction_id) t (by_transaction_id files.transactions)
          ≡ has_key (λ r. r.custodian_transaction_id) t files.transactions
    dict_keys t =
        has_key-dict_of (λ r. r.custodian_transaction_id) t [] files.transactions ∙ or_false _
