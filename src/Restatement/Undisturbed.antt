-- ===== src/Restatement/Undisturbed.antt =====
-- A restatement leaves what was published before it as it was.
use trueup.Prelude.{ℕ, ◌<◌, ◌≡◌, refl, Bool, List, filter, ok, leb, false, arith, ◌∙◌}
use trueup.Store.{
  Store, JournalEntry, Posting, SubPeriodReturn, PublishedSnapshot, RestatementTriggerType,
}
use trueup.Store.Keeps.{Holds_elim}
use trueup.Restatement.Snapshots.{is_visible, cross_check}
use trueup.Restatement.Service.{restate}
use trueup.Restatement.Derived.{filter-append_left, cross_check-agree}
use trueup.Restatement.Writes.{Bears, checker_of, restate-Keeps}

-- The rows that a watermark shows, the entries and the postings are these.
pub record Shows (cutoff : ℕ) (rows : List SubPeriodReturn) (entries : List JournalEntry)
    (postings : List Posting) (s : Store) : Type 0 where
  pub seen : filter (is_visible cutoff) s.sub_period_returns ≡ rows
  pub of_entries : s.journal_entries ≡ entries
  pub of_postings : s.postings ≡ postings

hidden : (cutoff now n : ℕ) → cutoff < now → n ≡ now → leb n cutoff ≡ false
hidden cutoff now n later e = ground arith

Shows-Bears :
    (cutoff now : ℕ)
    → cutoff < now
    → (rows : List SubPeriodReturn) (entries : List JournalEntry) (postings : List Posting)
    → Bears now (Shows cutoff rows entries postings)
Shows-Bears cutoff now later rows entries postings = record {
  ids = λ s h. record { seen = h.seen; of_entries = h.of_entries; of_postings = h.of_postings };
  events =
      λ s n h. record { seen = h.seen; of_entries = h.of_entries; of_postings = h.of_postings };
  disclosures =
      λ s n h. record { seen = h.seen; of_entries = h.of_entries; of_postings = h.of_postings };
  returns = λ s r e h. record {
    seen =
        filter-append_left (is_visible cutoff) s.sub_period_returns r
          (hidden cutoff now r.recorded_at later e)
        ∙ h.seen;
    of_entries = h.of_entries;
    of_postings = h.of_postings;
  };
}

restate-cross_check :
    (disclosing : Bool) (now customer : ℕ) (trigger : RestatementTriggerType) (source date : ℕ)
    (snapshot : PublishedSnapshot) (s : Store) {rows : List SubPeriodReturn} {s' : Store}
    → snapshot.publish_watermark < now
    → cross_check snapshot s ≡ ok (tt, s)
    → restate now (checker_of disclosing) customer trigger source date s ≡ ok (rows, s')
    → cross_check snapshot s' ≡ ok (tt, s')
restate-cross_check disclosing now customer trigger source date snapshot s {rows} {s'} later passed
      e =
    let w = snapshot.publish_watermark in
    let seen = filter (is_visible w) s.sub_period_returns in
    let kept =
      restate-Keeps now (Shows-Bears w now later seen s.journal_entries s.postings) disclosing
        customer trigger source date in
    let shown =
      Holds_elim (Shows w seen s.journal_entries s.postings)
        (restate now (checker_of disclosing) customer trigger source date s)
        (kept.at s (record { seen = refl; of_entries = refl; of_postings = refl })) e in
    cross_check-agree snapshot s s'
      (record { rows = shown.seen; entries = shown.of_entries; postings = shown.of_postings })
      passed

-- Restatements that returned, one after the other, each at an instant after a watermark, for
-- whatever customers and dates, with the checker of disclosures or without one.
pub data Restated (watermark : ℕ) (s : Store) : Store → Type 0 where
  none : Restated watermark s s
  next :
      {s1 s' : Store} {rows : List SubPeriodReturn} (disclosing : Bool) (now customer : ℕ)
      (trigger : RestatementTriggerType) (source date : ℕ)
      → Restated watermark s s1
      → watermark < now
      → restate now (checker_of disclosing) customer trigger source date s1 ≡ ok (rows, s')
      → Restated watermark s s'

-- Whatever restatements follow a publication, with the checker of disclosures or without one, each at
-- a later instant than its watermark: a
-- snapshot whose cross-check passed before passes it after, though its windows may have been
-- computed anew.
pub Restated-cross_check :
    (snapshot : PublishedSnapshot) (s : Store) {s' : Store}
    → cross_check snapshot s ≡ ok (tt, s)
    → Restated snapshot.publish_watermark s s'
    → cross_check snapshot s' ≡ ok (tt, s')
Restated-cross_check snapshot s passed none = passed
Restated-cross_check snapshot s passed
      (next {s1} {s'} {rows} disclosing now customer trigger source date before later e) =
    restate-cross_check disclosing now customer trigger source date snapshot s1 later
      (Restated-cross_check snapshot s passed before) e
