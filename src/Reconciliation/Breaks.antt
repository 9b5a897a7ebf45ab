-- ===== src/Reconciliation/Breaks.antt =====
-- models/reconciliation/reconciliation_break.py: a break is opened by a comparison and resolved once,
-- by a person.
use trueup.Prelude.{
  find_by, put_by, ℕ, Bool, true, false, not, ◌&&◌, Option, none, some, is_some, List, Result, ok,
  err, ◌==◌, if◌then◌else◌, ◌>>◌, raise_if,
}
use trueup.Errors.{Error, already_resolved, already_terminal, immutable_fields, check_violation}
use trueup.Store.{
  ReconciliationBreak, ReconciliationBreakType, position_mismatch, cash_mismatch,
  unmatched_custodian_transaction, unmatched_internal_transaction, ReconciliationBreakStatus,
  open_break, resolved_break,
}

abbrev pub is_open : ReconciliationBreakStatus → Bool
is_open open_break = true
is_open resolved_break = false

unfoldable pub resolve : ℕ → ℕ → ℕ → ReconciliationBreak → Result Error ReconciliationBreak
resolve resolved_by resolved_at resolution_note row =
    if not (is_open row.status)
    then err already_resolved
    else ok (record row {
      status = resolved_break;
      resolved_at = some resolved_at;
      resolved_by = some resolved_by;
      resolution_note = some resolution_note;
    })

abbrev pub same_type : ReconciliationBreakType → ReconciliationBreakType → Bool
same_type position_mismatch position_mismatch = true
same_type cash_mismatch cash_mismatch = true
same_type unmatched_custodian_transaction unmatched_custodian_transaction = true
same_type unmatched_internal_transaction unmatched_internal_transaction = true
same_type _ _ = false

-- `IS NOT DISTINCT FROM`
abbrev pub not_distinct : Option ℕ → Option ℕ → Bool
not_distinct none none = true
not_distinct (some a) (some b) = a == b
not_distinct _ _ = false

-- The trigger `reconciliation_break_single_transition`; the payloads are not kept.
unfoldable pub reconciliation_break_single_transition :
    ReconciliationBreak → ReconciliationBreak → Result Error (Unit {0})
reconciliation_break_single_transition old new =
    raise_if (not (is_open old.status)) already_terminal
    >> raise_if
        (not (
          same_type new.break_type old.break_type
          && not_distinct new.customer_id old.customer_id
          && new.opened_at == old.opened_at
          && new.import_batch_id == old.import_batch_id))
        immutable_fields

-- The constraint `resolved_break_requires_resolver`.
abbrev pub resolved_break_requires_resolver : ReconciliationBreak → Bool
resolved_break_requires_resolver r = if is_open r.status then true else is_some r.resolved_by

-- What the database makes of an update of a row.
unfoldable pub check_break_update :
    ReconciliationBreak → ReconciliationBreak → Result Error (Unit {0})
check_break_update old new =
    reconciliation_break_single_transition old new
    >> raise_if (not (resolved_break_requires_resolver new)) check_violation

abbrev pub find_break : ℕ → List ReconciliationBreak → Option ReconciliationBreak
find_break n bs = find_by (λ b. b.id) n bs

abbrev pub put_break : ReconciliationBreak → List ReconciliationBreak → List ReconciliationBreak
put_break new bs = put_by (λ b. b.id) new bs
