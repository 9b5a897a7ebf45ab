-- ===== src/AgentRequests/Transitions.antt =====
-- models/ops/agent_action_request.py: the methods of the repository that change a row, and what the
-- database checks of the change.
use trueup.Prelude.{
  find_by, put_by, ℕ, Bool, true, false, not, ◌&&◌, Option, some, is_some, List, Result, ok, err,
  ◌==◌, if◌then◌else◌, ◌>>◌, raise_if,
}
use trueup.Errors.{Error, invalid_transition, check_violation, already_terminal, immutable_fields}
use trueup.Store.{
  AgentActionType, resolve_break, kyc_override, rebalance, AgentActionStatus, pending, approved,
  rejected, executed, execution_failed, AgentActionRequest,
}

abbrev pub is_pending : AgentActionStatus → Bool
is_pending pending = true
is_pending _ = false

abbrev pub is_approved : AgentActionStatus → Bool
is_approved approved = true
is_approved _ = false

unfoldable pub approve : ℕ → ℕ → Option ℕ → AgentActionRequest → Result Error AgentActionRequest
approve reviewed_by reviewed_at review_note row =
    if not (is_pending row.status)
    then err invalid_transition
    else ok (record row {
      status = approved;
      reviewed_by = some reviewed_by;
      reviewed_at = some reviewed_at;
      review_note = review_note;
    })

unfoldable pub reject : ℕ → ℕ → ℕ → AgentActionRequest → Result Error AgentActionRequest
reject reviewed_by reviewed_at review_note row =
    if not (is_pending row.status)
    then err invalid_transition
    else ok (record row {
      status = rejected;
      reviewed_by = some reviewed_by;
      reviewed_at = some reviewed_at;
      review_note = some review_note;
    })

unfoldable pub mark_executed : ℕ → AgentActionRequest → Result Error AgentActionRequest
mark_executed executed_at row =
    if not (is_approved row.status)
    then err invalid_transition
    else ok (record row { status = executed; executed_at = some executed_at })

unfoldable pub mark_execution_failed : Error → AgentActionRequest → Result Error AgentActionRequest
mark_execution_failed execution_error row =
    if not (is_approved row.status)
    then err invalid_transition
    else ok (record row { status = execution_failed; execution_error = some execution_error })

-- The first test of the trigger, on the old and the new status.
unfoldable pub may_move : AgentActionStatus → AgentActionStatus → Bool
may_move pending approved = true
may_move pending rejected = true
may_move approved executed = true
may_move approved execution_failed = true
may_move _ _ = false

abbrev pub same_action : AgentActionType → AgentActionType → Bool
same_action resolve_break resolve_break = true
same_action kyc_override kyc_override = true
same_action rebalance rebalance = true
same_action _ _ = false

-- The second, on the fields that identify the request.
unfoldable pub same_request : AgentActionRequest → AgentActionRequest → Bool
same_request old new =
    same_action new.action old.action
    && new.arguments == old.arguments
    && new.requesting_agent == old.requesting_agent
    && new.justification == old.justification
    && new.created_at == old.created_at

-- The trigger `agent_action_request_single_transition`.
unfoldable pub agent_action_request_single_transition :
    AgentActionRequest → AgentActionRequest → Result Error (Unit {0})
agent_action_request_single_transition old new =
    raise_if (not (may_move old.status new.status)) already_terminal
    >> raise_if (not (same_request old new)) immutable_fields

-- The check constraints of the table, but `justification_present`, which is on a text that no method
-- changes.
unfoldable pub passes_checks : AgentActionRequest → Bool
passes_checks r =
    review_requires_reviewer r.status
    && executed_requires_timestamp r.status
    && failure_requires_error r.status
  where
    review_requires_reviewer : AgentActionStatus → Bool
    review_requires_reviewer approved = is_some r.reviewed_by && is_some r.reviewed_at
    review_requires_reviewer rejected = is_some r.reviewed_by && is_some r.reviewed_at
    review_requires_reviewer _ = true

    executed_requires_timestamp : AgentActionStatus → Bool
    executed_requires_timestamp executed = is_some r.executed_at
    executed_requires_timestamp _ = true

    failure_requires_error : AgentActionStatus → Bool
    failure_requires_error execution_failed = is_some r.execution_error
    failure_requires_error _ = true

-- What the database makes of an update of a row.
unfoldable pub check_update : AgentActionRequest → AgentActionRequest → Result Error (Unit {0})
check_update old new =
    agent_action_request_single_transition old new
    >> raise_if (not (passes_checks new)) check_violation

abbrev pub find_request : ℕ → List AgentActionRequest → Option AgentActionRequest
find_request n rs = find_by (λ r. r.id) n rs

abbrev pub put_request : AgentActionRequest → List AgentActionRequest → List AgentActionRequest
put_request new rs = put_by (λ r. r.id) new rs
