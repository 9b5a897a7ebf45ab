-- ===== src/AgentRequests/Review.antt =====
-- controllers/admin/agent_requests.py: the approval queue. An approval executes the action of the
-- request in a savepoint, inside the transaction that approves it.
use trueup.Prelude.{
  ℕ, Bool, true, false, Option, none, [], ◌∷◌, ◌++◌, Result, ok, err, require, if◌then◌else◌,
}
use trueup.Errors.{
  Error, already_resolved, no_assigned_model, customer_not_found, customer_kyc, customer_approval,
  calendar_cache_miss, execution_failed_error, request_not_found,
}
use trueup.Store.{
  Store, Action, pure, gets, lift, modify, fresh_id, ◌>>=◌, ◌>>◌, pending, AgentActionType,
  resolve_break, kyc_override, rebalance, AgentActionRequest,
}
use trueup.Funding.{find_customer, put_customer}
use trueup.Reconciliation.Breaks.{find_break, put_break, resolve, check_break_update}
use trueup.AgentRequests.Transitions.{
  approve, reject, mark_executed, mark_execution_failed, check_update, find_request, put_request,
}

-- `AgentActionRequestRepository.create`
unfoldable pub create : AgentActionType → ℕ → ℕ → ℕ → ℕ → Action ℕ
create action arguments requesting_agent justification now = do
  id ← fresh_id
  let row : AgentActionRequest = record {
    id = id;
    action = action;
    arguments = arguments;
    requesting_agent = requesting_agent;
    justification = justification;
    status = pending;
    reviewed_by = none;
    reviewed_at = none;
    review_note = none;
    execution_error = none;
    executed_at = none;
    created_at = now;
  }
  modify (λ s. record s { agent_action_requests = s.agent_action_requests ++ row ∷ [] })
  pure id

-- The flush of a changed row.
unfoldable pub flush_request : AgentActionRequest → AgentActionRequest → Action (Unit {0})
flush_request old new = do
  lift (check_update old new)
  modify (λ s. record s { agent_action_requests = put_request new s.agent_action_requests })

-- `_execute_resolve_break`; the note is in the arguments, as the id of the break is.
unfoldable pub execute_resolve_break : ℕ → AgentActionRequest → ℕ → ℕ → Action (Unit {0})
execute_resolve_break resolution_note row reviewed_by reviewed_at = do
  found ← gets (λ s. find_break row.arguments s.reconciliation_breaks)
  break_row ← lift (require found execution_failed_error)
  resolved ← lift (resolve reviewed_by reviewed_at resolution_note break_row)
  lift (check_break_update break_row resolved)
  modify (λ s. record s { reconciliation_breaks = put_break resolved s.reconciliation_breaks })

-- `_execute_kyc_override`
unfoldable pub execute_kyc_override : AgentActionRequest → Action (Unit {0})
execute_kyc_override row = do
  found ← gets (λ s. find_customer row.arguments s.customers)
  customer ← lift (require found execution_failed_error)
  modify (λ s. record s {
    customers = put_customer (record customer { kyc_status = pending }) s.customers;
  })

-- The evaluation of the drift and the orders that follow, for one customer.
pub record Rebalancer : Type 0 where
  pub rebalance_customer : ℕ → Action (Unit {0})

-- `_execute_rebalance`
unfoldable pub execute_rebalance : Rebalancer → AgentActionRequest → Action (Unit {0})
execute_rebalance rebalancer row = do
  found ← gets (λ s. find_customer row.arguments s.customers)
  customer ← lift (require found execution_failed_error)
  rebalancer.rebalance_customer row.arguments

-- `_EXPECTED_EXECUTION_ERRORS`
unfoldable pub is_expected : Error → Bool
is_expected already_resolved = true
is_expected no_assigned_model = true
is_expected customer_not_found = true
is_expected customer_kyc = true
is_expected customer_approval = true
is_expected calendar_cache_miss = true
is_expected _ = false

module _ (rebalancer : Rebalancer) (resolution_note reviewed_by reviewed_at : ℕ) where
  -- `_EXECUTORS`
  unfoldable pub execute : AgentActionType → AgentActionRequest → Action (Unit {0})
  execute resolve_break row = execute_resolve_break resolution_note row reviewed_by reviewed_at
  execute kyc_override row = execute_kyc_override row
  execute rebalance row = execute_rebalance rebalancer row

  -- The end of `_approve_request`: an expected error rolls the savepoint back and is recorded, any
  -- other one goes on.
  unfoldable pub finish : AgentActionRequest → Result Error (Unit {0} × Store) → Action (Unit {0})
  finish row (ok (u, s')) s = (lift (mark_executed reviewed_at row) >>= flush_request row) s'
  finish row (err e) s =
      if is_expected e then (lift (mark_execution_failed e row) >>= flush_request row) s else err e

  -- `_approve_request`; the savepoint flushes the approved row before it opens.
  unfoldable pub approve_found : Option ℕ → AgentActionRequest → Action (Unit {0})
  approve_found review_note row = do
    approved_row ← lift (approve reviewed_by reviewed_at review_note row)
    flush_request row approved_row
    outcome ← gets (execute approved_row.action approved_row)
    finish approved_row outcome

  -- The route `POST /<request_id>/approve`.
  unfoldable pub approve_request : Option ℕ → ℕ → Action (Unit {0})
  approve_request review_note n = do
    found ← gets (λ s. find_request n s.agent_action_requests)
    row ← lift (require found request_not_found)
    approve_found review_note row

-- `_reject_request` and the route `POST /<request_id>/reject`.
unfoldable pub reject_request : ℕ → ℕ → ℕ → ℕ → Action (Unit {0})
reject_request reviewed_by reviewed_at review_note n = do
  found ← gets (λ s. find_request n s.agent_action_requests)
  row ← lift (require found request_not_found)
  rejected_row ← lift (reject reviewed_by reviewed_at review_note row)
  flush_request row rejected_row
