-- ===== src/Tests/Reviews.antt =====
-- An agent's request that is approved, and a verdict on an identity session.
use trueup.Prelude.{ℕ, ◌≤◌, ◌≡◌, ◌⊎◌, refl, Option, none, some, [], ◌∷◌, ok, err}
use trueup.Errors.{invalid_transition, execution_failed_error}
use trueup.Store.{
  Store, pure, pending, approved, executed, resolve_break, AgentActionRequest, ReconciliationBreak,
  position_mismatch, open_break, resolved_break, KycSession, VerdictStatus,
}
use trueup.Store.Keeps.{Keeps-pure}
use trueup.AgentRequests.Transitions.{approve, check_update}
use trueup.AgentRequests.Lifetime.{none_yet, then_update, methods_match_trigger, Updates-end}
use trueup.AgentRequests.Review.{Rebalancer, approve_request, reject_request}
use trueup.AgentRequests.Kept.{IsRebalancer}
use trueup.AgentRequests.Once.{Settled, approve_request-once}
use trueup.Kyc.{StripeStatus, verified, apply_verification_verdict}
use trueup.Kyc.Final.{Decided, apply_verification_verdict_final}
use trueup.Tests.Books.{opening}

abbrev proposal : AgentActionRequest
proposal = record {
  id = 70;
  action = resolve_break;
  arguments = 90;
  requesting_agent = 1;
  justification = 2;
  status = pending;
  reviewed_by = none;
  reviewed_at = none;
  review_note = none;
  execution_error = none;
  executed_at = none;
  created_at = 30;
}

abbrev granted : AgentActionRequest
granted = record proposal {
  status = approved;
  reviewed_by = some 3;
  reviewed_at = some 40;
  review_note = some 6;
}

abbrev done : AgentActionRequest
done = record granted { status = executed; executed_at = some 40 }

methods_match_trigger_example : (granted ≡ granted) × (check_update proposal granted ≡ ok tt)
unfolding approve
methods_match_trigger_example =
    (methods_match_trigger proposal 3 40 6 (some 6) invalid_transition granted).0.0 refl

Updates-end_example :
    (2 ≤ 2)
    × (done.action ≡ proposal.action)
    × (done.arguments ≡ proposal.arguments)
    × (done.justification ≡ proposal.justification)
    × (done.requesting_agent ≡ proposal.requesting_agent)
    × (done.created_at ≡ proposal.created_at)
unfolding check_update trueup.AgentRequests.Transitions.agent_action_request_single_transition
    trueup.AgentRequests.Transitions.same_request trueup.AgentRequests.Transitions.may_move
    trueup.AgentRequests.Transitions.passes_checks
Updates-end_example = Updates-end {first = proposal} {last = done} (
    then_update {old = granted} {new = done}
      (then_update {old = proposal} {new = granted} none_yet refl) refl)

abbrev mismatch : ReconciliationBreak
mismatch = record {
  id = 90;
  break_type = position_mismatch;
  customer_id = some 1;
  opened_at = 20;
  status = open_break;
  resolved_at = none;
  resolved_by = none;
  resolution_note = none;
  import_batch_id = 4;
}

abbrev proposed : Store
proposed = record opening {
  agent_action_requests = proposal ∷ [];
  reconciliation_breaks = mismatch ∷ [];
}

abbrev settled : Store
settled = record opening {
  agent_action_requests = done ∷ [];
  reconciliation_breaks =
      record mismatch {
        status = resolved_break;
        resolved_at = some 40;
        resolved_by = some 3;
        resolution_note = some 5;
      }
      ∷ [];
}

abbrev no_rebalancing : Rebalancer
no_rebalancing = record { rebalance_customer = λ customer. pure tt }

no_rebalancing-IsRebalancer : IsRebalancer no_rebalancing
no_rebalancing-IsRebalancer rows customer = Keeps-pure tt

approve_request-once_example :
    Settled 3 70 settled
    × ((text by at : ℕ) (remark : Option ℕ)
        → approve_request no_rebalancing text by at remark 70 settled ≡ err invalid_transition)
    × ((by at remark : ℕ) → reject_request by at remark 70 settled ≡ err invalid_transition)
unfolding approve_request trueup.AgentRequests.Review.approve_found approve
    trueup.AgentRequests.Review.flush_request check_update
    trueup.AgentRequests.Transitions.agent_action_request_single_transition
    trueup.AgentRequests.Transitions.may_move trueup.AgentRequests.Transitions.same_request
    trueup.AgentRequests.Transitions.passes_checks trueup.AgentRequests.Review.finish
    trueup.AgentRequests.Review.execute trueup.AgentRequests.Review.execute_resolve_break
    trueup.Reconciliation.Breaks.resolve trueup.Reconciliation.Breaks.check_break_update
    trueup.Reconciliation.Breaks.reconciliation_break_single_transition
    trueup.AgentRequests.Transitions.mark_executed
approve_request-once_example =
    approve_request-once no_rebalancing no_rebalancing 5 3 40 (some 6) 70 proposed {s' = settled}
      no_rebalancing-IsRebalancer refl

-- A request whose break is missing: the error of the executor is not among the expected ones, so the
-- approval raises, and the request is not recorded as failed.
missing_break :
    approve_request no_rebalancing 5 3 40 none 70 (record proposed { reconciliation_breaks = [] })
    ≡ err execution_failed_error
unfolding approve_request trueup.AgentRequests.Review.approve_found approve
    trueup.AgentRequests.Review.flush_request check_update
    trueup.AgentRequests.Transitions.agent_action_request_single_transition
    trueup.AgentRequests.Transitions.may_move trueup.AgentRequests.Transitions.same_request
    trueup.AgentRequests.Transitions.passes_checks trueup.AgentRequests.Review.finish
    trueup.AgentRequests.Review.execute trueup.AgentRequests.Review.execute_resolve_break
    trueup.AgentRequests.Review.is_expected
missing_break = refl

abbrev session : KycSession
session = record {
  id = 50;
  customer_id = 1;
  provider_session_id = 8;
  status = pending;
  attempt_number = 1;
  resolved_at = none;
}

abbrev asked : Store
asked = record opening {
  kyc_sessions = session ∷ [];
  customers = record { id = 1; kyc_status = pending; account_approval_status = approved } ∷ [];
}

abbrev answered : Store
answered = record opening {
  kyc_sessions = record session { status = approved; resolved_at = some 60 } ∷ [];
}

apply_verification_verdict_final_example :
    (status : VerdictStatus) × ((status ≡ VerdictStatus.approved)
      ⊎ (status ≡ VerdictStatus.rejected))
    × Decided 8 status 1 answered
    × ((max later : ℕ) (stripe : StripeStatus) (c : Option ℕ) (t : Store)
        → apply_verification_verdict max later 8 stripe answered ≡ ok (c, t)
        → (c ≡ none) × (t ≡ answered))
unfolding apply_verification_verdict trueup.Kyc.map_verification_session_status
    trueup.Kyc.record_verdict trueup.Kyc.resolve
apply_verification_verdict_final_example =
    apply_verification_verdict_final 3 60 8 1 verified asked {s' = answered} refl
