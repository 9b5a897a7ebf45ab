-- ===== src/AgentRequests/Lifetime.antt =====
-- The methods of the repository against the trigger of the database: two descriptions of one state
-- machine, which ends after at most two moves.
use trueup.Prelude.{ℕ, suc, ◌+◌, ◌≤◌, ◌≡◌, refl, ◌↔◌, true, Option, some, ok, arith}
use trueup.Errors.{Error}
use trueup.Store.{
  AgentActionType, AgentActionStatus, pending, approved, rejected, executed, execution_failed,
  AgentActionRequest,
}
use trueup.AgentRequests.Transitions.{
  approve, reject, mark_executed, mark_execution_failed, may_move, same_action, same_request,
  agent_action_request_single_transition, passes_checks, check_update,
}

module _ (old : AgentActionRequest) where
  -- A method of the repository accepts a row exactly if the trigger and the check constraints accept
  -- the update that the method makes of it: the test in the code is never weaker than the database's,
  -- so that no flush fails, and never stronger.
  pub methods_match_trigger :
      (by at text : ℕ) (note' : Option ℕ) (e : Error) (new : AgentActionRequest)
      → ((approve by at note' old ≡ ok new) ↔ (
          (new ≡ record old {
            status = approved;
            reviewed_by = some by;
            reviewed_at = some at;
            review_note = note';
          })
          × (check_update old new ≡ ok tt)))
        × ((reject by at text old ≡ ok new) ↔ (
            (new ≡ record old {
              status = rejected;
              reviewed_by = some by;
              reviewed_at = some at;
              review_note = some text;
            })
            × (check_update old new ≡ ok tt)))
        × ((mark_executed at old ≡ ok new) ↔ (
            (new ≡ record old { status = executed; executed_at = some at })
            × (check_update old new ≡ ok tt)))
        × ((mark_execution_failed e old ≡ ok new) ↔ (
            (new ≡ record old { status = execution_failed; execution_error = some e })
            × (check_update old new ≡ ok tt)))
  unfolding approve reject mark_executed mark_execution_failed check_update
      agent_action_request_single_transition same_request may_move passes_checks
  methods_match_trigger by at text note' e new = (
    (λ h. ground arith, λ h. ground arith),
    (λ h. ground arith, λ h. ground arith),
    (λ h. ground arith, λ h. ground arith),
    (λ h. ground arith, λ h. ground arith),
  )

-- Updates of one row that the database accepted, one after the other.
pub data Updates (first : AgentActionRequest) : ℕ → AgentActionRequest → Type 0 where
  none_yet : Updates first 0 first
  then_update :
      {n : ℕ} {old new : AgentActionRequest}
      → Updates first n old
      → check_update old new ≡ ok tt
      → Updates first (suc n) new

moves_left : AgentActionStatus → ℕ
moves_left pending = 2
moves_left approved = 1
moves_left _ = 0

same_action-eq : (a b : AgentActionType) → same_action a b ≡ true → a ≡ b
same_action-eq a b e = ground arith

check_update-moves_left :
    (old new : AgentActionRequest)
    → check_update old new ≡ ok tt
    → (suc (moves_left new.status) ≤ moves_left old.status)
      × (new.action ≡ old.action)
      × (new.arguments ≡ old.arguments)
      × (new.justification ≡ old.justification)
      × (new.requesting_agent ≡ old.requesting_agent)
      × (new.created_at ≡ old.created_at)
unfolding moves_left check_update agent_action_request_single_transition same_request may_move
check_update-moves_left old new e = ground arith

Updates-moves_left :
    {first last : AgentActionRequest} {n : ℕ}
    → Updates first n last
    → (n + moves_left last.status ≤ moves_left first.status)
      × (last.action ≡ first.action)
      × (last.arguments ≡ first.arguments)
      × (last.justification ≡ first.justification)
      × (last.requesting_agent ≡ first.requesting_agent)
      × (last.created_at ≡ first.created_at)
Updates-moves_left none_yet = (omega arith, refl, refl, refl, refl, refl)
Updates-moves_left (then_update u e) =
    let before = Updates-moves_left u in let step = check_update-moves_left _ _ e in ground arith

moves_left_max : (t : AgentActionStatus) → moves_left t ≤ 2
unfolding moves_left
moves_left_max t = ground arith

-- However a request is updated, by the methods of the code or by anything else that the database
-- accepts, it is updated at most twice; its action, its arguments, its justification, the agent that asked
-- and the instant of its proposal stay as they were.
pub Updates-end :
    {first last : AgentActionRequest} {n : ℕ}
    → Updates first n last
    → (n ≤ 2)
      × (last.action ≡ first.action)
      × (last.arguments ≡ first.arguments)
      × (last.justification ≡ first.justification)
      × (last.requesting_agent ≡ first.requesting_agent)
      × (last.created_at ≡ first.created_at)
Updates-end {first} u =
    let all = Updates-moves_left u in
    let most = moves_left_max first.status in (omega arith, all.1, all.2, all.3, all.4, all.5)
