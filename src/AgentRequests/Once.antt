-- ===== src/AgentRequests/Once.antt =====
-- A request is settled by the first review that returns.
use trueup.Prelude.{
  require-ok, find_by-key, ℕ, ◌≡◌, refl, ap, ◌∙◌, ◌⊎◌, inl, inr, Bool-cases, Option, some, List,
  Result, ok, err, require, arith,
}
use trueup.Errors.{Error, invalid_transition, request_not_found}
use trueup.Store.{Store, lift, ◌>>=◌, executed, execution_failed, AgentActionRequest}
use trueup.Store.Keeps.{Holds, bind-ok, lift-ok}
use trueup.AgentRequests.Transitions.{
  approve, reject, mark_executed, mark_execution_failed, find_request,
}
use trueup.AgentRequests.Review.{
  is_expected, flush_request, Rebalancer, execute, finish, approve_found, approve_request,
  reject_request,
}
use trueup.AgentRequests.Kept.{IsRebalancer, HasRequests, Keeps-execute, flush_request-row}

-- What a review leaves behind: the request, executed or failed, with its reviewer.
abbrev pub Settled : ℕ → ℕ → Store → Type 0
Settled by n s =
    (r : AgentActionRequest) × (find_request n s.agent_action_requests ≡ some r)
    × ((r.status ≡ executed) ⊎ (r.status ≡ execution_failed))
    × (r.reviewed_by ≡ some by)

module _ (rebalancer : Rebalancer) (text by at : ℕ) (law : IsRebalancer rebalancer) where
  mark_executed-fields :
      (row r : AgentActionRequest)
      → mark_executed at row ≡ ok r
      → (r.status ≡ executed) × (r.id ≡ row.id) × (r.reviewed_by ≡ row.reviewed_by)
  unfolding mark_executed
  mark_executed-fields row r e = ground arith

  mark_execution_failed-fields :
      (x : Error) (row r : AgentActionRequest)
      → mark_execution_failed x row ≡ ok r
      → (r.status ≡ execution_failed) × (r.id ≡ row.id) × (r.reviewed_by ≡ row.reviewed_by)
  unfolding mark_execution_failed
  mark_execution_failed-fields x row r e = ground arith

  finish-Settled :
      (n : ℕ) (row : AgentActionRequest) (outcome : Result Error (Unit {0} × Store)) (s : Store)
      {s' : Store}
      → find_request n s.agent_action_requests ≡ some row
      → row.id ≡ n
      → row.reviewed_by ≡ some by
      → Holds (HasRequests s.agent_action_requests) outcome
      → finish rebalancer text by at row outcome s ≡ ok (tt, s')
      → Settled by n s'
  unfolding finish
  finish-Settled n row (ok (u, s1)) s found named who kept e =
      let (r, s2, marked, e1) = bind-ok (lift (mark_executed at row)) _ s1 e in
      let (same, is) = lift-ok (mark_executed at row) s1 marked in
      let (status, id, reviewer) = mark_executed-fields row r is in
      let there : find_request n s2.agent_action_requests ≡ some row =
        ap (λ (s : Store). find_request n s.agent_action_requests) same
        ∙ (ap (λ (rs : List AgentActionRequest). find_request n rs) kept ∙ found) in
      (r, flush_request-row n row r s2 there (id ∙ named) e1, inl status, reviewer ∙ who)
  finish-Settled n row (err x) s {s'} found named who kept e = elim (Bool-cases (is_expected x)) [
    | inl expected ↦
        let k : (lift (mark_execution_failed x row) >>= flush_request row) s ≡ ok (tt, s') =
          rw expected at e in
        let (r, s2, marked, e1) = bind-ok (lift (mark_execution_failed x row)) _ s k in
        let (same, is) = lift-ok (mark_execution_failed x row) s marked in
        let (status, id, reviewer) = mark_execution_failed-fields x row r is in
        let there : find_request n s2.agent_action_requests ≡ some row =
          ap (λ (s : Store). find_request n s.agent_action_requests) same ∙ found in
        (r, flush_request-row n row r s2 there (id ∙ named) e1, inr status, reviewer ∙ who)
    | inr unexpected ↦
        let k : ◌≡◌ {A = Result Error (Unit {0} × Store)} (err x) (ok (tt, s')) =
          rw unexpected at e in
        cc
  ]

  approve-fields :
      (remark : Option ℕ) (row r : AgentActionRequest)
      → approve by at remark row ≡ ok r
      → (r.id ≡ row.id) × (r.reviewed_by ≡ some by)
  unfolding approve
  approve-fields remark row r e = ground arith

  approve_found-Settled :
      (n : ℕ) (remark : Option ℕ) (row : AgentActionRequest) (s : Store) {s' : Store}
      → find_request n s.agent_action_requests ≡ some row
      → approve_found rebalancer text by at remark row s ≡ ok (tt, s')
      → Settled by n s'
  unfolding approve_found
  approve_found-Settled n remark row s found e =
      let (r, s1, reviewed, e1) = bind-ok (lift (approve by at remark row)) _ s e in
      let (same, is) = lift-ok (approve by at remark row) s reviewed in
      let (id, reviewer) = approve-fields remark row r is in
      let named = id ∙ find_by-key (λ r. r.id) n s.agent_action_requests found in
      let there : find_request n s1.agent_action_requests ≡ some row =
        ap (λ (s : Store). find_request n s.agent_action_requests) same ∙ found in
      let (u, s2, flushed, e2) = bind-ok (flush_request row r) _ s1 e1 in
      finish-Settled n r (execute rebalancer text by at r.action r s2) s2
        (flush_request-row n row r s1 there named flushed) named reviewer
        ((Keeps-execute rebalancer text by at law s2.agent_action_requests r.action r).at s2 refl)
        e2

settled_request :
    (r : AgentActionRequest)
    → (r.status ≡ executed) ⊎ (r.status ≡ execution_failed)
    → ((by at : ℕ) (remark : Option ℕ) → approve by at remark r ≡ err invalid_transition)
      × ((by at remark : ℕ) → reject by at remark r ≡ err invalid_transition)
unfolding approve reject
settled_request r (inl e) = (λ by at remark. rw e refl, λ by at remark. rw e refl)
settled_request r (inr e) = (λ by at remark. rw e refl, λ by at remark. rw e refl)

-- An approval that returns has settled its request: it is on file as executed or as failed and names
-- the reviewer, and every later approval or rejection of it, by whomever,
-- raises. This needs of the rebalancing that it changes no request.
pub approve_request-once :
    (rebalancer other : Rebalancer) (text by at : ℕ) (remark : Option ℕ) (n : ℕ) (s : Store)
    {s' : Store}
    → IsRebalancer rebalancer
    → approve_request rebalancer text by at remark n s ≡ ok (tt, s')
    → Settled by n s'
      × ((text by at : ℕ) (remark : Option ℕ)
          → approve_request other text by at remark n s' ≡ err invalid_transition)
      × ((by at remark : ℕ) → reject_request by at remark n s' ≡ err invalid_transition)
unfolding approve_request approve_found reject_request
approve_request-once rebalancer other text by at remark n s {s'} law e =
    let found = find_request n s.agent_action_requests in
    let (row, s1, got, e1) = bind-ok (lift (require found request_not_found)) _ s e in
    let (same, is) = lift-ok (require found request_not_found) s got in
    let there : find_request n s1.agent_action_requests ≡ some row =
      ap (λ (s : Store). find_request n s.agent_action_requests) same
      ∙ require-ok found request_not_found is in
    let (r, at_end, status, who) =
      approve_found-Settled rebalancer text by at law n remark row s1 there e1 in
    let (no_approve, no_reject) = settled_request r status in
    (
      (r, at_end, status, who),
      λ text by at remark. rw (at_end, no_approve by at remark) refl,
      λ by at remark. rw (at_end, no_reject by at remark) refl,
    )
