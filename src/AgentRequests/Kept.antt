-- ===== src/AgentRequests/Kept.antt =====
-- The rows of the requests through a review: only a flush changes them.
use trueup.Prelude.{find_by-put_by, ℕ, ◌≡◌, ap, sym, ◌∙◌, some, List, ok, ok_injective}
use trueup.Errors.{Error}
use trueup.Store.{
  Store, lift, AgentActionType, resolve_break, kyc_override, rebalance, AgentActionRequest,
}
use trueup.Store.Keeps.{Keeps, Keeps-modify, keeps_rules, bind-ok, lift-ok}
use trueup.AgentRequests.Transitions.{check_update, find_request, put_request}
use trueup.AgentRequests.Review.{
  flush_request, Rebalancer, execute, execute_resolve_break, execute_kyc_override,
  execute_rebalance,
}

pub flush_request-row :
    (n : ℕ) (old new : AgentActionRequest) (s : Store) {s' : Store} {r : AgentActionRequest}
    → find_request n s.agent_action_requests ≡ some r
    → new.id ≡ n
    → flush_request old new s ≡ ok (tt, s')
    → find_request n s'.agent_action_requests ≡ some new
unfolding flush_request
flush_request-row n old new s {s'} row k e =
    let (u, s1, checked, e1) = bind-ok (lift (check_update old new)) _ s e in
    let (same, _) = lift-ok (check_update old new) s checked in
    let end = ok_injective {E = Error} e1 in
    ap (λ (p : Unit {0} × Store). find_request n p.1.agent_action_requests) (sym end)
    ∙ (ap (λ (s : Store). find_request n (put_request new s.agent_action_requests)) same
        ∙ find_by-put_by (λ r. r.id) n s.agent_action_requests new row k)

-- Nothing but a review touches the requests.
abbrev pub HasRequests : List AgentActionRequest → Store → Type 0
HasRequests rs s = s.agent_action_requests ≡ rs

abbrev pub IsRebalancer : Rebalancer → Type 0
IsRebalancer rebalancer =
    (rs : List AgentActionRequest) (customer : ℕ)
    → Keeps (HasRequests rs) (rebalancer.rebalance_customer customer)

Keeps-resolve_break :
    (rs : List AgentActionRequest) (text by at : ℕ) (row : AgentActionRequest)
    → Keeps (HasRequests rs) (execute_resolve_break text row by at)
unfolding execute_resolve_break
Keeps-resolve_break rs text by at row = search (keeps_rules, Keeps-modify) depth 24

Keeps-kyc_override :
    (rs : List AgentActionRequest) (row : AgentActionRequest)
    → Keeps (HasRequests rs) (execute_kyc_override row)
unfolding execute_kyc_override
Keeps-kyc_override rs row = search (keeps_rules, Keeps-modify) depth 24

module _ (rebalancer : Rebalancer) (text by at : ℕ) (law : IsRebalancer rebalancer) where
  pub Keeps-execute :
      (rs : List AgentActionRequest) (action : AgentActionType) (row : AgentActionRequest)
      → Keeps (HasRequests rs) (execute rebalancer text by at action row)
  unfolding execute execute_rebalance
  Keeps-execute rs resolve_break row = Keeps-resolve_break rs text by at row
  Keeps-execute rs kyc_override row = Keeps-kyc_override rs row
  Keeps-execute rs rebalance row = search (keeps_rules, law) depth 24
