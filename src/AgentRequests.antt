-- ===== src/AgentRequests.antt =====
-- models/ops/agent_action_request.py and controllers/admin/agent_requests.py: what an agent proposes
-- and a person approves or rejects.
pub mod Transitions
pub mod Lifetime
pub mod Review
pub mod Kept
pub mod Once
