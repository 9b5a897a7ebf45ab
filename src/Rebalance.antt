-- ===== src/Rebalance.antt =====
-- services/rebalance: how far a customer's holdings are from the assigned model, and the orders that
-- bring them back.
pub mod Drift
pub mod Generation
pub mod Capped
