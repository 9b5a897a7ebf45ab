-- ===== src/Reconciliation.antt =====
-- models/reconciliation and services/reconciliation: what the custodian's files say against what the
-- tables say, and the breaks that the difference opens.
pub mod Breaks
pub mod Files
pub mod Loops
pub mod Morning
pub mod Keys
pub mod Sides
pub mod Agrees
pub mod Agreement
