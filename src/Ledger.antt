-- ===== src/Ledger.antt =====
-- The ledger: accounts, journal entries, settlement obligations and the cash policy.
pub mod Accounts
pub mod Entries
pub mod Balance
pub mod Written
pub mod Kept
pub mod Apart
pub mod Settlement
pub mod CashPolicy
