-- ===== src/Restatement.antt =====
-- services/restatement: what a correction does to figures that were published before.
pub mod Snapshots
pub mod Service
pub mod Derived
pub mod Writes
pub mod Undisturbed
pub mod Filled
pub mod Recomputed
pub mod Current
pub mod Published
