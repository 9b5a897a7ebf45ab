-- ===== src/Tests.antt =====
-- The theorems at concrete inputs, and runs of the model that show what the code does there.
mod Values
mod Books
mod LotRuns
mod OrderRuns
mod Events
mod Reviews
mod Charges
mod Designations
mod Mornings
mod Splits
mod Publications
mod Requests
mod Rebalances
mod Signals
mod Billings
