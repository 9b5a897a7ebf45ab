-- ===== src/Lots.antt =====
-- services/lots: the tax lots that a buy opens and a sale consumes, and the wash-sale rule.
pub mod Table
pub mod Sale
pub mod Totals
pub mod Rounds
pub mod Conserved
pub mod WashSale
pub mod Fills
pub mod Balanced
pub mod Disallowed
pub mod Once
pub mod Multiples
pub mod Splits
pub mod CorporateActions
pub mod ActionsBalanced
