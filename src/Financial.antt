-- ===== src/Financial.antt =====
-- mock-financial-service/src/financial_service: the bank's core, with its double-entry ledger.
pub mod Rows
pub mod Queries
pub mod Invariant
pub mod Account
pub mod Transfer
pub mod Cards
pub mod Closing
pub mod Bank
pub mod Tests
