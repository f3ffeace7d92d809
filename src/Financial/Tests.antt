-- ===== src/Financial/Tests.antt =====
-- A small bank that runs, and the theorems applied to it.
pub mod Town
mod Transfers
mod Cards
mod Days
