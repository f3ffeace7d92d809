-- ===== src/Integration/Tests.antt =====
-- One transfer from its preparation to its execution on the bank, and the theorems applied to it.
mod Office
mod Approvals
mod Retries
mod Executions
mod Settings
mod External
