-- ===== src/Gateway.antt =====
-- backend/src/backend: the gateway that prepares, confirms, authenticates and executes transfers.
pub mod Rows
pub mod Service
pub mod Idempotency
pub mod Confirmation
pub mod AuthContext
pub mod Bank
pub mod Transfer
pub mod Recipient
pub mod PendingInput
pub mod Setting
pub mod Payments
