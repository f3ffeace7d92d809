-- ===== src/Gateway/Rows.antt =====
-- models/*.py: the gateway's own tables as lists of rows, the newest row first. UUIDs are numbers,
-- times are seconds, and names are lists of code points.
use kdt_ai_2_hands_on_experi.Common.{ℕ, Bool, true, false, Option, List}
use kdt_ai_2_hands_on_experi.Common.Int.{ℤ}

pub record Account : Type 0 where
  pub id : ℕ
  pub user_id : ℕ
  pub account_number : ℕ
  pub active : Bool
  pub bank_name : Option ℕ
  pub external_account_id : Option ℕ
  pub is_default : Bool
  pub alias : Option (List ℕ)

pub data ConfirmationStatus : Type 0 where
  pending approved invalidated cancelled executed expired : ConfirmationStatus

pub data ConfirmationOperation : Type 0 where
  default_account_change account_alias_change : ConfirmationOperation
  internal_transfer external_transfer : ConfirmationOperation

-- The JSON of `fixed_data`: what `prepare` wrote for each kind of operation.
pub data FixedData : Type 0 where
  internal_data : (from_account to_account : ℕ) → ℤ → FixedData
  external_data : (from_account recipient_account : ℕ) → List ℕ → ℤ → FixedData
  default_account_data : ℕ → FixedData
  account_alias_data : ℕ → List ℕ → FixedData

pub record Confirmation : Type 0 where
  pub id : ℕ
  pub execution_context_id : ℕ
  pub user_id : ℕ
  pub operation : ConfirmationOperation
  pub status : ConfirmationStatus
  pub fixed_data : FixedData
  pub expires_at : ℕ
  pub approved_at : Option ℕ
  pub executed_at : Option ℕ

pub data AuthContextStatus : Type 0 where
  pending verified failed cancelled expired : AuthContextStatus

pub record AuthContext : Type 0 where
  pub id : ℕ
  pub confirmation_id : ℕ
  pub user_id : ℕ
  pub status : AuthContextStatus
  pub expires_at : ℕ
  pub verified_at : Option ℕ

pub data CandidateStatus : Type 0 where
  verified consumed : CandidateStatus

pub record RecipientCandidate : Type 0 where
  pub id : ℕ
  pub user_id : ℕ
  pub recipient_account_id : ℕ
  pub resolved_name : List ℕ
  pub status : CandidateStatus
  pub expires_at : ℕ

pub data AuditEvent : Type 0 where
  confirmation_created auth_context_created financial_execution_completed : AuditEvent
  setting_change_completed : AuditEvent

pub record FinancialAuditLog : Type 0 where
  pub user_id : ℕ
  pub event_type : AuditEvent
  pub operation : ConfirmationOperation
  pub confirmation_id : ℕ
  pub auth_context_id : Option ℕ
  pub transaction_id : Option ℕ

pub record Store : Type 0 where
  pub accounts : List Account
  pub confirmations : List Confirmation
  pub auth_contexts : List AuthContext
  pub candidates : List RecipientCandidate
  pub audit_logs : List FinancialAuditLog

-- `ResolvedExecutionContext`
pub record ExecutionContext : Type 0 where
  pub execution_context_id : ℕ
  pub user_id : ℕ

abbrev pub status_eq : ConfirmationStatus → ConfirmationStatus → Bool
status_eq ConfirmationStatus.pending ConfirmationStatus.pending = true
status_eq ConfirmationStatus.approved ConfirmationStatus.approved = true
status_eq ConfirmationStatus.invalidated ConfirmationStatus.invalidated = true
status_eq ConfirmationStatus.cancelled ConfirmationStatus.cancelled = true
status_eq ConfirmationStatus.executed ConfirmationStatus.executed = true
status_eq ConfirmationStatus.expired ConfirmationStatus.expired = true
status_eq _ _ = false

abbrev pub operation_eq : ConfirmationOperation → ConfirmationOperation → Bool
operation_eq ConfirmationOperation.default_account_change
      ConfirmationOperation.default_account_change =
    true
operation_eq ConfirmationOperation.account_alias_change ConfirmationOperation.account_alias_change =
    true
operation_eq ConfirmationOperation.internal_transfer ConfirmationOperation.internal_transfer = true
operation_eq ConfirmationOperation.external_transfer ConfirmationOperation.external_transfer = true
operation_eq _ _ = false

abbrev pub auth_status_eq : AuthContextStatus → AuthContextStatus → Bool
auth_status_eq AuthContextStatus.pending AuthContextStatus.pending = true
auth_status_eq AuthContextStatus.verified AuthContextStatus.verified = true
auth_status_eq AuthContextStatus.failed AuthContextStatus.failed = true
auth_status_eq AuthContextStatus.cancelled AuthContextStatus.cancelled = true
auth_status_eq AuthContextStatus.expired AuthContextStatus.expired = true
auth_status_eq _ _ = false
