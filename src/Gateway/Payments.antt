-- ===== src/Gateway/Payments.antt =====
-- The gateway as a whole: its operations on money and settings as steps on its rows and the bank.
pub mod Paid
mod Steps
mod Settings
mod Served
pub mod Reachable
pub mod Accounts
pub mod Terms
use kdt_ai_2_hands_on_experi.Common.{ℕ, Bool, Option}
use kdt_ai_2_hands_on_experi.Gateway.Rows.{Account, ExecutionContext, Store}
use kdt_ai_2_hands_on_experi.Gateway.Confirmation.{Component, resume_after_approval}
use kdt_ai_2_hands_on_experi.Gateway.AuthContext.{Attempt, authenticate, create_auth_context}
use kdt_ai_2_hands_on_experi.Gateway.Bank.{Bank, LedgerRequest}
use kdt_ai_2_hands_on_experi.Gateway.Transfer.{Clock, TransferExecuteRequest}
use kdt_ai_2_hands_on_experi.Gateway.Transfer.Internal.{
  InternalTransferPrepareRequest, execute_internal_transfer, prepare_internal_transfer,
}
use kdt_ai_2_hands_on_experi.Gateway.Transfer.External.{
  ExternalTransferPrepareRequest, prepare_external_transfer,
}
use kdt_ai_2_hands_on_experi.Gateway.Transfer.ExternalExecution.{execute_external_transfer}
use kdt_ai_2_hands_on_experi.Common.Texts.{Text}
use kdt_ai_2_hands_on_experi.Gateway.Setting.{
  execute_account_alias, execute_default_account, prepare_account_alias, prepare_default_account,
}

-- A request to the gateway with what the clock and the database draw for it. `bank_request` is a
-- transfer that another client of the bank makes in between.
pub data Request : Type 0 where
  prepare_internal_request : ExecutionContext → InternalTransferPrepareRequest → Clock → ℕ → Request
  prepare_external_request : ExecutionContext → ExternalTransferPrepareRequest → Clock → ℕ → Request
  decide_request : Component → (user : ℕ) → Option ℕ → (now : ℕ) → Bool → Request
  auth_request : ExecutionContext → Option ℕ → (now id : ℕ) → Request
  attempt_request : (user : ℕ) → Option ℕ → (now : ℕ) → Attempt → Request
  execute_internal_request : ExecutionContext → TransferExecuteRequest → Clock → Request
  execute_external_request : ExecutionContext → TransferExecuteRequest → Clock → Request
  prepare_default_request : ExecutionContext → Option ℕ → (now id : ℕ) → Request
  prepare_alias_request : ExecutionContext → Option ℕ → Text → (now id : ℕ) → Request
  execute_default_request : ExecutionContext → Option ℕ → (checked_at now : ℕ) → Request
  execute_alias_request : ExecutionContext → Option ℕ → (checked_at now : ℕ) → Request
  bank_request : LedgerRequest → Request

-- `lower` is Unicode's table of lower-case letters, which the policy on aliases reads.
module _ (bank : Bank) (lower : Text → Text) where
  unfoldable pub serve : Request → Store × bank.State → Store × bank.State
  serve (prepare_internal_request ctx req clock id) (s, st) =
      ((prepare_internal_transfer bank ctx req clock id s st).1, st)
  serve (prepare_external_request ctx req clock id) (s, st) =
      ((prepare_external_transfer bank ctx req clock id s st).1, st)
  serve (decide_request component user k now approves) (s, st) =
      ((resume_after_approval component user k now approves s).1, st)
  serve (auth_request ctx k now id) (s, st) = ((create_auth_context ctx k now id s).1, st)
  serve (attempt_request user k now attempt) (s, st) = ((authenticate user k now attempt s).1, st)
  serve (execute_internal_request ctx req clock) (s, st) =
      let result = execute_internal_transfer bank ctx req clock s st in (result.1, result.2)
  serve (execute_external_request ctx req clock) (s, st) =
      let result = execute_external_transfer bank ctx req clock s st in (result.1, result.2)
  serve (prepare_default_request ctx k now id) (s, st) =
      ((prepare_default_account ctx k now id s).1, st)
  serve (prepare_alias_request ctx k raw now id) (s, st) =
      ((prepare_account_alias lower ctx k raw now id s).1, st)
  serve (execute_default_request ctx k checked_at now) (s, st) =
      ((execute_default_account ctx k checked_at now s).1, st)
  serve (execute_alias_request ctx k checked_at now) (s, st) =
      ((execute_account_alias lower ctx k checked_at now s).1, st)
  serve (bank_request r) (s, st) = (s, (bank.transfer st r).1)
