-- ===== src/Gateway/Transfer/ExternalExecution.antt =====
-- services/agent_tools/transfer_service.py: `execute_external_transfer`.
pub mod Execution
pub mod Cases
use kdt_ai_2_hands_on_experi.Common.{ℕ, Bool, true, not, Option, none, some, [], ◌∷◌, if◌then◌else◌}
use kdt_ai_2_hands_on_experi.Common.Int.{ℤ}
use kdt_ai_2_hands_on_experi.Gateway.Rows.{
  Account, AuthContext, Confirmation, ConfirmationOperation, ExecutionContext, FixedData, Store,
}
use kdt_ai_2_hands_on_experi.Gateway.Service.{Error, Result, ok, err}
use kdt_ai_2_hands_on_experi.Gateway.Confirmation.{load_for_execute}
use kdt_ai_2_hands_on_experi.Gateway.AuthContext.{load_verified}
use kdt_ai_2_hands_on_experi.Gateway.Bank.{Bank, LedgerRequest}
use kdt_ai_2_hands_on_experi.Gateway.Transfer.{
  Clock, ExecuteReply, TransferExecuteRequest, Violation, evaluate_withdrawal, get_account,
  get_owned_account, account_inactive, from_target,
}
use kdt_ai_2_hands_on_experi.Gateway.Transfer.Internal.{invalidate_pair, execute_moved}
use kdt_ai_2_hands_on_experi.Gateway.Transfer.External.{
  external_request, is_refused, recipient_correction,
}

abbrev inactive_correction : Violation
inactive_correction = record { reason = account_inactive; targets = from_target ∷ [] }

module _ (bank : Bank) where
  open bank use {State, transfer}

  abbrev refuse :
      Violation → Confirmation → AuthContext → Store → State → Result ExecuteReply × Store × State
  refuse v c a s st = (ok (ExecuteReply.correction_required v), invalidate_pair c a s, st)

  execute_evaluated :
      ExecutionContext
      → ℕ
      → Confirmation
      → AuthContext
      → LedgerRequest
      → Store
      → State
      → Result (Option Violation)
      → Result ExecuteReply × Store × State
  unfolding execute_moved
  execute_evaluated ctx now c a r s st (err e) = (err e, s, st)
  execute_evaluated ctx now c a r s st (ok (some v)) = refuse v c a s st
  execute_evaluated ctx now c a r s st (ok none) = execute_moved bank ctx now c a s (transfer st r)

  execute_recipient :
      ExecutionContext
      → Clock
      → Confirmation
      → AuthContext
      → ℤ
      → Store
      → State
      → Account
      → Option Account
      → Result ExecuteReply × Store × State
  unfolding execute_evaluated evaluate_withdrawal
  execute_recipient ctx clock c a amount s st from none = refuse recipient_correction c a s st
  execute_recipient ctx clock c a amount s st from (some to) =
      if is_refused ctx to
      then refuse recipient_correction c a s st
      else execute_evaluated ctx clock.executed_at c a (external_request c from to amount) s st
          (evaluate_withdrawal bank ctx clock from amount s st)

  execute_accounts :
      ExecutionContext
      → Clock
      → Confirmation
      → AuthContext
      → ℤ
      → Store
      → State
      → Option Account
      → Option Account
      → Result ExecuteReply × Store × State
  unfolding execute_recipient
  execute_accounts ctx clock c a amount s st none to = refuse inactive_correction c a s st
  execute_accounts ctx clock c a amount s st (some from) to =
      if not from.active
      then refuse inactive_correction c a s st
      else execute_recipient ctx clock c a amount s st from to

  execute_fixed :
      ExecutionContext
      → Clock
      → Confirmation
      → AuthContext
      → Store
      → State
      → FixedData
      → Result ExecuteReply × Store × State
  unfolding execute_accounts
  execute_fixed ctx clock c a s st (FixedData.external_data from to name amount) =
      execute_accounts ctx clock c a amount s st (get_owned_account ctx.user_id from s.accounts)
        (get_account to s.accounts)
  execute_fixed ctx clock c a s st other = (err Error.key_error, s, st)

  execute_authenticated :
      ExecutionContext
      → Clock
      → Confirmation
      → Store
      → State
      → Result (Option AuthContext)
      → Result ExecuteReply × Store × State
  unfolding execute_fixed
  execute_authenticated ctx clock c s st (err e) = (err e, s, st)
  execute_authenticated ctx clock c s st (ok none) =
      (ok ExecuteReply.reauthentication_required, s, st)
  execute_authenticated ctx clock c s st (ok (some a)) =
      execute_fixed ctx clock c a s st c.fixed_data

  execute_confirmed :
      ExecutionContext
      → TransferExecuteRequest
      → Clock
      → Store
      → State
      → Result Confirmation
      → Result ExecuteReply × Store × State
  unfolding execute_authenticated load_verified
  execute_confirmed ctx req clock s st (err e) = (err e, s, st)
  execute_confirmed ctx req clock s st (ok c) =
      execute_authenticated ctx clock c s st
        (load_verified ctx req.auth_context_id c clock.auth_at s)

  unfoldable pub execute_external_transfer :
      ExecutionContext
      → TransferExecuteRequest
      → Clock
      → Store
      → State
      → Result ExecuteReply × Store × State
  unfolding execute_confirmed load_for_execute
  execute_external_transfer ctx req clock s st = execute_confirmed ctx req clock s st (
      load_for_execute ctx req.confirmation_id ConfirmationOperation.external_transfer
        clock.confirmation_at s)
