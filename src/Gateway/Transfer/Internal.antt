-- ===== src/Gateway/Transfer/Internal.antt =====
-- services/agent_tools/transfer_service.py: `prepare_internal_transfer` and
-- `execute_internal_transfer`.
pub mod Execution
pub mod Once
pub mod Cases
pub mod Preparation
pub mod Retry
use kdt_ai_2_hands_on_experi.Common.{ℕ, false, Option, none, some, [], ◌∷◌, if◌then◌else◌}
use kdt_ai_2_hands_on_experi.Common.Int.{ℤ}
use kdt_ai_2_hands_on_experi.Gateway.Rows.{
  Account, AuditEvent, AuthContext, Confirmation, ConfirmationOperation, ExecutionContext,
  FinancialAuditLog, FixedData, Store,
}
use kdt_ai_2_hands_on_experi.Gateway.Service.{Error, Result, ok, err}
use kdt_ai_2_hands_on_experi.Gateway.Confirmation
use kdt_ai_2_hands_on_experi.Gateway.Confirmation.{create_pending, load_for_execute, mark_executed}
use kdt_ai_2_hands_on_experi.Gateway.AuthContext
use kdt_ai_2_hands_on_experi.Gateway.AuthContext.{load_verified, record_audit}
use kdt_ai_2_hands_on_experi.Gateway.Bank.{Bank, LedgerRequest, internal_key}
use kdt_ai_2_hands_on_experi.Gateway.Transfer.{
  Clock, ExecuteReply, PrepareReply, TransferExecuteRequest, Violation, bank_name_of,
  evaluate_internal_transfer, get_owned_account, load_owned, account_inactive, from_target,
  to_target,
}

-- An id is what `UUID(raw)` gave, `none` where it raised. The amount is positive by the schema.
pub record InternalTransferPrepareRequest : Type 0 where
  pub from_account_id : Option ℕ
  pub to_account_id : Option ℕ
  pub amount : ℤ

abbrev pub created_log : ExecutionContext → Confirmation → FinancialAuditLog
created_log ctx c = record {
  user_id = ctx.user_id;
  event_type = AuditEvent.confirmation_created;
  operation = c.operation;
  confirmation_id = c.id;
  auth_context_id = none;
  transaction_id = none;
}

abbrev pub completed_log : ExecutionContext → Confirmation → AuthContext → ℕ → FinancialAuditLog
completed_log ctx c a t = record {
  user_id = ctx.user_id;
  event_type = AuditEvent.financial_execution_completed;
  operation = c.operation;
  confirmation_id = c.id;
  auth_context_id = some a.id;
  transaction_id = some t;
}

-- The confirmation and its authentication can serve no more.
abbrev pub invalidate_pair : Confirmation → AuthContext → Store → Store
invalidate_pair c a s = AuthContext.invalidate a (Confirmation.invalidate c s)

-- `_ledger_idempotency_key` and the arguments of `_move_ledger`
abbrev pub internal_request : Confirmation → (from to : Account) → ℤ → LedgerRequest
internal_request c from to amount = record {
  sender_account_number = from.account_number;
  receiver_bank_name = bank_name_of to;
  receiver_account_number = to.account_number;
  amount = amount;
  idempotency_key = internal_key c.id;
}

-- After the ledger moved: only the call that turns the row to EXECUTED writes the audit event.
unfoldable pub complete_execution :
    ExecutionContext → ℕ → Confirmation → AuthContext → ℕ → Store → Store
unfolding mark_executed
complete_execution ctx now c a t s =
    let (won, s') = mark_executed now c s in
    if won then record_audit (completed_log ctx c a t) s' else s'

module _ (bank : Bank) where
  open bank use {State, transfer}

  prepare_evaluated :
      ExecutionContext
      → InternalTransferPrepareRequest
      → ℕ
      → ℕ
      → (from to : Account) → Store
      → Result (Option Violation)
      → Result PrepareReply × Store
  unfolding create_pending
  prepare_evaluated ctx req now id from to s (err e) = (err e, s)
  prepare_evaluated ctx req now id from to s (ok (some v)) =
      (ok (PrepareReply.correction_required v), s)
  prepare_evaluated ctx req now id from to s (ok none) =
      let (c, s') =
        create_pending ctx ConfirmationOperation.internal_transfer
          (FixedData.internal_data from.id to.id req.amount) now id s in
      (ok (PrepareReply.ready_for_confirmation c false), record_audit (created_log ctx c) s')

  prepare_loaded :
      ExecutionContext
      → InternalTransferPrepareRequest
      → Clock
      → ℕ
      → Store
      → State
      → Result Account
      → Result Account
      → Result PrepareReply × Store
  unfolding prepare_evaluated evaluate_internal_transfer
  prepare_loaded ctx req clock id s st (err e) to = (err e, s)
  prepare_loaded ctx req clock id s st (ok from) (err e) = (err e, s)
  prepare_loaded ctx req clock id s st (ok from) (ok to) =
      prepare_evaluated ctx req clock.confirmation_at id from to s
        (evaluate_internal_transfer bank ctx clock from to req.amount s st)

  -- `id` is the id that the database draws for the confirmation.
  unfoldable pub prepare_internal_transfer :
      ExecutionContext
      → InternalTransferPrepareRequest
      → Clock
      → ℕ
      → Store
      → State
      → Result PrepareReply × Store
  unfolding prepare_loaded load_owned
  prepare_internal_transfer ctx req clock id s st =
      prepare_loaded ctx req clock id s st (load_owned ctx req.from_account_id s)
        (load_owned ctx req.to_account_id s)

  -- A failed ledger call is a technical error; the confirmation stays as it is.
  unfoldable pub execute_moved :
      ExecutionContext
      → ℕ
      → Confirmation
      → AuthContext
      → Store
      → Option ℕ × State
      → Result ExecuteReply × Store × State
  unfolding complete_execution
  execute_moved ctx now c a s (none, st) = (err Error.backend_temporary_error, s, st)
  execute_moved ctx now c a s (some t, st) =
      (ok (ExecuteReply.completed t), complete_execution ctx now c a t s, st)

  execute_evaluated :
      ExecutionContext
      → ℕ
      → Confirmation
      → AuthContext
      → LedgerRequest
      → Store
      → State
      → Result (Option Violation)
      → Result ExecuteReply × Store × State
  unfolding execute_moved
  execute_evaluated ctx now c a r s st (err e) = (err e, s, st)
  execute_evaluated ctx now c a r s st (ok (some v)) =
      (ok (ExecuteReply.correction_required v), invalidate_pair c a s, st)
  execute_evaluated ctx now c a r s st (ok none) = execute_moved ctx now c a s (transfer st r)

  execute_accounts :
      ExecutionContext
      → Clock
      → Confirmation
      → AuthContext
      → ℤ
      → Store
      → State
      → Option Account
      → Option Account
      → Result ExecuteReply × Store × State
  unfolding execute_evaluated evaluate_internal_transfer
  execute_accounts ctx clock c a amount s st (some from) (some to) =
      execute_evaluated ctx clock.executed_at c a (internal_request c from to amount) s st
        (evaluate_internal_transfer bank ctx clock from to amount s st)
  execute_accounts ctx clock c a amount s st from to = (
    ok (
        ExecuteReply.correction_required
          (record { reason = account_inactive; targets = from_target ∷ to_target ∷ [] })),
    invalidate_pair c a s,
    st,
  )

  execute_fixed :
      ExecutionContext
      → Clock
      → Confirmation
      → AuthContext
      → Store
      → State
      → FixedData
      → Result ExecuteReply × Store × State
  unfolding execute_accounts
  execute_fixed ctx clock c a s st (FixedData.internal_data from to amount) =
      execute_accounts ctx clock c a amount s st (get_owned_account ctx.user_id from s.accounts)
        (get_owned_account ctx.user_id to s.accounts)
  execute_fixed ctx clock c a s st other = (err Error.key_error, s, st)

  execute_authenticated :
      ExecutionContext
      → Clock
      → Confirmation
      → Store
      → State
      → Result (Option AuthContext)
      → Result ExecuteReply × Store × State
  unfolding execute_fixed
  execute_authenticated ctx clock c s st (err e) = (err e, s, st)
  execute_authenticated ctx clock c s st (ok none) =
      (ok ExecuteReply.reauthentication_required, s, st)
  execute_authenticated ctx clock c s st (ok (some a)) =
      execute_fixed ctx clock c a s st c.fixed_data

  execute_confirmed :
      ExecutionContext
      → TransferExecuteRequest
      → Clock
      → Store
      → State
      → Result Confirmation
      → Result ExecuteReply × Store × State
  unfolding execute_authenticated load_verified
  execute_confirmed ctx req clock s st (err e) = (err e, s, st)
  execute_confirmed ctx req clock s st (ok c) =
      execute_authenticated ctx clock c s st
        (load_verified ctx req.auth_context_id c clock.auth_at s)

  unfoldable pub execute_internal_transfer :
      ExecutionContext
      → TransferExecuteRequest
      → Clock
      → Store
      → State
      → Result ExecuteReply × Store × State
  unfolding execute_confirmed load_for_execute
  execute_internal_transfer ctx req clock s st = execute_confirmed ctx req clock s st (
      load_for_execute ctx req.confirmation_id ConfirmationOperation.internal_transfer
        clock.confirmation_at s)
