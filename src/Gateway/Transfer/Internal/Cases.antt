-- ===== src/Gateway/Transfer/Internal/Cases.antt =====
-- The ways in which an execution between accounts of one user can end.
use kdt_ai_2_hands_on_experi.Common.{ℕ, Option, none, some}
use kdt_ai_2_hands_on_experi.Common.Int.{ℤ}
use kdt_ai_2_hands_on_experi.Gateway.Rows.{
  Account, AuthContext, Confirmation, ConfirmationOperation, ExecutionContext, FixedData, Store,
}
use kdt_ai_2_hands_on_experi.Gateway.Service.{Result, ok, err}
use kdt_ai_2_hands_on_experi.Gateway.Confirmation.{load_for_execute}
use kdt_ai_2_hands_on_experi.Gateway.AuthContext.{load_verified}
use kdt_ai_2_hands_on_experi.Gateway.Bank.{Bank, LedgerRequest}
use kdt_ai_2_hands_on_experi.Gateway.Transfer.{
  Clock, ExecuteReply, TransferExecuteRequest, Violation, evaluate_internal_transfer,
  get_owned_account,
}
use kdt_ai_2_hands_on_experi.Gateway.Transfer.Internal.{
  execute_accounts, execute_authenticated, execute_confirmed, execute_evaluated, execute_fixed,
  execute_internal_transfer, execute_moved, internal_request, invalidate_pair,
}

-- A property of every reply that leaves the bank and the rows alone, of every reply that only
-- invalidates, and of what follows a call of the ledger, is a property of every execution.
module _ (bank : Bank) (ctx : ExecutionContext) (clock : Clock) (s : Store) (st : bank.State)
    (Q : Result ExecuteReply × Store × bank.State → Type 0)
    (still : (reply : Result ExecuteReply) → Q (reply, s, st))
    (refused : (reply : Result ExecuteReply) (c : Confirmation) (a : AuthContext)
      → Q (reply, invalidate_pair c a s, st))
    (after : (now : ℕ) (c : Confirmation) (a : AuthContext) (r : LedgerRequest)
      → Q (execute_moved bank ctx now c a s (bank.transfer st r))) where
  execute_evaluated-cases :
      (now : ℕ) (c : Confirmation) (a : AuthContext) (r : LedgerRequest)
      (o : Result (Option Violation))
      → Q (execute_evaluated bank ctx now c a r s st o)
  unfolding execute_evaluated
  execute_evaluated-cases now c a r (err e) = still (err e)
  execute_evaluated-cases now c a r (ok (some v)) = refused _ c a
  execute_evaluated-cases now c a r (ok none) = after now c a r

  execute_accounts-cases :
      (c : Confirmation) (a : AuthContext) (amount : ℤ) (from to : Option Account)
      → Q (execute_accounts bank ctx clock c a amount s st from to)
  unfolding execute_accounts
  execute_accounts-cases c a amount none to = refused _ c a
  execute_accounts-cases c a amount (some from) none = refused _ c a
  execute_accounts-cases c a amount (some from) (some to) =
      execute_evaluated-cases clock.executed_at c a (internal_request c from to amount)
        (evaluate_internal_transfer bank ctx clock from to amount s st)

  execute_fixed-cases :
      (c : Confirmation) (a : AuthContext) (fixed : FixedData)
      → Q (execute_fixed bank ctx clock c a s st fixed)
  unfolding execute_fixed
  execute_fixed-cases c a (FixedData.internal_data from to amount) =
      execute_accounts-cases c a amount (get_owned_account ctx.user_id from s.accounts)
        (get_owned_account ctx.user_id to s.accounts)
  execute_fixed-cases c a (FixedData.external_data from to name amount) = still _
  execute_fixed-cases c a (FixedData.default_account_data k) = still _
  execute_fixed-cases c a (FixedData.account_alias_data k alias) = still _

  execute_authenticated-cases :
      (c : Confirmation) (o : Result (Option AuthContext))
      → Q (execute_authenticated bank ctx clock c s st o)
  unfolding execute_authenticated
  execute_authenticated-cases c (err e) = still (err e)
  execute_authenticated-cases c (ok none) = still _
  execute_authenticated-cases c (ok (some a)) = execute_fixed-cases c a c.fixed_data

  execute_confirmed-cases :
      (req : TransferExecuteRequest) (o : Result Confirmation)
      → Q (execute_confirmed bank ctx req clock s st o)
  unfolding execute_confirmed
  execute_confirmed-cases req (err e) = still (err e)
  execute_confirmed-cases req (ok c) =
      execute_authenticated-cases c (load_verified ctx req.auth_context_id c clock.auth_at s)

  pub execute_internal_transfer-cases :
      (req : TransferExecuteRequest) → Q (execute_internal_transfer bank ctx req clock s st)
  unfolding execute_internal_transfer
  execute_internal_transfer-cases req = execute_confirmed-cases req (
      load_for_execute ctx req.confirmation_id ConfirmationOperation.internal_transfer
        clock.confirmation_at s)
