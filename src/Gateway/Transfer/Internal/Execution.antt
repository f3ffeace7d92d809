-- ===== src/Gateway/Transfer/Internal/Execution.antt =====
-- When an internal transfer completes, and what it has then done.
use kdt_ai_2_hands_on_experi.Common.{ℕ, ◌≡◌, ◌≢◌, refl, sym, subst, true, Option, none, some}
use kdt_ai_2_hands_on_experi.Common.Int.{ℤ}
use kdt_ai_2_hands_on_experi.Gateway.Rows.{
  Account, AuthContext, Confirmation, ConfirmationOperation, ExecutionContext, FixedData, Store,
}
use kdt_ai_2_hands_on_experi.Gateway.Service.{Result, ok, err}
use kdt_ai_2_hands_on_experi.Gateway.Confirmation.{load_for_execute}
use kdt_ai_2_hands_on_experi.Gateway.Confirmation.Laws.{IsExecutable, load_for_execute_iff}
use kdt_ai_2_hands_on_experi.Gateway.AuthContext.{load_verified}
use kdt_ai_2_hands_on_experi.Gateway.AuthContext.Laws.{IsVerified, load_verified_iff}
use kdt_ai_2_hands_on_experi.Gateway.Bank.{Bank, LedgerRequest}
use kdt_ai_2_hands_on_experi.Gateway.Transfer.{
  Clock, ExecuteReply, TransferExecuteRequest, Violation, evaluate_internal_transfer,
  get_owned_account,
}
use kdt_ai_2_hands_on_experi.Gateway.Transfer.Limits.{IsWithin, evaluate_internal_transfer_iff}
use kdt_ai_2_hands_on_experi.Gateway.Transfer.Executed.{
  Completes, IsExecuted, complete_execution-IsExecuted, execute_moved-Completes,
}
use kdt_ai_2_hands_on_experi.Gateway.Transfer.Internal.{
  execute_accounts, execute_authenticated, execute_confirmed, execute_evaluated, execute_fixed,
  execute_internal_transfer, internal_request,
}

-- What lies behind a transfer that completed with the bank's transaction `t`.
pub record Executes (bank : Bank) (ctx : ExecutionContext) (req : TransferExecuteRequest)
    (clock : Clock) (s : Store) (st : bank.State) (t : ℕ) (s' : Store) (st' : bank.State)
    : Type 0 where
  pub c : Confirmation
  pub a : AuthContext
  pub from : Account
  pub to : Account
  pub amount : ℤ
  pub executable :
      IsExecutable ctx req.confirmation_id ConfirmationOperation.internal_transfer
        clock.confirmation_at s c
  pub authenticated : IsVerified ctx req.auth_context_id c clock.auth_at s a
  pub fixed :
      (from_id : ℕ) × (to_id : ℕ) × (c.fixed_data ≡ FixedData.internal_data from_id to_id amount)
      × (get_owned_account ctx.user_id from_id s.accounts ≡ some from)
      × (get_owned_account ctx.user_id to_id s.accounts ≡ some to)
  pub allowed :
      (from.id ≢ to.id)
      × (from.active ≡ true)
      × (to.active ≡ true)
      × IsWithin bank ctx clock from amount s st
  pub moved : bank.transfer st (internal_request c from to amount) ≡ (some t, st')
  pub executed : IsExecuted ctx clock.executed_at c a t s s'

module _ (bank : Bank) where
  execute_evaluated-Completes :
      (ctx : ExecutionContext) (now : ℕ) (c : Confirmation) (a : AuthContext) (r : LedgerRequest)
      (s : Store) (st : bank.State) (t : ℕ) (o : Result (Option Violation))
      → (execute_evaluated bank ctx now c a r s st o).0 ≡ ok (ExecuteReply.completed t)
      → (o ≡ ok none)
        × Completes bank ctx now c a r s st t (execute_evaluated bank ctx now c a r s st o)
  unfolding execute_evaluated
  execute_evaluated-Completes ctx now c a r s st t (err e) h = cc
  execute_evaluated-Completes ctx now c a r s st t (ok (some v)) h = cc
  execute_evaluated-Completes ctx now c a r s st t (ok none) h =
      (refl, execute_moved-Completes bank ctx now c a r s st t (bank.transfer st r) refl h)

  module _ (ctx : ExecutionContext) (req : TransferExecuteRequest) (clock : Clock) (s : Store)
      (st : bank.State) (t : ℕ) (c : Confirmation) (a : AuthContext)
      (executable : IsExecutable ctx req.confirmation_id ConfirmationOperation.internal_transfer
        clock.confirmation_at s c)
      (authenticated : IsVerified ctx req.auth_context_id c clock.auth_at s a) where
    execute_accounts-Executes :
        (from_id to_id : ℕ) (amount : ℤ) (from to : Option Account)
        → c.fixed_data ≡ FixedData.internal_data from_id to_id amount
        → get_owned_account ctx.user_id from_id s.accounts ≡ from
        → get_owned_account ctx.user_id to_id s.accounts ≡ to
        → (execute_accounts bank ctx clock c a amount s st from to).0
          ≡ ok (ExecuteReply.completed t)
        → let result = execute_accounts bank ctx clock c a amount s st from to in
          Executes bank ctx req clock s st t result.1 result.2
    unfolding execute_accounts Completes
    execute_accounts-Executes from_id to_id amount none to fixed found_from found_to h = cc
    execute_accounts-Executes from_id to_id amount (some from) none fixed found_from found_to h = cc
    execute_accounts-Executes from_id to_id amount (some from) (some to) fixed found_from found_to
          h =
        let (allowed, completes) =
          execute_evaluated-Completes ctx clock.executed_at c a (internal_request c from to amount)
            s st t (evaluate_internal_transfer bank ctx clock from to amount s st) h in
        record {
          c = c;
          a = a;
          from = from;
          to = to;
          amount = amount;
          executable = executable;
          authenticated = authenticated;
          fixed = (from_id, to_id, fixed, found_from, found_to);
          allowed = (evaluate_internal_transfer_iff bank ctx clock from to amount s st).0 allowed;
          moved = completes.0;
          executed =
              subst (λ s'. IsExecuted ctx clock.executed_at c a t s s') (sym completes.1)
                (complete_execution-IsExecuted ctx clock.executed_at c a t s executable.stored
                  executable.status);
        }

    execute_fixed-Executes :
        (fixed : FixedData)
        → c.fixed_data ≡ fixed
        → (execute_fixed bank ctx clock c a s st fixed).0 ≡ ok (ExecuteReply.completed t)
        → let result = execute_fixed bank ctx clock c a s st fixed in
          Executes bank ctx req clock s st t result.1 result.2
    unfolding execute_fixed
    execute_fixed-Executes (FixedData.internal_data from_id to_id amount) e h =
        execute_accounts-Executes from_id to_id amount _ _ e refl refl h
    execute_fixed-Executes (FixedData.external_data from_id to_id name amount) e h = cc
    execute_fixed-Executes (FixedData.default_account_data k) e h = cc
    execute_fixed-Executes (FixedData.account_alias_data k alias) e h = cc

  execute_authenticated-Executes :
      (ctx : ExecutionContext) (req : TransferExecuteRequest) (clock : Clock) (s : Store)
      (st : bank.State) (t : ℕ) (c : Confirmation) (o : Result (Option AuthContext))
      → load_verified ctx req.auth_context_id c clock.auth_at s ≡ o
      → IsExecutable ctx req.confirmation_id ConfirmationOperation.internal_transfer
          clock.confirmation_at s c
      → (execute_authenticated bank ctx clock c s st o).0 ≡ ok (ExecuteReply.completed t)
      → let result = execute_authenticated bank ctx clock c s st o in
        Executes bank ctx req clock s st t result.1 result.2
  unfolding execute_authenticated
  execute_authenticated-Executes ctx req clock s st t c (err e) loaded executable h = cc
  execute_authenticated-Executes ctx req clock s st t c (ok none) loaded executable h = cc
  execute_authenticated-Executes ctx req clock s st t c (ok (some a)) loaded executable h =
      execute_fixed-Executes ctx req clock s st t c a executable
        ((load_verified_iff ctx req.auth_context_id c clock.auth_at s a).0 loaded) c.fixed_data refl
        h

  execute_confirmed-Executes :
      (ctx : ExecutionContext) (req : TransferExecuteRequest) (clock : Clock) (s : Store)
      (st : bank.State) (t : ℕ) (o : Result Confirmation)
      → load_for_execute ctx req.confirmation_id ConfirmationOperation.internal_transfer
          clock.confirmation_at s
        ≡ o
      → (execute_confirmed bank ctx req clock s st o).0 ≡ ok (ExecuteReply.completed t)
      → let result = execute_confirmed bank ctx req clock s st o in
        Executes bank ctx req clock s st t result.1 result.2
  unfolding execute_confirmed
  execute_confirmed-Executes ctx req clock s st t (err e) loaded h = cc
  execute_confirmed-Executes ctx req clock s st t (ok c) loaded h =
      execute_authenticated-Executes ctx req clock s st t c _ refl
        ((load_for_execute_iff ctx req.confirmation_id ConfirmationOperation.internal_transfer
            clock.confirmation_at s c).0
          loaded)
        h

-- A completed internal transfer was executed for an approved, unexpired confirmation of the user and a
-- verified, unexpired authentication for it, between the user's two different active accounts that the
-- confirmation fixed, within the limits at the bank's balance; the ledger moved the fixed amount between
-- their numbers under the confirmation's own key; the confirmation is then executed, one audit row
-- names the transaction, and no other confirmation and no authentication has changed.
pub execute_internal_transfer-Executes :
    (bank : Bank) (ctx : ExecutionContext) (req : TransferExecuteRequest) (clock : Clock)
    (s : Store) (st : bank.State) (t : ℕ)
    → (execute_internal_transfer bank ctx req clock s st).0 ≡ ok (ExecuteReply.completed t)
    → let result = execute_internal_transfer bank ctx req clock s st in
      Executes bank ctx req clock s st t result.1 result.2
unfolding execute_internal_transfer
execute_internal_transfer-Executes bank ctx req clock s st t h =
    execute_confirmed-Executes bank ctx req clock s st t _ refl h
