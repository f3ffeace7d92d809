-- ===== src/Gateway/Transfer/ExternalExecution/Execution.antt =====
-- When an external transfer completes, and what it has then done.
use kdt_ai_2_hands_on_experi.Common.{
  ℕ, ◌≡◌, ◌≢◌, refl, sym, subst, true, Option, none, some, List, not, if_rule, arith,
}
use kdt_ai_2_hands_on_experi.Common.Int.{ℤ}
use kdt_ai_2_hands_on_experi.Gateway.Rows.{
  Account, AuthContext, Confirmation, ConfirmationOperation, ExecutionContext, FixedData, Store,
}
use kdt_ai_2_hands_on_experi.Gateway.Service.{Result, ok, err}
use kdt_ai_2_hands_on_experi.Gateway.Confirmation.{load_for_execute}
use kdt_ai_2_hands_on_experi.Gateway.Confirmation.Laws.{IsExecutable, load_for_execute_iff}
use kdt_ai_2_hands_on_experi.Gateway.AuthContext.{load_verified}
use kdt_ai_2_hands_on_experi.Gateway.AuthContext.Laws.{IsVerified, load_verified_iff}
use kdt_ai_2_hands_on_experi.Gateway.Bank.{Bank, LedgerRequest}
use kdt_ai_2_hands_on_experi.Gateway.Transfer.{
  Clock, ExecuteReply, TransferExecuteRequest, Violation, evaluate_withdrawal, get_account,
  get_owned_account,
}
use kdt_ai_2_hands_on_experi.Gateway.Transfer.Limits.{IsWithin, evaluate_withdrawal_iff}
use kdt_ai_2_hands_on_experi.Gateway.Transfer.Executed.{
  Completes, IsExecuted, complete_execution-IsExecuted, execute_moved-Completes,
}
use kdt_ai_2_hands_on_experi.Gateway.Transfer.External.{external_request, is_refused}
use kdt_ai_2_hands_on_experi.Gateway.Transfer.ExternalExecution.{
  execute_accounts, execute_authenticated, execute_confirmed, execute_evaluated, execute_fixed,
  execute_recipient, execute_external_transfer,
}

-- What lies behind a transfer that completed with the bank's transaction `t`.
pub record Executes (bank : Bank) (ctx : ExecutionContext) (req : TransferExecuteRequest)
    (clock : Clock) (s : Store) (st : bank.State) (t : ℕ) (s' : Store) (st' : bank.State)
    : Type 0 where
  pub c : Confirmation
  pub a : AuthContext
  pub from : Account
  pub to : Account
  pub amount : ℤ
  pub executable :
      IsExecutable ctx req.confirmation_id ConfirmationOperation.external_transfer
        clock.confirmation_at s c
  pub authenticated : IsVerified ctx req.auth_context_id c clock.auth_at s a
  pub fixed :
      (from_id : ℕ) × (to_id : ℕ) × (name : List ℕ) × (c.fixed_data
        ≡ FixedData.external_data from_id to_id name amount)
      × (get_owned_account ctx.user_id from_id s.accounts ≡ some from)
      × (get_account to_id s.accounts ≡ some to)
  pub recipient : (to.active ≡ true) × (to.user_id ≢ ctx.user_id)
  pub allowed : (from.active ≡ true) × IsWithin bank ctx clock from amount s st
  pub moved : bank.transfer st (external_request c from to amount) ≡ (some t, st')
  pub executed : IsExecuted ctx clock.executed_at c a t s s'

module _ (bank : Bank) where
  execute_evaluated-Completes :
      (ctx : ExecutionContext) (now : ℕ) (c : Confirmation) (a : AuthContext) (r : LedgerRequest)
      (s : Store) (st : bank.State) (t : ℕ) (o : Result (Option Violation))
      → (execute_evaluated bank ctx now c a r s st o).0 ≡ ok (ExecuteReply.completed t)
      → (o ≡ ok none)
        × Completes bank ctx now c a r s st t (execute_evaluated bank ctx now c a r s st o)
  unfolding execute_evaluated
  execute_evaluated-Completes ctx now c a r s st t (err e) h = cc
  execute_evaluated-Completes ctx now c a r s st t (ok (some v)) h = cc
  execute_evaluated-Completes ctx now c a r s st t (ok none) h =
      (refl, execute_moved-Completes bank ctx now c a r s st t (bank.transfer st r) refl h)

  module _ (ctx : ExecutionContext) (req : TransferExecuteRequest) (clock : Clock) (s : Store)
      (st : bank.State) (t : ℕ) (c : Confirmation) (a : AuthContext)
      (executable : IsExecutable ctx req.confirmation_id ConfirmationOperation.external_transfer
        clock.confirmation_at s c)
      (authenticated : IsVerified ctx req.auth_context_id c clock.auth_at s a) where
    execute_recipient-Executes :
        (from_id to_id : ℕ) (name : List ℕ) (amount : ℤ) (from : Account) (to : Option Account)
        → c.fixed_data ≡ FixedData.external_data from_id to_id name amount
        → get_owned_account ctx.user_id from_id s.accounts ≡ some from
        → get_account to_id s.accounts ≡ to
        → (execute_recipient bank ctx clock c a amount s st from to).0
          ≡ ok (ExecuteReply.completed t)
        → let result = execute_recipient bank ctx clock c a amount s st from to in
          Executes bank ctx req clock s st t result.1 result.2
    unfolding execute_recipient Completes
    execute_recipient-Executes from_id to_id name amount from none fixed found_from found_to =
        λ h. cc
    execute_recipient-Executes from_id to_id name amount from (some to) fixed found_from found_to =
        if_rule
          (λ (result : Result ExecuteReply × Store × bank.State).
            result.0 ≡ ok (ExecuteReply.completed t)
            → Executes bank ctx req clock s st t result.1 result.2)
          (is_refused ctx to) _ _ (λ _ h. cc)
          (λ admitted h.
            let (allowed, completes) =
              execute_evaluated-Completes ctx clock.executed_at c a
                (external_request c from to amount) s st t
                (evaluate_withdrawal bank ctx clock from amount s st) h in
            record {
              c = c;
              a = a;
              from = from;
              to = to;
              amount = amount;
              executable = executable;
              authenticated = authenticated;
              fixed = (from_id, to_id, name, fixed, found_from, found_to);
              recipient = (ground (arith, admitted), λ e. ground (arith, admitted, e));
              allowed = (evaluate_withdrawal_iff bank ctx clock from amount s st).0 allowed;
              moved = completes.0;
              executed =
                  subst (λ s'. IsExecuted ctx clock.executed_at c a t s s') (sym completes.1)
                    (complete_execution-IsExecuted ctx clock.executed_at c a t s executable.stored
                      executable.status);
            })

    execute_accounts-Executes :
        (from_id to_id : ℕ) (name : List ℕ) (amount : ℤ) (from to : Option Account)
        → c.fixed_data ≡ FixedData.external_data from_id to_id name amount
        → get_owned_account ctx.user_id from_id s.accounts ≡ from
        → get_account to_id s.accounts ≡ to
        → (execute_accounts bank ctx clock c a amount s st from to).0
          ≡ ok (ExecuteReply.completed t)
        → let result = execute_accounts bank ctx clock c a amount s st from to in
          Executes bank ctx req clock s st t result.1 result.2
    unfolding execute_accounts
    execute_accounts-Executes from_id to_id name amount none to fixed found_from found_to = λ h. cc
    execute_accounts-Executes from_id to_id name amount (some from) to fixed found_from found_to =
        if_rule
          (λ (result : Result ExecuteReply × Store × bank.State).
            result.0 ≡ ok (ExecuteReply.completed t)
            → Executes bank ctx req clock s st t result.1 result.2)
          (not from.active) _ _ (λ _ h. cc)
          (λ _ h.
            execute_recipient-Executes from_id to_id name amount from to fixed found_from found_to
              h)

    execute_fixed-Executes :
        (fixed : FixedData)
        → c.fixed_data ≡ fixed
        → (execute_fixed bank ctx clock c a s st fixed).0 ≡ ok (ExecuteReply.completed t)
        → let result = execute_fixed bank ctx clock c a s st fixed in
          Executes bank ctx req clock s st t result.1 result.2
    unfolding execute_fixed
    execute_fixed-Executes (FixedData.internal_data from_id to_id amount) e h = cc
    execute_fixed-Executes (FixedData.external_data from_id to_id name amount) e h =
        execute_accounts-Executes from_id to_id name amount _ _ e refl refl h
    execute_fixed-Executes (FixedData.default_account_data k) e h = cc
    execute_fixed-Executes (FixedData.account_alias_data k alias) e h = cc

  execute_authenticated-Executes :
      (ctx : ExecutionContext) (req : TransferExecuteRequest) (clock : Clock) (s : Store)
      (st : bank.State) (t : ℕ) (c : Confirmation) (o : Result (Option AuthContext))
      → load_verified ctx req.auth_context_id c clock.auth_at s ≡ o
      → IsExecutable ctx req.confirmation_id ConfirmationOperation.external_transfer
          clock.confirmation_at s c
      → (execute_authenticated bank ctx clock c s st o).0 ≡ ok (ExecuteReply.completed t)
      → let result = execute_authenticated bank ctx clock c s st o in
        Executes bank ctx req clock s st t result.1 result.2
  unfolding execute_authenticated
  execute_authenticated-Executes ctx req clock s st t c (err e) loaded executable h = cc
  execute_authenticated-Executes ctx req clock s st t c (ok none) loaded executable h = cc
  execute_authenticated-Executes ctx req clock s st t c (ok (some a)) loaded executable h =
      execute_fixed-Executes ctx req clock s st t c a executable
        ((load_verified_iff ctx req.auth_context_id c clock.auth_at s a).0 loaded) c.fixed_data refl
        h

  execute_confirmed-Executes :
      (ctx : ExecutionContext) (req : TransferExecuteRequest) (clock : Clock) (s : Store)
      (st : bank.State) (t : ℕ) (o : Result Confirmation)
      → load_for_execute ctx req.confirmation_id ConfirmationOperation.external_transfer
          clock.confirmation_at s
        ≡ o
      → (execute_confirmed bank ctx req clock s st o).0 ≡ ok (ExecuteReply.completed t)
      → let result = execute_confirmed bank ctx req clock s st o in
        Executes bank ctx req clock s st t result.1 result.2
  unfolding execute_confirmed
  execute_confirmed-Executes ctx req clock s st t (err e) loaded h = cc
  execute_confirmed-Executes ctx req clock s st t (ok c) loaded h =
      execute_authenticated-Executes ctx req clock s st t c _ refl
        ((load_for_execute_iff ctx req.confirmation_id ConfirmationOperation.external_transfer
            clock.confirmation_at s c).0
          loaded)
        h

-- A completed transfer to another person was executed for an approved, unexpired confirmation of the
-- user and a verified, unexpired authentication for it, from an active account of the user to an active
-- account of someone else, both as the confirmation fixed them, within the limits at the bank's balance;
-- the ledger moved the fixed amount under the confirmation's own key; the confirmation is then executed,
-- one audit row names the transaction, and no other confirmation and no authentication has changed.
pub execute_external_transfer-Executes :
    (bank : Bank) (ctx : ExecutionContext) (req : TransferExecuteRequest) (clock : Clock)
    (s : Store) (st : bank.State) (t : ℕ)
    → (execute_external_transfer bank ctx req clock s st).0 ≡ ok (ExecuteReply.completed t)
    → let result = execute_external_transfer bank ctx req clock s st in
      Executes bank ctx req clock s st t result.1 result.2
unfolding execute_external_transfer
execute_external_transfer-Executes bank ctx req clock s st t h =
    execute_confirmed-Executes bank ctx req clock s st t _ refl h
