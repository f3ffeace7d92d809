-- ===== src/Gateway/Transfer/ExternalExecution/Cases.antt =====
-- The ways in which a transfer to another person can end.
use kdt_ai_2_hands_on_experi.Common.{
  ℕ, ◌≡◌, refl, sym, subst, Option, none, some, inl, inr, if_rule, not,
}
use kdt_ai_2_hands_on_experi.Common.Int.{ℤ}
use kdt_ai_2_hands_on_experi.Gateway.Rows.{
  Account, AuthContext, Confirmation, ConfirmationOperation, ExecutionContext, FixedData, Store,
}
use kdt_ai_2_hands_on_experi.Gateway.Service.{Result, ok, err}
use kdt_ai_2_hands_on_experi.Gateway.Confirmation.{load_for_execute}
use kdt_ai_2_hands_on_experi.Gateway.AuthContext.{load_verified}
use kdt_ai_2_hands_on_experi.Gateway.Bank.{Bank, LedgerRequest}
use kdt_ai_2_hands_on_experi.Gateway.Transfer.{
  Clock, ExecuteReply, TransferExecuteRequest, Violation, evaluate_withdrawal, get_account,
  get_owned_account,
}
use kdt_ai_2_hands_on_experi.Gateway.Transfer.Internal.{execute_moved, invalidate_pair}
use kdt_ai_2_hands_on_experi.Gateway.Transfer.External.{external_request, is_refused}
use kdt_ai_2_hands_on_experi.Gateway.Transfer.ExternalExecution.{
  execute_accounts, execute_authenticated, execute_confirmed, execute_evaluated, execute_fixed,
  execute_external_transfer, execute_recipient,
}
use kdt_ai_2_hands_on_experi.Gateway.Transfer.Effects.{
  Settled, execute_moved-Settled, execute_moved-accounts, invalidate_pair-accounts,
  execute_moved-state,
}

-- A property of every reply that leaves the bank and the rows alone, of every reply that only
-- invalidates, and of what follows a call of the ledger, is a property of every execution.
module _ (bank : Bank) (ctx : ExecutionContext) (clock : Clock) (s : Store) (st : bank.State)
    (Q : Result ExecuteReply × Store × bank.State → Type 0)
    (still : (reply : Result ExecuteReply) → Q (reply, s, st))
    (refused : (reply : Result ExecuteReply) (c : Confirmation) (a : AuthContext)
      → Q (reply, invalidate_pair c a s, st))
    (after : (now : ℕ) (c : Confirmation) (a : AuthContext) (r : LedgerRequest)
      → Q (execute_moved bank ctx now c a s (bank.transfer st r))) where
  execute_evaluated-cases :
      (now : ℕ) (c : Confirmation) (a : AuthContext) (r : LedgerRequest)
      (o : Result (Option Violation))
      → Q (execute_evaluated bank ctx now c a r s st o)
  unfolding execute_evaluated
  execute_evaluated-cases now c a r (err e) = still (err e)
  execute_evaluated-cases now c a r (ok (some v)) = refused _ c a
  execute_evaluated-cases now c a r (ok none) = after now c a r

  execute_recipient-cases :
      (c : Confirmation) (a : AuthContext) (amount : ℤ) (from : Account) (to : Option Account)
      → Q (execute_recipient bank ctx clock c a amount s st from to)
  unfolding execute_recipient
  execute_recipient-cases c a amount from none = refused _ c a
  execute_recipient-cases c a amount from (some to) =
      if_rule Q (is_refused ctx to) _ _ (λ _. refused _ c a)
        (λ _.
          execute_evaluated-cases clock.executed_at c a (external_request c from to amount)
            (evaluate_withdrawal bank ctx clock from amount s st))

  execute_accounts-cases :
      (c : Confirmation) (a : AuthContext) (amount : ℤ) (from to : Option Account)
      → Q (execute_accounts bank ctx clock c a amount s st from to)
  unfolding execute_accounts
  execute_accounts-cases c a amount none to = refused _ c a
  execute_accounts-cases c a amount (some from) to =
      if_rule Q (not from.active) _ _ (λ _. refused _ c a)
        (λ _. execute_recipient-cases c a amount from to)

  execute_fixed-cases :
      (c : Confirmation) (a : AuthContext) (fixed : FixedData)
      → Q (execute_fixed bank ctx clock c a s st fixed)
  unfolding execute_fixed
  execute_fixed-cases c a (FixedData.internal_data from to amount) = still _
  execute_fixed-cases c a (FixedData.external_data from to name amount) =
      execute_accounts-cases c a amount (get_owned_account ctx.user_id from s.accounts)
        (get_account to s.accounts)
  execute_fixed-cases c a (FixedData.default_account_data k) = still _
  execute_fixed-cases c a (FixedData.account_alias_data k alias) = still _

  execute_authenticated-cases :
      (c : Confirmation) (o : Result (Option AuthContext))
      → Q (execute_authenticated bank ctx clock c s st o)
  unfolding execute_authenticated
  execute_authenticated-cases c (err e) = still (err e)
  execute_authenticated-cases c (ok none) = still _
  execute_authenticated-cases c (ok (some a)) = execute_fixed-cases c a c.fixed_data

  execute_confirmed-cases :
      (req : TransferExecuteRequest) (o : Result Confirmation)
      → Q (execute_confirmed bank ctx req clock s st o)
  unfolding execute_confirmed
  execute_confirmed-cases req (err e) = still (err e)
  execute_confirmed-cases req (ok c) =
      execute_authenticated-cases c (load_verified ctx req.auth_context_id c clock.auth_at s)

  pub execute_external_transfer-cases :
      (req : TransferExecuteRequest) → Q (execute_external_transfer bank ctx req clock s st)
  unfolding execute_external_transfer
  execute_external_transfer-cases req = execute_confirmed-cases req (
      load_for_execute ctx req.confirmation_id ConfirmationOperation.external_transfer
        clock.confirmation_at s)

-- What every call of the bank keeps, every execution keeps.
pub execute_external_transfer-keeps :
    (bank : Bank) (P : bank.State → Type 0)
    → ((st : bank.State) (r : LedgerRequest) → P st → P (bank.transfer st r).1)
    → (ctx : ExecutionContext) (req : TransferExecuteRequest) (clock : Clock) (s : Store)
      (st : bank.State)
    → P st
    → P (execute_external_transfer bank ctx req clock s st).2
execute_external_transfer-keeps bank P keeps ctx req clock s st h =
    execute_external_transfer-cases bank ctx clock s st (λ result. P result.2) (λ reply. h)
      (λ reply c a. h)
      (λ now c a r.
        subst P (sym (execute_moved-state bank ctx s st now c a (bank.transfer st r)))
          (keeps st r h))
      req

pub execute_external_transfer-Settled :
    (bank : Bank) (ctx : ExecutionContext) (req : TransferExecuteRequest) (clock : Clock)
    (s : Store) (st : bank.State)
    → Settled s (execute_external_transfer bank ctx req clock s st)
execute_external_transfer-Settled bank ctx req clock s st =
    execute_external_transfer-cases bank ctx clock s st (Settled s) (λ reply. inr (inl refl))
      (λ reply c a. inr (inr (c, a, refl)))
      (λ now c a r. execute_moved-Settled bank ctx s now c a (bank.transfer st r)) req

pub execute_external_transfer-accounts :
    (bank : Bank) (ctx : ExecutionContext) (req : TransferExecuteRequest) (clock : Clock)
    (s : Store) (st : bank.State)
    → (execute_external_transfer bank ctx req clock s st).1.accounts ≡ s.accounts
execute_external_transfer-accounts bank ctx req clock s st =
    execute_external_transfer-cases bank ctx clock s st (λ result. result.1.accounts ≡ s.accounts)
      (λ reply. refl) (λ reply c a. invalidate_pair-accounts c a s)
      (λ now c a r. execute_moved-accounts bank ctx s now c a (bank.transfer st r)) req
