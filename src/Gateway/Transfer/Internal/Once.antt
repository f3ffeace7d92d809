-- ===== src/Gateway/Transfer/Internal/Once.antt =====
-- Executions of one confirmation, one after another.
use kdt_ai_2_hands_on_experi.Common.{ℕ, ◌≡◌, refl, sym, subst, ◌∙◌, ◌⊎◌, inl, inr}
use kdt_ai_2_hands_on_experi.Gateway.Rows.{ConfirmationOperation, ExecutionContext, Store}
use kdt_ai_2_hands_on_experi.Gateway.Service.{Error, ok, err}
use kdt_ai_2_hands_on_experi.Gateway.Confirmation.{load_for_execute}
use kdt_ai_2_hands_on_experi.Gateway.Confirmation.Laws.{
  executed_error, executed_error-cases, load_for_execute-executed,
}
use kdt_ai_2_hands_on_experi.Gateway.Bank.{Bank, LedgerRequest}
use kdt_ai_2_hands_on_experi.Gateway.Transfer.{Clock, ExecuteReply, TransferExecuteRequest}
use kdt_ai_2_hands_on_experi.Gateway.Transfer.Internal.{
  execute_confirmed, execute_internal_transfer,
}
use kdt_ai_2_hands_on_experi.Gateway.Transfer.Internal.Execution.{
  execute_internal_transfer-Executes,
}
use kdt_ai_2_hands_on_experi.Gateway.Transfer.Internal.Cases.{execute_internal_transfer-cases}
use kdt_ai_2_hands_on_experi.Gateway.Transfer.Effects.{
  Settled, execute_moved-accounts, invalidate_pair-accounts, execute_moved-Settled,
  execute_moved-state,
}

module _ (bank : Bank) (ctx : ExecutionContext) where
  execute_confirmed-refused :
      (req : TransferExecuteRequest) (clock : Clock) (s : Store) (st : bank.State) (e : Error)
      → load_for_execute ctx req.confirmation_id ConfirmationOperation.internal_transfer
          clock.confirmation_at s
        ≡ err e
      → execute_internal_transfer bank ctx req clock s st ≡ (err e, s, st)
  unfolding execute_internal_transfer execute_confirmed
  execute_confirmed-refused req clock s st e h = rw h

  -- After a transfer that completed, every further execution for that confirmation, at any time, with
  -- any authentication and from any state of the bank, is refused as expired or as a mismatch, and it
  -- changes neither the gateway nor the bank.
  pub execute_internal_transfer-once :
      (req req' : TransferExecuteRequest) (clock clock' : Clock) (s : Store) (st st' : bank.State)
      (t : ℕ)
      → (execute_internal_transfer bank ctx req clock s st).0 ≡ ok (ExecuteReply.completed t)
      → req'.confirmation_id ≡ req.confirmation_id
      → let s' = (execute_internal_transfer bank ctx req clock s st).1 in
        (e : Error) × ((e ≡ Error.confirmation_expired) ⊎ (e ≡ Error.confirmation_mismatch))
        × (execute_internal_transfer bank ctx req' clock' s' st' ≡ (err e, s', st'))
  execute_internal_transfer-once req req' clock clock' s st st' t h same =
      let done = execute_internal_transfer-Executes bank ctx req clock s st t h in
      let s' = (execute_internal_transfer bank ctx req clock s st).1 in
      let now = clock'.confirmation_at in
      (
        executed_error done.c now,
        executed_error-cases done.c now,
        execute_confirmed-refused req' clock' s' st' (executed_error done.c now) (
            load_for_execute-executed ctx req'.confirmation_id now clock.executed_at
              ConfirmationOperation.internal_transfer s' done.c (same ∙ done.executable.id)
              done.executed.written done.executable.owner done.executable.same_operation),
      )

-- What every call of the bank keeps, every execution keeps.
pub execute_internal_transfer-keeps :
    (bank : Bank) (P : bank.State → Type 0)
    → ((st : bank.State) (r : LedgerRequest) → P st → P (bank.transfer st r).1)
    → (ctx : ExecutionContext) (req : TransferExecuteRequest) (clock : Clock) (s : Store)
      (st : bank.State)
    → P st
    → P (execute_internal_transfer bank ctx req clock s st).2
execute_internal_transfer-keeps bank P keeps ctx req clock s st h =
    execute_internal_transfer-cases bank ctx clock s st (λ result. P result.2) (λ reply. h)
      (λ reply c a. h)
      (λ now c a r.
        subst P (sym (execute_moved-state bank ctx s st now c a (bank.transfer st r)))
          (keeps st r h))
      req

pub execute_internal_transfer-Settled :
    (bank : Bank) (ctx : ExecutionContext) (req : TransferExecuteRequest) (clock : Clock)
    (s : Store) (st : bank.State)
    → Settled s (execute_internal_transfer bank ctx req clock s st)
execute_internal_transfer-Settled bank ctx req clock s st =
    execute_internal_transfer-cases bank ctx clock s st (Settled s) (λ reply. inr (inl refl))
      (λ reply c a. inr (inr (c, a, refl)))
      (λ now c a r. execute_moved-Settled bank ctx s now c a (bank.transfer st r)) req

pub execute_internal_transfer-accounts :
    (bank : Bank) (ctx : ExecutionContext) (req : TransferExecuteRequest) (clock : Clock)
    (s : Store) (st : bank.State)
    → (execute_internal_transfer bank ctx req clock s st).1.accounts ≡ s.accounts
execute_internal_transfer-accounts bank ctx req clock s st =
    execute_internal_transfer-cases bank ctx clock s st (λ result. result.1.accounts ≡ s.accounts)
      (λ reply. refl) (λ reply c a. invalidate_pair-accounts c a s)
      (λ now c a r. execute_moved-accounts bank ctx s now c a (bank.transfer st r)) req
