-- ===== src/Gateway/Transfer/Internal/Retry.antt =====
-- A second call of an execution whose first call moved the ledger but lost its reply and its writes.
use kdt_ai_2_hands_on_experi.Common.{ℕ, ◌≡◌, ◌<◌, refl, ap, subst, some}
use kdt_ai_2_hands_on_experi.Gateway.Rows.{
  ConfirmationOperation, ConfirmationStatus, ExecutionContext, Store,
}
use kdt_ai_2_hands_on_experi.Gateway.Service.{ok}
use kdt_ai_2_hands_on_experi.Gateway.Confirmation.Laws.{
  IsExecutable, get_confirmation-update_self, load_for_execute_iff,
}
use kdt_ai_2_hands_on_experi.Gateway.Confirmation
use kdt_ai_2_hands_on_experi.Gateway.Confirmation.{get_confirmation}
use kdt_ai_2_hands_on_experi.Gateway.AuthContext
use kdt_ai_2_hands_on_experi.Gateway.AuthContext.Laws.{IsVerified, load_verified_iff}
use kdt_ai_2_hands_on_experi.Gateway.Bank.{Bank}
use kdt_ai_2_hands_on_experi.Gateway.Transfer.{
  Clock, ExecuteReply, TransferExecuteRequest, Violation, evaluate_internal_transfer,
}
use kdt_ai_2_hands_on_experi.Gateway.Transfer.Limits.{IsWithin, evaluate_internal_transfer_iff}
use kdt_ai_2_hands_on_experi.Gateway.Transfer.Executed.{IsExecuted, complete_execution-IsExecuted}
use kdt_ai_2_hands_on_experi.Gateway.Transfer.Internal.{
  execute_accounts, execute_authenticated, execute_confirmed, execute_evaluated, execute_fixed,
  execute_internal_transfer, execute_moved, internal_request,
}
use kdt_ai_2_hands_on_experi.Gateway.Transfer.Internal.Execution.{Executes}

-- `done` is an execution from `s` and `st` that took the bank to `st'`; its store `s'` is lost. The
-- second call starts from `s` at `clock'`, while the confirmation and the authentication are alive.
module _ (bank : Bank) (ctx : ExecutionContext) (req : TransferExecuteRequest)
    (clock clock' : Clock) (s s' : Store) (st st' : bank.State) (t : ℕ)
    (done : Executes bank ctx req clock s st t s' st')
    (confirmation_alive : clock'.confirmation_at < done.c.expires_at)
    (auth_alive : clock'.auth_at < done.a.expires_at) where
  -- The second call comes to the conditions of the transfer.
  execute_internal_transfer-again :
      execute_internal_transfer bank ctx req clock' s st'
      ≡ execute_evaluated bank ctx clock'.executed_at done.c done.a
          (internal_request done.c done.from done.to done.amount)
          s
          st'
          (evaluate_internal_transfer bank ctx clock' done.from done.to done.amount s st')
  unfolding execute_internal_transfer execute_confirmed execute_authenticated execute_fixed
      execute_accounts
  execute_internal_transfer-again =
      let executable : IsExecutable ctx req.confirmation_id ConfirmationOperation.internal_transfer
          clock'.confirmation_at s done.c =
        record {
          id = done.executable.id;
          stored = done.executable.stored;
          owner = done.executable.owner;
          same_operation = done.executable.same_operation;
          status = done.executable.status;
          alive = confirmation_alive;
        } in
      let authenticated : IsVerified ctx req.auth_context_id done.c clock'.auth_at s done.a =
        record {
          id = done.authenticated.id;
          stored = done.authenticated.stored;
          owner = done.authenticated.owner;
          confirmation = done.authenticated.confirmation;
          status = done.authenticated.status;
          alive = auth_alive;
        } in
      let loaded =
        (load_for_execute_iff ctx req.confirmation_id ConfirmationOperation.internal_transfer
            clock'.confirmation_at s done.c).1
          executable in
      let verified =
        (load_verified_iff ctx req.auth_context_id done.c clock'.auth_at s done.a).1
          authenticated in
      let (from_id, to_id, fixed, found_from, found_to) = done.fixed in
      rw (loaded, verified, fixed, found_from, found_to) refl

  -- The bank holds the request of the first call.
  first-Recorded : bank.Recorded st' (internal_request done.c done.from done.to done.amount) t
  first-Recorded =
      let r = internal_request done.c done.from done.to done.amount in
      subst (λ x. bank.Recorded x r t) (ap (λ x. x.1) done.moved)
        (bank.recorded st r t (ap (λ x. x.0) done.moved))

  -- After an execution that completed with `t` but whose writes to the gateway's store were lost, a
  -- second call from the old store, while the confirmation and the authentication are alive and the
  -- limits hold at the bank's new state, completes with the same `t`: the bank stays as the first call
  -- left it, so the money moves once, and the confirmation becomes executed with its one audit row.
  pub execute_internal_transfer-retry :
      IsWithin bank ctx clock' done.from done.amount s st'
      → let result = execute_internal_transfer bank ctx req clock' s st' in
        (result.0 ≡ ok (ExecuteReply.completed t))
        × IsExecuted ctx clock'.executed_at done.c done.a t s result.1
        × (result.2 ≡ st')
  unfolding execute_evaluated execute_moved
  execute_internal_transfer-retry within =
      let allowed =
        (evaluate_internal_transfer_iff bank ctx clock' done.from done.to done.amount s st').1
          (done.allowed.0, done.allowed.1, done.allowed.2, within) in
      let replayed =
        bank.replayed st' (internal_request done.c done.from done.to done.amount) t
          first-Recorded in
      rw (execute_internal_transfer-again, allowed, replayed)
        (
          refl,
          complete_execution-IsExecuted ctx clock'.executed_at done.c done.a t s
              done.executable.stored done.executable.status,
          refl,
        )

  -- Where a condition is violated, the second call asks for a correction and invalidates.
  pub execute_internal_transfer-refused :
      (v : Violation)
      → evaluate_internal_transfer bank ctx clock' done.from done.to done.amount s st' ≡ ok (some v)
      → let result = execute_internal_transfer bank ctx req clock' s st' in
        (result.0 ≡ ok (ExecuteReply.correction_required v))
        × (get_confirmation done.c.id result.1.confirmations
            ≡ some (record done.c { status = ConfirmationStatus.invalidated }))
        × (result.2 ≡ st')
  unfolding execute_evaluated Confirmation.invalidate AuthContext.invalidate
  execute_internal_transfer-refused v refused =
      rw (execute_internal_transfer-again, refused)
        (
          refl,
          get_confirmation-update_self done.c.id
              (λ d. record d { status = ConfirmationStatus.invalidated }) done.c s.confirmations
              (λ d. refl) done.executable.stored,
          refl,
        )
