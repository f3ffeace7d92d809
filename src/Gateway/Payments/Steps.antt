-- ===== src/Gateway/Payments/Steps.antt =====
-- Every operation of the gateway keeps what is executed paid.
use kdt_ai_2_hands_on_experi.Common.{
  ℕ, ◌≡◌, ◌≢◌, refl, sym, subst, ap, ◌∙◌, some, ◌∷◌, arith, Bool-cases, ◌⊎◌, inl, inr, ◌==◌,
}
use kdt_ai_2_hands_on_experi.Gateway.Rows.{
  AuthContext, Confirmation, ConfirmationStatus, ExecutionContext, Store,
}
use kdt_ai_2_hands_on_experi.Gateway.Confirmation
use kdt_ai_2_hands_on_experi.Gateway.Confirmation.{amount_of, approve, decide, get_confirmation}
use kdt_ai_2_hands_on_experi.Gateway.AuthContext
use kdt_ai_2_hands_on_experi.Gateway.AuthContext.{authenticate, create_auth_context}
use kdt_ai_2_hands_on_experi.Gateway.Bank.{Bank, LedgerRequest}
use kdt_ai_2_hands_on_experi.Gateway.Transfer.{Clock, TransferExecuteRequest}
use kdt_ai_2_hands_on_experi.Gateway.Transfer.Executed.{IsExecuted}
use kdt_ai_2_hands_on_experi.Gateway.Transfer.Internal.{
  execute_internal_transfer, internal_request, invalidate_pair,
}
use kdt_ai_2_hands_on_experi.Gateway.Transfer.Internal.Execution.{
  execute_internal_transfer-Executes,
}
use kdt_ai_2_hands_on_experi.Gateway.Transfer.Internal.Once.{
  execute_internal_transfer-Settled, execute_internal_transfer-keeps,
}
use kdt_ai_2_hands_on_experi.Gateway.Transfer.External.{external_request}
use kdt_ai_2_hands_on_experi.Gateway.Transfer.ExternalExecution.{execute_external_transfer}
use kdt_ai_2_hands_on_experi.Gateway.Transfer.ExternalExecution.Execution.{
  execute_external_transfer-Executes,
}
use kdt_ai_2_hands_on_experi.Gateway.Transfer.ExternalExecution.Cases.{
  execute_external_transfer-Settled, execute_external_transfer-keeps,
}
use kdt_ai_2_hands_on_experi.Gateway.Payments.Paid.{
  IsPaid, Paid, cons-IsPaid, key_id, transfer-IsPaid, update-IsPaid,
}

module _ (bank : Bank) where
  executed-IsPaid :
      (ctx : ExecutionContext) (now : ℕ) (c : Confirmation) (a : AuthContext) (t : ℕ) (s s' : Store)
      (st st' : bank.State) (r : LedgerRequest)
      → IsExecuted ctx now c a t s s'
      → bank.transfer st r ≡ (some t, st')
      → key_id r.idempotency_key ≡ c.id
      → r.amount ≡ amount_of c.fixed_data
      → IsPaid bank st s.confirmations
      → IsPaid bank st' s'.confirmations
  executed-IsPaid ctx now c a t s s' st st' r done moved named same paid k d found moves executed =
      let recorded : bank.Recorded st' r t =
        subst (λ x. bank.Recorded x r t) (ap (λ x. x.1) moved)
          (bank.recorded st r t (ap (λ x. x.0) moved)) in
      elim (Bool-cases (k == c.id)) [
        | inl equal ↦
            let at : c.id ≡ k = ground (arith, equal) in
            let written =
              subst
                (λ j.
                  get_confirmation j s'.confirmations
                  ≡ some
                      (record c { status = ConfirmationStatus.executed; executed_at = some now }))
                at done.written in
            let row : record c { status = ConfirmationStatus.executed; executed_at = some now }
                ≡ d =
              ground (arith, sym written ∙ found) in
            subst (Paid bank st') row (r, t, named, same, recorded)
        | inr differ ↦
            let old =
              paid k d (sym (done.others k (λ e. ground (arith, differ, e))) ∙ found) moves
                executed in
            (
              old.0,
              old.1,
              old.2,
              old.3,
              subst (λ x. bank.Recorded x old.0 old.1) (ap (λ x. x.1) moved)
                  (bank.kept st old.0 r old.1 old.4),
            )
      ]

  invalidate_pair-IsPaid :
      (st : bank.State) (c : Confirmation) (a : AuthContext) (s : Store)
      → IsPaid bank st s.confirmations
      → IsPaid bank st (invalidate_pair c a s).confirmations
  unfolding Confirmation.invalidate AuthContext.invalidate
  invalidate_pair-IsPaid st c a s paid =
      update-IsPaid bank st c.id _ s.confirmations (λ d. refl) (λ d found moves h. cc) paid

  quiet-IsPaid :
      (st : bank.State) (s s' : Store)
      → (s' ≡ s) ⊎ ((c : Confirmation) × (a : AuthContext) × (s' ≡ invalidate_pair c a s))
      → IsPaid bank st s.confirmations
      → IsPaid bank st s'.confirmations
  quiet-IsPaid st s s' (inl e) paid = subst (λ x. IsPaid bank st x.confirmations) (sym e) paid
  quiet-IsPaid st s s' (inr (c, a, e)) paid =
      subst (λ x. IsPaid bank st x.confirmations) (sym e) (invalidate_pair-IsPaid st c a s paid)

  pub execute_internal-IsPaid :
      (ctx : ExecutionContext) (req : TransferExecuteRequest) (clock : Clock) (s : Store)
      (st : bank.State)
      → IsPaid bank st s.confirmations
      → let result = execute_internal_transfer bank ctx req clock s st in
        IsPaid bank result.2 result.1.confirmations
  execute_internal-IsPaid ctx req clock s st paid =
      elim (execute_internal_transfer-Settled bank ctx req clock s st) [
        | inl (t, h) ↦
            let done = execute_internal_transfer-Executes bank ctx req clock s st t h in
            executed-IsPaid ctx clock.executed_at done.c done.a t s _ st _
              (internal_request done.c done.from done.to done.amount) done.executed done.moved refl
              (sym (ap amount_of done.fixed.2)) paid
        | inr quiet ↦ quiet-IsPaid _ s _ quiet (
            execute_internal_transfer-keeps bank (λ x. IsPaid bank x s.confirmations)
              (λ x r. transfer-IsPaid bank x r s.confirmations) ctx req clock s st paid)
      ]

  pub execute_external-IsPaid :
      (ctx : ExecutionContext) (req : TransferExecuteRequest) (clock : Clock) (s : Store)
      (st : bank.State)
      → IsPaid bank st s.confirmations
      → let result = execute_external_transfer bank ctx req clock s st in
        IsPaid bank result.2 result.1.confirmations
  execute_external-IsPaid ctx req clock s st paid =
      elim (execute_external_transfer-Settled bank ctx req clock s st) [
        | inl (t, h) ↦
            let done = execute_external_transfer-Executes bank ctx req clock s st t h in
            executed-IsPaid ctx clock.executed_at done.c done.a t s _ st _
              (external_request done.c done.from done.to done.amount) done.executed done.moved refl
              (sym (ap amount_of done.fixed.3)) paid
        | inr quiet ↦ quiet-IsPaid _ s _ quiet (
            execute_external_transfer-keeps bank (λ x. IsPaid bank x s.confirmations)
              (λ x r. transfer-IsPaid bank x r s.confirmations) ctx req clock s st paid)
      ]

  pub prepared-IsPaid :
      (st : bank.State) (s : Store) (c : Confirmation) (s' : Store)
      → c.status ≡ ConfirmationStatus.pending
      → s'.confirmations ≡ c ∷ s.confirmations
      → IsPaid bank st s.confirmations
      → IsPaid bank st s'.confirmations
  prepared-IsPaid st s c s' pending e paid = subst (IsPaid bank st) (sym e) (
      cons-IsPaid bank st c s.confirmations
        (subst (λ x. x ≢ ConfirmationStatus.executed) (sym pending) (λ h. cc)) paid)

  pub same-IsPaid :
      (st : bank.State) (s s' : Store)
      → s'.confirmations ≡ s.confirmations
      → IsPaid bank st s.confirmations
      → IsPaid bank st s'.confirmations
  same-IsPaid st s s' e paid = subst (IsPaid bank st) (sym e) paid

  pub approve-IsPaid :
      (st : bank.State) (now : ℕ) (c : Confirmation) (s : Store)
      → IsPaid bank st s.confirmations
      → IsPaid bank st (approve now c s).confirmations
  unfolding approve
  approve-IsPaid st now c s paid =
      update-IsPaid bank st c.id _ s.confirmations (λ d. refl) (λ d found moves h. cc) paid

  pub invalidate-IsPaid :
      (st : bank.State) (c : Confirmation) (s : Store)
      → IsPaid bank st s.confirmations
      → IsPaid bank st (Confirmation.invalidate c s).confirmations
  unfolding Confirmation.invalidate
  invalidate-IsPaid st c s paid =
      update-IsPaid bank st c.id _ s.confirmations (λ d. refl) (λ d found moves h. cc) paid
