-- ===== src/Gateway/Transfer/Executed.antt =====
-- The writes that complete an execution.
use kdt_ai_2_hands_on_experi.Common.{
  ℕ, ◌≡◌, ◌≢◌, refl, ◌∙◌, ap, true, Option, none, some, ◌∷◌, arith,
}
use kdt_ai_2_hands_on_experi.Gateway.Rows.{
  AuthContext, Confirmation, ConfirmationStatus, ExecutionContext, Store,
}
use kdt_ai_2_hands_on_experi.Gateway.Service.{Result, ok}
use kdt_ai_2_hands_on_experi.Gateway.Confirmation.{
  execute_approved, get_confirmation, is_approved, mark_executed,
}
use kdt_ai_2_hands_on_experi.Gateway.Confirmation.Laws.{
  execute_approved-id, get_confirmation-update_self, get_confirmation-update_ne,
}
use kdt_ai_2_hands_on_experi.Gateway.Bank.{Bank, LedgerRequest}
use kdt_ai_2_hands_on_experi.Gateway.Transfer.{ExecuteReply}
use kdt_ai_2_hands_on_experi.Gateway.Transfer.Internal.{
  complete_execution, completed_log, execute_moved,
}

-- The row and the audit log after an execution of `c`, with `a`, as the bank's transaction `t`.
pub record IsExecuted (ctx : ExecutionContext) (now : ℕ) (c : Confirmation) (a : AuthContext)
    (t : ℕ) (s s' : Store) : Type 0 where
  pub written :
      get_confirmation c.id s'.confirmations
      ≡ some (record c { status = ConfirmationStatus.executed; executed_at = some now })
  pub others :
      (j : ℕ) → j ≢ c.id → get_confirmation j s'.confirmations ≡ get_confirmation j s.confirmations
  pub audited : s'.audit_logs ≡ completed_log ctx c a t ∷ s.audit_logs
  pub same_auth_contexts : s'.auth_contexts ≡ s.auth_contexts

pub complete_execution-IsExecuted :
    (ctx : ExecutionContext) (now : ℕ) (c : Confirmation) (a : AuthContext) (t : ℕ) (s : Store)
    → get_confirmation c.id s.confirmations ≡ some c
    → c.status ≡ ConfirmationStatus.approved
    → IsExecuted ctx now c a t s (complete_execution ctx now c a t s)
unfolding complete_execution mark_executed
complete_execution-IsExecuted ctx now c a t s stored approved =
    let won : is_approved (get_confirmation c.id s.confirmations) ≡ true =
      rw stored (ground (arith, approved)) in
    rw won (record {
      written =
          get_confirmation-update_self c.id (execute_approved now) c s.confirmations
            (execute_approved-id now) stored
          ∙ ground (arith, approved);
      others = λ j ne.
          get_confirmation-update_ne j c.id (execute_approved now) s.confirmations
            (execute_approved-id now) ne;
      audited = refl;
      same_auth_contexts = refl;
    })

module _ (bank : Bank) where
  -- The ledger replied `t` to the request `r`, and the execution was completed with it.
  unfoldable pub Completes :
      ExecutionContext
      → ℕ
      → Confirmation
      → AuthContext
      → LedgerRequest
      → Store
      → bank.State
      → ℕ
      → Result ExecuteReply × Store × bank.State
      → Type 0
  Completes ctx now c a r s st t result =
      (bank.transfer st r ≡ (some t, result.2)) × (result.1 ≡ complete_execution ctx now c a t s)

  pub execute_moved-Completes :
      (ctx : ExecutionContext) (now : ℕ) (c : Confirmation) (a : AuthContext) (r : LedgerRequest)
      (s : Store) (st : bank.State) (t : ℕ) (o : Option ℕ × bank.State)
      → bank.transfer st r ≡ o
      → (execute_moved bank ctx now c a s o).0 ≡ ok (ExecuteReply.completed t)
      → Completes ctx now c a r s st t (execute_moved bank ctx now c a s o)
  unfolding Completes execute_moved
  execute_moved-Completes ctx now c a r s st t (none, st') e h = cc
  execute_moved-Completes ctx now c a r s st t (some u, st') e h =
      let same : u ≡ t = ground arith in
      (e ∙ ap (λ v. (some v, st')) same, ap (λ v. complete_execution ctx now c a v s) same)
