-- ===== src/Gateway/Transfer/Effects.antt =====
-- What an execution does to the bank and to the confirmations, in outline.
use kdt_ai_2_hands_on_experi.Common.{arith, ℕ, ◌≡◌, refl, Option, none, some, ◌⊎◌, inl, inr}
use kdt_ai_2_hands_on_experi.Gateway.Rows.{AuthContext, Confirmation, ExecutionContext, Store}
use kdt_ai_2_hands_on_experi.Gateway.Service.{Result, ok}
use kdt_ai_2_hands_on_experi.Gateway.Bank.{Bank}
use kdt_ai_2_hands_on_experi.Gateway.Transfer.{ExecuteReply}
use kdt_ai_2_hands_on_experi.Gateway.Transfer.Internal.{
  complete_execution, execute_moved, invalidate_pair,
}
use kdt_ai_2_hands_on_experi.Gateway.Confirmation
use kdt_ai_2_hands_on_experi.Gateway.Confirmation.{mark_executed}
use kdt_ai_2_hands_on_experi.Gateway.AuthContext

module _ (bank : Bank) (ctx : ExecutionContext) (s : Store) (st : bank.State) where
  pub execute_moved-state :
      (now : ℕ) (c : Confirmation) (a : AuthContext) (o : Option ℕ × bank.State)
      → (execute_moved bank ctx now c a s o).2 ≡ o.1
  unfolding execute_moved
  execute_moved-state now c a (none, st') = refl
  execute_moved-state now c a (some t, st') = refl

-- What an execution does to the confirmations: it completed, or it left the rows as they were, or it
-- invalidated a pair.
abbrev pub Settled : {State : Type 0} → Store → Result ExecuteReply × Store × State → Type 0
Settled s result =
    ((t : ℕ) × (result.0 ≡ ok (ExecuteReply.completed t)))
    ⊎ ((result.1 ≡ s)
        ⊎ ((c : Confirmation) × (a : AuthContext) × (result.1 ≡ invalidate_pair c a s)))

module _ (bank : Bank) (ctx : ExecutionContext) (s : Store) where
  pub execute_moved-Settled :
      (now : ℕ) (c : Confirmation) (a : AuthContext) (o : Option ℕ × bank.State)
      → Settled s (execute_moved bank ctx now c a s o)
  unfolding execute_moved
  execute_moved-Settled now c a (none, st') = inr (inl refl)
  execute_moved-Settled now c a (some t, st') = inl (t, refl)

complete_execution-accounts :
    (ctx : ExecutionContext) (now : ℕ) (c : Confirmation) (a : AuthContext) (t : ℕ) (s : Store)
    → (complete_execution ctx now c a t s).accounts ≡ s.accounts
unfolding complete_execution mark_executed
complete_execution-accounts ctx now c a t s = ground arith

pub invalidate_pair-accounts :
    (c : Confirmation) (a : AuthContext) (s : Store) → (invalidate_pair c a s).accounts ≡ s.accounts
unfolding Confirmation.invalidate AuthContext.invalidate
invalidate_pair-accounts c a s = refl

module _ (bank : Bank) (ctx : ExecutionContext) (s : Store) where
  pub execute_moved-accounts :
      (now : ℕ) (c : Confirmation) (a : AuthContext) (o : Option ℕ × bank.State)
      → (execute_moved bank ctx now c a s o).1.accounts ≡ s.accounts
  unfolding execute_moved
  execute_moved-accounts now c a (none, st') = refl
  execute_moved-accounts now c a (some t, st') = complete_execution-accounts ctx now c a t s
