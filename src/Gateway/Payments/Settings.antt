-- ===== src/Gateway/Payments/Settings.antt =====
-- A change of a setting keeps what is executed paid: its confirmation is no transfer's.
use kdt_ai_2_hands_on_experi.Common.{ℕ, ◌≡◌, refl, sym, subst, some, arith}
use kdt_ai_2_hands_on_experi.Gateway.Rows.{Confirmation, ExecutionContext, Store}
use kdt_ai_2_hands_on_experi.Gateway.Confirmation.{get_confirmation}
use kdt_ai_2_hands_on_experi.Gateway.Bank.{Bank}
use kdt_ai_2_hands_on_experi.Gateway.Payments.Paid.{IsPaid, update-IsPaid}
use kdt_ai_2_hands_on_experi.Gateway.Rows.{Account, ConfirmationOperation}
use kdt_ai_2_hands_on_experi.Gateway.Confirmation.{
  execute_approved, mark_executed, update_confirmation,
}
use kdt_ai_2_hands_on_experi.Gateway.Confirmation.Laws.{IsExecutable, execute_approved-id}
use kdt_ai_2_hands_on_experi.Gateway.Setting.{
  complete_setting, execute_account_alias, execute_default_account, set_account_alias,
  set_default_account,
}
use kdt_ai_2_hands_on_experi.Gateway.Payments.Paid.{is_transfer}
use kdt_ai_2_hands_on_experi.Common.{Option, false}
use kdt_ai_2_hands_on_experi.Common.Texts.{Text}
use kdt_ai_2_hands_on_experi.Gateway.Setting.Cases.{
  execute_account_alias-cases, execute_default_account-cases,
}
use kdt_ai_2_hands_on_experi.Gateway.Payments.Steps.{invalidate-IsPaid}

execute_approved-operation :
    (now : ℕ) (d : Confirmation) → (execute_approved now d).operation ≡ d.operation
execute_approved-operation now d = ground arith

-- The columns that `complete_setting` leaves alone.
pub complete_setting-rows :
    (ctx : ExecutionContext) (now : ℕ) (c : Confirmation) (s : Store)
    → ((complete_setting ctx now c s).accounts ≡ s.accounts)
      × ((complete_setting ctx now c s).confirmations
          ≡ update_confirmation c.id (execute_approved now) s.confirmations)
unfolding complete_setting mark_executed
complete_setting-rows ctx now c s = (ground arith, ground arith)

module _ (bank : Bank) (st : bank.State) (ctx : ExecutionContext) (now : ℕ) (c : Confirmation)
    (s : Store) where
  complete_setting-IsPaid :
      (s1 : Store)
      → s1.confirmations ≡ s.confirmations
      → get_confirmation c.id s.confirmations ≡ some c
      → is_transfer c.operation ≡ false
      → IsPaid bank st s.confirmations
      → IsPaid bank st (complete_setting ctx now c s1).confirmations
  complete_setting-IsPaid s1 same stored setting paid =
      subst (IsPaid bank st) (sym ((complete_setting-rows ctx now c s1).1)) (
        update-IsPaid bank st c.id (execute_approved now) s1.confirmations (execute_approved-id now)
          (λ d found moves h.
            absurd (
              ground
                (arith, found, stored, setting, moves, same, execute_approved-operation now d)))
          (subst (IsPaid bank st) (sym same) paid))

module _ (bank : Bank) (st : bank.State) (ctx : ExecutionContext) (k : Option ℕ)
    (checked_at now : ℕ) (s : Store) (paid : IsPaid bank st s.confirmations) where
  set_default-IsPaid :
      (c : Confirmation) (a : Account)
      → IsExecutable ctx k ConfirmationOperation.default_account_change checked_at s c
      → IsPaid bank st
          (complete_setting ctx now c (set_default_account ctx.user_id a s)).confirmations
  unfolding set_default_account
  set_default-IsPaid c a h =
      complete_setting-IsPaid bank st ctx now c s (set_default_account ctx.user_id a s) refl
        h.stored (rw (h.same_operation) refl) paid

  set_alias-IsPaid :
      (c : Confirmation) (a : Account) (alias : Text)
      → IsExecutable ctx k ConfirmationOperation.account_alias_change checked_at s c
      → IsPaid bank st (complete_setting ctx now c (set_account_alias a alias s)).confirmations
  unfolding set_account_alias
  set_alias-IsPaid c a alias h =
      complete_setting-IsPaid bank st ctx now c s (set_account_alias a alias s) refl h.stored
        (rw (h.same_operation) refl) paid

  pub execute_default-IsPaid :
      IsPaid bank st (execute_default_account ctx k checked_at now s).1.confirmations
  execute_default-IsPaid =
      execute_default_account-cases ctx k checked_at now s (λ x. IsPaid bank st x.confirmations)
        paid (λ c. invalidate-IsPaid bank st c s paid) (λ c j a h owned. set_default-IsPaid c a h)

  pub execute_alias-IsPaid :
      (lower : Text → Text)
      → IsPaid bank st (execute_account_alias lower ctx k checked_at now s).1.confirmations
  execute_alias-IsPaid lower =
      execute_account_alias-cases ctx k checked_at now s (λ x. IsPaid bank st x.confirmations) paid
        (λ c. invalidate-IsPaid bank st c s paid) lower
        (λ c j a alias h owned allowed. set_alias-IsPaid c a alias h)
