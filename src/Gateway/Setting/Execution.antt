-- ===== src/Gateway/Setting/Execution.antt =====
-- What a completed change of a setting has done.
pub mod Aliases
use kdt_ai_2_hands_on_experi.Common.{
  ℕ, ◌≡◌, refl, sym, ap, ◌∙◌, subst, Bool, true, false, not, if◌then◌else◌, Option, none, some,
  List, [], ◌∷◌, arith, Bool-cases, inl, inr,
}
use mathlib.Core.Option
use kdt_ai_2_hands_on_experi.Common.Texts.{Text}
use kdt_ai_2_hands_on_experi.Gateway.Rows.{
  Account, Confirmation, ConfirmationOperation, ConfirmationStatus, ExecutionContext, Store,
}
use kdt_ai_2_hands_on_experi.Gateway.Service.{Result, ok, err}
use kdt_ai_2_hands_on_experi.Gateway.Confirmation.{
  execute_approved, get_confirmation, invalidate, is_approved, load_for_execute, mark_executed,
}
use kdt_ai_2_hands_on_experi.Gateway.Confirmation.Laws.{
  IsExecutable, execute_approved-id, get_confirmation-update_self, load_for_execute_iff,
}
use kdt_ai_2_hands_on_experi.Gateway.Transfer.{get_account, get_owned_account}
use kdt_ai_2_hands_on_experi.Gateway.Setting.{
  ExecuteReply, complete_setting, execute_account_alias, execute_alias_checked,
  execute_alias_confirmed, execute_alias_fixed, execute_alias_found, execute_default_account,
  execute_default_confirmed, execute_default_fixed, execute_default_found, fixed_account,
  fixed_alias, set_account_alias, set_default_account, setting_log,
}
use kdt_ai_2_hands_on_experi.Gateway.Setting.Alias.{AliasViolation, alias_policy_violation}
use kdt_ai_2_hands_on_experi.Gateway.Setting.Accounts.{get_account-id}
use kdt_ai_2_hands_on_experi.Gateway.Setting.Accounts.Kept.{
  set_account_alias-row, set_default_account-row, with_alias, with_default,
}

-- The rows after a change: `row j` says what the row under the id `j` became.
pub record Changes (ctx : ExecutionContext) (k : Option ℕ) (operation : ConfirmationOperation)
    (checked_at now : ℕ) (s : Store) (c : Confirmation) (a : Account) (row : ℕ → Account → Account)
    (s' : Store) : Type 0 where
  pub executable : IsExecutable ctx k operation checked_at s c
  pub fixed :
      (j : ℕ) × (fixed_account c.fixed_data ≡ some j)
      × (get_owned_account ctx.user_id j s.accounts ≡ some a)
  pub active : a.active ≡ true
  pub rows : (j : ℕ) → get_account j s'.accounts ≡ Option.map (row j) (get_account j s.accounts)
  pub written :
      get_confirmation c.id s'.confirmations
      ≡ some (record c { status = ConfirmationStatus.executed; executed_at = some now })
  pub audited : s'.audit_logs ≡ setting_log ctx c ∷ s.audit_logs

complete_setting-written :
    (ctx : ExecutionContext) (now : ℕ) (c : Confirmation) (s : Store)
    → get_confirmation c.id s.confirmations ≡ some c
    → c.status ≡ ConfirmationStatus.approved
    → (get_confirmation c.id (complete_setting ctx now c s).confirmations
        ≡ some (record c { status = ConfirmationStatus.executed; executed_at = some now }))
      × ((complete_setting ctx now c s).audit_logs ≡ setting_log ctx c ∷ s.audit_logs)
      × ((complete_setting ctx now c s).accounts ≡ s.accounts)
unfolding complete_setting mark_executed
complete_setting-written ctx now c s stored approved =
    let won : is_approved (get_confirmation c.id s.confirmations) ≡ true =
      rw stored (ground (arith, approved)) in
    rw won (
      get_confirmation-update_self c.id (execute_approved now) c s.confirmations
            (execute_approved-id now) stored
          ∙ ground (arith, approved),
      refl,
      refl,
    )

module _ (ctx : ExecutionContext) (k : Option ℕ) (checked_at now : ℕ) (s : Store) where
  -- The write of the setting is `s1`; the confirmation is executed after it.
  pub complete_setting-Changes :
      (operation : ConfirmationOperation) (c : Confirmation) (a : Account) (j : ℕ)
      (row : ℕ → Account → Account) (s1 : Store)
      → IsExecutable ctx k operation checked_at s c
      → fixed_account c.fixed_data ≡ some j
      → get_owned_account ctx.user_id j s.accounts ≡ some a
      → a.active ≡ true
      → s1.confirmations ≡ s.confirmations
      → s1.audit_logs ≡ s.audit_logs
      → ((n : ℕ) → get_account n s1.accounts ≡ Option.map (row n) (get_account n s.accounts))
      → Changes ctx k operation checked_at now s c a row (complete_setting ctx now c s1)
  complete_setting-Changes operation c a j row s1 executable fixed owned active same_c same_l rows =
      let (written, audited, same) =
        complete_setting-written ctx now c s1
          (ap (get_confirmation c.id) same_c ∙ executable.stored) executable.status in
      record {
        executable = executable;
        fixed = (j, fixed, owned);
        active = active;
        rows = λ n. ap (get_account n) same ∙ rows n;
        written = written;
        audited = audited ∙ ap (λ l. setting_log ctx c ∷ l) same_l;
      }

  abbrev DefaultChanges : Confirmation → Account → Store → Type 0
  DefaultChanges c a s' =
      Changes ctx k ConfirmationOperation.default_account_change checked_at now s c a
        (with_default ctx.user_id a.id) s'

  set_default-Changes :
      (c : Confirmation) (a : Account) (j : ℕ)
      → IsExecutable ctx k ConfirmationOperation.default_account_change checked_at s c
      → fixed_account c.fixed_data ≡ some j
      → get_owned_account ctx.user_id j s.accounts ≡ some a
      → a.active ≡ true
      → DefaultChanges c a (complete_setting ctx now c (set_default_account ctx.user_id a s))
  unfolding set_default_account
  set_default-Changes c a j executable fixed owned active =
      complete_setting-Changes ConfirmationOperation.default_account_change c a j
        (with_default ctx.user_id a.id) (set_default_account ctx.user_id a s) executable fixed owned
        active refl refl (set_default_account-row ctx.user_id a s)

  execute_default_found-Changes :
      (c : Confirmation) (j i : ℕ) (alias : Option Text) (o : Option Account)
      → IsExecutable ctx k ConfirmationOperation.default_account_change checked_at s c
      → fixed_account c.fixed_data ≡ some j
      → get_owned_account ctx.user_id j s.accounts ≡ o
      → (execute_default_found ctx now c s o).0 ≡ ok (ExecuteReply.completed i alias)
      → (a : Account) × (a.id ≡ i) × DefaultChanges c a (execute_default_found ctx now c s o).1
  unfolding execute_default_found
  execute_default_found-Changes c j i alias none executable fixed owned h = cc
  execute_default_found-Changes c j i alias (some a) executable fixed owned h =
      elim (Bool-cases a.active) [
        | inl active ↦
            let s' = complete_setting ctx now c (set_default_account ctx.user_id a s) in
            let equal : (execute_default_found ctx now c s (some a)).1 ≡ s' =
              ground (arith, active) in
            (
              a,
              ground (arith, active, h),
              subst (DefaultChanges c a) (sym equal)
                  (set_default-Changes c a j executable fixed owned active),
            )
        | inr inactive ↦ absurd (ground (arith, inactive, h))
      ]

  execute_default_fixed-Changes :
      (c : Confirmation) (i : ℕ) (alias : Option Text) (o : Option ℕ)
      → IsExecutable ctx k ConfirmationOperation.default_account_change checked_at s c
      → fixed_account c.fixed_data ≡ o
      → (execute_default_fixed ctx now c s o).0 ≡ ok (ExecuteReply.completed i alias)
      → (a : Account) × (a.id ≡ i) × DefaultChanges c a (execute_default_fixed ctx now c s o).1
  unfolding execute_default_fixed
  execute_default_fixed-Changes c i alias none executable fixed h = cc
  execute_default_fixed-Changes c i alias (some j) executable fixed h =
      execute_default_found-Changes c j i alias (get_owned_account ctx.user_id j s.accounts)
        executable fixed refl h

  execute_default_confirmed-Changes :
      (i : ℕ) (alias : Option Text) (o : Result Confirmation)
      → load_for_execute ctx k ConfirmationOperation.default_account_change checked_at s ≡ o
      → (execute_default_confirmed ctx now s o).0 ≡ ok (ExecuteReply.completed i alias)
      → (c : Confirmation) × (a : Account) × (a.id ≡ i)
        × DefaultChanges c a (execute_default_confirmed ctx now s o).1
  unfolding execute_default_confirmed
  execute_default_confirmed-Changes i alias (err e) loaded h = cc
  execute_default_confirmed-Changes i alias (ok c) loaded h =
      let executable =
        (load_for_execute_iff ctx k ConfirmationOperation.default_account_change checked_at s c).0
          loaded in
      let (a, same, changes) =
        execute_default_fixed-Changes c i alias (fixed_account c.fixed_data) executable refl h in
      (c, a, same, changes)

  -- A completed change of the default account had an approved, live confirmation of the user for an
  -- active account of the user. Afterwards that account is a default account, every other account of
  -- the user is not, the accounts of other users and all other columns are as they were, and the
  -- confirmation is executed with one audit row.
  pub execute_default_account-Changes :
      (i : ℕ) (alias : Option Text)
      → (execute_default_account ctx k checked_at now s).0 ≡ ok (ExecuteReply.completed i alias)
      → (c : Confirmation) × (a : Account) × (a.id ≡ i)
        × Changes ctx k ConfirmationOperation.default_account_change checked_at now s c a
            (with_default ctx.user_id a.id)
            (execute_default_account ctx k checked_at now s).1
  unfolding execute_default_account
  execute_default_account-Changes i alias h =
      execute_default_confirmed-Changes i alias
        (load_for_execute ctx k ConfirmationOperation.default_account_change checked_at s) refl h
