-- ===== src/Gateway/Setting/Cases.antt =====
-- The ways in which a call on a setting can end.
use kdt_ai_2_hands_on_experi.Common.{ℕ, ◌≡◌, refl, not, Option, none, some, ◌∷◌, if_rule}
use kdt_ai_2_hands_on_experi.Common.Texts.{Text}
use kdt_ai_2_hands_on_experi.Gateway.Rows.{
  Account, Confirmation, ConfirmationOperation, ConfirmationStatus, ExecutionContext, Store,
}
use kdt_ai_2_hands_on_experi.Gateway.Service.{Result, ok, err}
use kdt_ai_2_hands_on_experi.Gateway.Confirmation.{create_pending, invalidate, load_for_execute}
use kdt_ai_2_hands_on_experi.Gateway.Confirmation.Laws.{IsExecutable, load_for_execute_iff}
use kdt_ai_2_hands_on_experi.Gateway.Transfer.{get_owned_account, load_owned}
use kdt_ai_2_hands_on_experi.Gateway.Setting.{
  ExecuteReply, PrepareReply, complete_setting, execute_account_alias, execute_alias_checked,
  execute_alias_confirmed, execute_alias_fixed, execute_alias_found, execute_default_account,
  execute_default_confirmed, execute_default_fixed, execute_default_found, fixed_account,
  fixed_alias, prepare_account_alias, prepare_alias_checked, prepare_alias_loaded,
  prepare_default_account, prepare_default_loaded, set_account_alias, set_default_account,
}
use kdt_ai_2_hands_on_experi.Gateway.Setting.Alias.{
  AliasViolation, alias_policy_violation, is_unchanged, normalize_alias,
}

-- A property of the store as it is, and of every store with one pending confirmation more, is a
-- property after a preparation.
module _ (ctx : ExecutionContext) (now id : ℕ) (s : Store) (Q : Store → Type 0) (same : Q s)
    (added : (c : Confirmation) (s' : Store)
      → c.status ≡ ConfirmationStatus.pending
      → s'.confirmations ≡ c ∷ s.confirmations
      → s'.accounts ≡ s.accounts
      → Q s') where
  prepare_default_loaded-cases : (o : Result Account) → Q (prepare_default_loaded ctx now id s o).1
  unfolding prepare_default_loaded create_pending
  prepare_default_loaded-cases (err e) = same
  prepare_default_loaded-cases (ok a) =
      if_rule (λ (r : Result PrepareReply × Store). Q r.1) (not a.active) _ _ (λ _. same)
        (λ _.
          if_rule (λ (r : Result PrepareReply × Store). Q r.1) a.is_default _ _ (λ _. same)
            (λ _. added _ _ refl refl refl))

  pub prepare_default_account-cases : (k : Option ℕ) → Q (prepare_default_account ctx k now id s).1
  unfolding prepare_default_account
  prepare_default_account-cases k = prepare_default_loaded-cases (load_owned ctx k s)

  prepare_alias_checked-cases :
      (lower : Text → Text) (a : Account) (alias : Text) (o : Option AliasViolation)
      → Q (prepare_alias_checked lower ctx now id a alias s o).1
  unfolding prepare_alias_checked create_pending
  prepare_alias_checked-cases lower a alias (some v) = same
  prepare_alias_checked-cases lower a alias none =
      if_rule (λ (r : Result PrepareReply × Store). Q r.1) (is_unchanged a.alias alias) _ _
        (λ _. same) (λ _. added _ _ refl refl refl)

  prepare_alias_loaded-cases :
      (lower : Text → Text) (raw : Text) (o : Result Account)
      → Q (prepare_alias_loaded lower ctx now id raw s o).1
  unfolding prepare_alias_loaded
  prepare_alias_loaded-cases lower raw (err e) = same
  prepare_alias_loaded-cases lower raw (ok a) =
      prepare_alias_checked-cases lower a (normalize_alias raw)
        (alias_policy_violation lower ctx.user_id a (normalize_alias raw) s.accounts)

  pub prepare_account_alias-cases :
      (lower : Text → Text) (k : Option ℕ) (raw : Text)
      → Q (prepare_account_alias lower ctx k raw now id s).1
  unfolding prepare_account_alias
  prepare_account_alias-cases lower k raw =
      prepare_alias_loaded-cases lower raw (load_owned ctx k s)

-- A property of the store as it is, of every invalidation, and of the completed change of an owned
-- account, is a property after an execution.
module _ (ctx : ExecutionContext) (k : Option ℕ) (checked_at now : ℕ) (s : Store)
    (Q : Store → Type 0) (same : Q s) (refused : (c : Confirmation) → Q (invalidate c s)) where
  module _
      (changed : (c : Confirmation) (j : ℕ) (a : Account)
        → IsExecutable ctx k ConfirmationOperation.default_account_change checked_at s c
        → get_owned_account ctx.user_id j s.accounts ≡ some a
        → Q (complete_setting ctx now c (set_default_account ctx.user_id a s))) where
    execute_default_found-cases :
        (c : Confirmation) (j : ℕ) (o : Option Account)
        → IsExecutable ctx k ConfirmationOperation.default_account_change checked_at s c
        → get_owned_account ctx.user_id j s.accounts ≡ o
        → Q (execute_default_found ctx now c s o).1
    unfolding execute_default_found
    execute_default_found-cases c j none executable owned = refused c
    execute_default_found-cases c j (some a) executable owned =
        if_rule (λ (r : Result ExecuteReply × Store). Q r.1) (not a.active) _ _ (λ _. refused c)
          (λ _. changed c j a executable owned)

    execute_default_fixed-cases :
        (c : Confirmation) (o : Option ℕ)
        → IsExecutable ctx k ConfirmationOperation.default_account_change checked_at s c
        → Q (execute_default_fixed ctx now c s o).1
    unfolding execute_default_fixed
    execute_default_fixed-cases c none executable = same
    execute_default_fixed-cases c (some j) executable =
        execute_default_found-cases c j (get_owned_account ctx.user_id j s.accounts) executable refl

    execute_default_confirmed-cases :
        (o : Result Confirmation)
        → load_for_execute ctx k ConfirmationOperation.default_account_change checked_at s ≡ o
        → Q (execute_default_confirmed ctx now s o).1
    unfolding execute_default_confirmed
    execute_default_confirmed-cases (err e) loaded = same
    execute_default_confirmed-cases (ok c) loaded =
        execute_default_fixed-cases c (fixed_account c.fixed_data) (
          (load_for_execute_iff ctx k ConfirmationOperation.default_account_change checked_at s c).0
            loaded)

    pub execute_default_account-cases : Q (execute_default_account ctx k checked_at now s).1
    unfolding execute_default_account
    execute_default_account-cases =
        execute_default_confirmed-cases
          (load_for_execute ctx k ConfirmationOperation.default_account_change checked_at s) refl

  module _ (lower : Text → Text)
      (changed : (c : Confirmation) (j : ℕ) (a : Account) (alias : Text)
        → IsExecutable ctx k ConfirmationOperation.account_alias_change checked_at s c
        → get_owned_account ctx.user_id j s.accounts ≡ some a
        → alias_policy_violation lower ctx.user_id a alias s.accounts ≡ none
        → Q (complete_setting ctx now c (set_account_alias a alias s))) where
    execute_alias_checked-cases :
        (c : Confirmation) (j : ℕ) (a : Account) (alias : Text) (o : Option AliasViolation)
        → IsExecutable ctx k ConfirmationOperation.account_alias_change checked_at s c
        → get_owned_account ctx.user_id j s.accounts ≡ some a
        → alias_policy_violation lower ctx.user_id a alias s.accounts ≡ o
        → Q (execute_alias_checked lower ctx now c a alias s o).1
    unfolding execute_alias_checked
    execute_alias_checked-cases c j a alias (some v) executable owned allowed = refused c
    execute_alias_checked-cases c j a alias none executable owned allowed =
        changed c j a alias executable owned allowed

    execute_alias_found-cases :
        (c : Confirmation) (j : ℕ) (alias : Text) (o : Option Account)
        → IsExecutable ctx k ConfirmationOperation.account_alias_change checked_at s c
        → get_owned_account ctx.user_id j s.accounts ≡ o
        → Q (execute_alias_found lower ctx now c alias s o).1
    unfolding execute_alias_found
    execute_alias_found-cases c j alias none executable owned = refused c
    execute_alias_found-cases c j alias (some a) executable owned =
        if_rule (λ (r : Result ExecuteReply × Store). Q r.1) (not a.active) _ _ (λ _. refused c)
          (λ _.
            execute_alias_checked-cases c j a alias
              (alias_policy_violation lower ctx.user_id a alias s.accounts) executable owned refl)

    execute_alias_fixed-cases :
        (c : Confirmation) (o : Option ℕ) (named : Option Text)
        → IsExecutable ctx k ConfirmationOperation.account_alias_change checked_at s c
        → Q (execute_alias_fixed lower ctx now c s o named).1
    unfolding execute_alias_fixed
    execute_alias_fixed-cases c none named executable = same
    execute_alias_fixed-cases c (some j) none executable = same
    execute_alias_fixed-cases c (some j) (some alias) executable =
        execute_alias_found-cases c j alias (get_owned_account ctx.user_id j s.accounts) executable
          refl

    execute_alias_confirmed-cases :
        (o : Result Confirmation)
        → load_for_execute ctx k ConfirmationOperation.account_alias_change checked_at s ≡ o
        → Q (execute_alias_confirmed lower ctx now s o).1
    unfolding execute_alias_confirmed
    execute_alias_confirmed-cases (err e) loaded = same
    execute_alias_confirmed-cases (ok c) loaded =
        execute_alias_fixed-cases c (fixed_account c.fixed_data) (fixed_alias c.fixed_data) (
          (load_for_execute_iff ctx k ConfirmationOperation.account_alias_change checked_at s c).0
            loaded)

    pub execute_account_alias-cases : Q (execute_account_alias lower ctx k checked_at now s).1
    unfolding execute_account_alias
    execute_account_alias-cases =
        execute_alias_confirmed-cases
          (load_for_execute ctx k ConfirmationOperation.account_alias_change checked_at s) refl
