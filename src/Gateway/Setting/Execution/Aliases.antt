-- ===== src/Gateway/Setting/Execution/Aliases.antt =====
-- What a completed change of an alias has done.
use kdt_ai_2_hands_on_experi.Common.{
  ℕ, ◌≡◌, refl, sym, ap, ◌∙◌, subst, true, Option, none, some, arith, Bool-cases, inl, inr,
}
use kdt_ai_2_hands_on_experi.Common.Texts.{Text}
use kdt_ai_2_hands_on_experi.Gateway.Rows.{
  Account, Confirmation, ConfirmationOperation, ExecutionContext, Store,
}
use kdt_ai_2_hands_on_experi.Gateway.Service.{Result, ok, err}
use kdt_ai_2_hands_on_experi.Gateway.Confirmation.{load_for_execute}
use kdt_ai_2_hands_on_experi.Gateway.Confirmation.Laws.{IsExecutable, load_for_execute_iff}
use kdt_ai_2_hands_on_experi.Gateway.Transfer.{get_owned_account}
use kdt_ai_2_hands_on_experi.Gateway.Setting.{
  ExecuteReply, complete_setting, execute_account_alias, execute_alias_checked,
  execute_alias_confirmed, execute_alias_fixed, execute_alias_found, fixed_account, fixed_alias,
  set_account_alias,
}
use kdt_ai_2_hands_on_experi.Gateway.Setting.Alias.{AliasViolation, alias_policy_violation}
use kdt_ai_2_hands_on_experi.Gateway.Setting.Accounts.Kept.{set_account_alias-row, with_alias}
use kdt_ai_2_hands_on_experi.Gateway.Setting.Execution.{Changes, complete_setting-Changes}

module _ (lower : Text → Text) (ctx : ExecutionContext) (k : Option ℕ) (checked_at now : ℕ)
    (s : Store) where
  -- The alias met the policy, the confirmation fixed it, and the account's row has it now.
  abbrev pub AliasChanges : Confirmation → Account → Text → Store → Type 0
  AliasChanges c a alias s' =
      (alias_policy_violation lower ctx.user_id a alias s.accounts ≡ none)
      × (fixed_alias c.fixed_data ≡ some alias)
      × Changes ctx k ConfirmationOperation.account_alias_change checked_at now s c a
          (λ j. with_alias a.id j alias) s'

  set_alias-Changes :
      (c : Confirmation) (a : Account) (j : ℕ) (alias : Text)
      → IsExecutable ctx k ConfirmationOperation.account_alias_change checked_at s c
      → fixed_account c.fixed_data ≡ some j
      → get_owned_account ctx.user_id j s.accounts ≡ some a
      → a.active ≡ true
      → Changes ctx k ConfirmationOperation.account_alias_change checked_at now s c a
          (λ n. with_alias a.id n alias)
          (complete_setting ctx now c (set_account_alias a alias s))
  unfolding set_account_alias
  set_alias-Changes c a j alias executable fixed owned active =
      complete_setting-Changes ctx k checked_at now s ConfirmationOperation.account_alias_change c a
        j (λ n. with_alias a.id n alias) (set_account_alias a alias s) executable fixed owned active
        refl refl (set_account_alias-row a alias s)

  execute_alias_checked-Changes :
      (c : Confirmation) (a : Account) (j i : ℕ) (alias : Text) (new : Option Text)
      (o : Option AliasViolation)
      → IsExecutable ctx k ConfirmationOperation.account_alias_change checked_at s c
      → fixed_account c.fixed_data ≡ some j
      → fixed_alias c.fixed_data ≡ some alias
      → get_owned_account ctx.user_id j s.accounts ≡ some a
      → a.active ≡ true
      → alias_policy_violation lower ctx.user_id a alias s.accounts ≡ o
      → (execute_alias_checked lower ctx now c a alias s o).0 ≡ ok (ExecuteReply.completed i new)
      → (a.id ≡ i)
        × (new ≡ some alias)
        × AliasChanges c a alias (execute_alias_checked lower ctx now c a alias s o).1
  unfolding execute_alias_checked
  execute_alias_checked-Changes c a j i alias new (some v) executable fixed named owned active e h =
      cc
  execute_alias_checked-Changes c a j i alias new none executable fixed named owned active e h = (
    ground (arith, h),
    ground (arith, h),
    (e, named, set_alias-Changes c a j alias executable fixed owned active),
  )

  execute_alias_found-Changes :
      (c : Confirmation) (j i : ℕ) (alias : Text) (new : Option Text) (o : Option Account)
      → IsExecutable ctx k ConfirmationOperation.account_alias_change checked_at s c
      → fixed_account c.fixed_data ≡ some j
      → fixed_alias c.fixed_data ≡ some alias
      → get_owned_account ctx.user_id j s.accounts ≡ o
      → (execute_alias_found lower ctx now c alias s o).0 ≡ ok (ExecuteReply.completed i new)
      → (a : Account) × (a.id ≡ i)
        × (new ≡ some alias)
        × AliasChanges c a alias (execute_alias_found lower ctx now c alias s o).1
  unfolding execute_alias_found
  execute_alias_found-Changes c j i alias new none executable fixed named owned h = cc
  execute_alias_found-Changes c j i alias new (some a) executable fixed named owned h =
      elim (Bool-cases a.active) [
        | inl active ↦
            let o = alias_policy_violation lower ctx.user_id a alias s.accounts in
            let equal : execute_alias_found lower ctx now c alias s (some a)
                ≡ execute_alias_checked lower ctx now c a alias s o =
              ground (arith, active) in
            let (same, shown, changes) =
              execute_alias_checked-Changes c a j i alias new o executable fixed named owned active
                refl (ap (λ r. r.0) (sym equal) ∙ h) in
            (a, same, shown, subst (λ r. AliasChanges c a alias r.1) (sym equal) changes)
        | inr inactive ↦ absurd (ground (arith, inactive, h))
      ]

  execute_alias_fixed-Changes :
      (c : Confirmation) (i : ℕ) (new : Option Text) (o : Option ℕ) (named : Option Text)
      → IsExecutable ctx k ConfirmationOperation.account_alias_change checked_at s c
      → fixed_account c.fixed_data ≡ o
      → fixed_alias c.fixed_data ≡ named
      → (execute_alias_fixed lower ctx now c s o named).0 ≡ ok (ExecuteReply.completed i new)
      → (a : Account) × (alias : Text) × (a.id ≡ i)
        × (new ≡ some alias)
        × AliasChanges c a alias (execute_alias_fixed lower ctx now c s o named).1
  unfolding execute_alias_fixed
  execute_alias_fixed-Changes c i new none named executable e f h = cc
  execute_alias_fixed-Changes c i new (some j) none executable e f h = cc
  execute_alias_fixed-Changes c i new (some j) (some alias) executable e f h =
      let (a, same, shown, changes) =
        execute_alias_found-Changes c j i alias new (get_owned_account ctx.user_id j s.accounts)
          executable e f refl h in
      (a, alias, same, shown, changes)

  execute_alias_confirmed-Changes :
      (i : ℕ) (new : Option Text) (o : Result Confirmation)
      → load_for_execute ctx k ConfirmationOperation.account_alias_change checked_at s ≡ o
      → (execute_alias_confirmed lower ctx now s o).0 ≡ ok (ExecuteReply.completed i new)
      → (c : Confirmation) × (a : Account) × (alias : Text) × (a.id ≡ i)
        × (new ≡ some alias)
        × AliasChanges c a alias (execute_alias_confirmed lower ctx now s o).1
  unfolding execute_alias_confirmed
  execute_alias_confirmed-Changes i new (err e) loaded h = cc
  execute_alias_confirmed-Changes i new (ok c) loaded h =
      let executable =
        (load_for_execute_iff ctx k ConfirmationOperation.account_alias_change checked_at s c).0
          loaded in
      let (a, alias, same, shown, changes) =
        execute_alias_fixed-Changes c i new (fixed_account c.fixed_data) (fixed_alias c.fixed_data)
          executable refl refl h in
      (c, a, alias, same, shown, changes)

  -- A completed change of an alias had an approved, live confirmation of the user for an active account
  -- of the user, and the alias that the confirmation fixed met the policy on the rows as they were.
  -- Afterwards that account has this alias, every other row and column is as it was, and the
  -- confirmation is executed with one audit row.
  pub execute_account_alias-Changes :
      (i : ℕ) (new : Option Text)
      → (execute_account_alias lower ctx k checked_at now s).0 ≡ ok (ExecuteReply.completed i new)
      → let s' = (execute_account_alias lower ctx k checked_at now s).1 in
        (c : Confirmation) × (a : Account) × (alias : Text) × (a.id ≡ i)
        × (new ≡ some alias)
        × AliasChanges c a alias s'
  unfolding execute_account_alias
  execute_account_alias-Changes i new h =
      execute_alias_confirmed-Changes i new
        (load_for_execute ctx k ConfirmationOperation.account_alias_change checked_at s) refl h
