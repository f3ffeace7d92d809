-- ===== src/Gateway/Setting.antt =====
-- services/agent_tools/setting_service.py and repository/account_repository.py: the default account
-- and the aliases of a user's accounts, each changed by an approved confirmation.
pub mod Alias
pub mod Accounts
pub mod Execution
pub mod Cases
use kdt_ai_2_hands_on_experi.Common.{
  ℕ, Bool, true, false, not, ◌&&◌, ◌==◌, if◌then◌else◌, Option, none, some, List, [], ◌∷◌,
}
use kdt_ai_2_hands_on_experi.Common.Texts.{Text}
use kdt_ai_2_hands_on_experi.Gateway.Rows.{
  Account, AuditEvent, Confirmation, ConfirmationOperation, ExecutionContext, FinancialAuditLog,
  FixedData, Store,
}
use kdt_ai_2_hands_on_experi.Gateway.Service.{Error, Result, ok, err}
use kdt_ai_2_hands_on_experi.Gateway.Confirmation.{
  create_pending, invalidate, load_for_execute, mark_executed,
}
use kdt_ai_2_hands_on_experi.Gateway.AuthContext.{record_audit}
use kdt_ai_2_hands_on_experi.Gateway.Transfer.{get_owned_account, load_owned}
use kdt_ai_2_hands_on_experi.Gateway.Transfer.Internal.{created_log}
use kdt_ai_2_hands_on_experi.Gateway.Setting.Alias.{
  AliasViolation, alias_policy_violation, is_unchanged, normalize_alias,
}

pub data SettingReason : Type 0 where
  account_not_eligible alias_not_allowed : SettingReason

-- What a `prepare` replies with; `ready_for_confirmation` shows the current default account, if any.
pub data PrepareReply : Type 0 where
  correction_required : SettingReason → PrepareReply
  unchanged : (account : ℕ) → Option Text → PrepareReply
  ready_for_confirmation : Confirmation → Option Account → PrepareReply

pub data ExecuteReply : Type 0 where
  correction_required : SettingReason → ExecuteReply
  completed : (account : ℕ) → Option Text → ExecuteReply

-- `get_default_account`
abbrev pub get_default_account : ℕ → List Account → Option Account
get_default_account user [] = none
get_default_account user (a ∷ rest) =
    if a.user_id == user && a.is_default then some a else get_default_account user rest

abbrev pub clear_default : ℕ → List Account → List Account
clear_default user [] = []
clear_default user (a ∷ rest) =
    (if a.user_id == user && a.is_default then record a { is_default = false } else a)
    ∷ clear_default user rest

abbrev pub update_account : ℕ → (Account → Account) → List Account → List Account
update_account k f [] = []
update_account k f (a ∷ rest) = (if k == a.id then f a else a) ∷ update_account k f rest

-- First the user's old default is cleared, then the row becomes the default.
unfoldable pub set_default_account : ℕ → Account → Store → Store
set_default_account user a s = record s {
  accounts =
      update_account a.id (λ b. record b { is_default = true }) (clear_default user s.accounts);
}

unfoldable pub set_account_alias : Account → Text → Store → Store
set_account_alias a alias s = record s {
  accounts = update_account a.id (λ b. record b { alias = some alias }) s.accounts;
}

abbrev pub setting_log : ExecutionContext → Confirmation → FinancialAuditLog
setting_log ctx c = record {
  user_id = ctx.user_id;
  event_type = AuditEvent.setting_change_completed;
  operation = c.operation;
  confirmation_id = c.id;
  auth_context_id = none;
  transaction_id = none;
}

-- Only the call that turns the row to EXECUTED writes the audit event.
unfoldable pub complete_setting : ExecutionContext → ℕ → Confirmation → Store → Store
complete_setting ctx now c s =
    let (won, s') = mark_executed now c s in if won then record_audit (setting_log ctx c) s' else s'

prepare_default_loaded :
    ExecutionContext → (now id : ℕ) → Store → Result Account → Result PrepareReply × Store
unfolding create_pending
prepare_default_loaded ctx now id s (err e) = (err e, s)
prepare_default_loaded ctx now id s (ok a) =
    if not a.active
    then (ok (PrepareReply.correction_required account_not_eligible), s)
    else if a.is_default
    then (ok (PrepareReply.unchanged a.id none), s)
    else let (c, s') =
        create_pending ctx ConfirmationOperation.default_account_change
          (FixedData.default_account_data a.id) now id s in
      (
        ok (PrepareReply.ready_for_confirmation c (get_default_account ctx.user_id s.accounts)),
        record_audit (created_log ctx c) s',
      )

-- An id is what `UUID(raw)` gave, `none` where it raised; `id` is drawn for the confirmation.
unfoldable pub prepare_default_account :
    ExecutionContext → Option ℕ → (now id : ℕ) → Store → Result PrepareReply × Store
unfolding prepare_default_loaded load_owned
prepare_default_account ctx k now id s = prepare_default_loaded ctx now id s (load_owned ctx k s)

execute_default_found :
    ExecutionContext → ℕ → Confirmation → Store → Option Account → Result ExecuteReply × Store
unfolding set_default_account complete_setting invalidate
execute_default_found ctx now c s none =
    (ok (ExecuteReply.correction_required account_not_eligible), invalidate c s)
execute_default_found ctx now c s (some a) =
    if not a.active
    then (ok (ExecuteReply.correction_required account_not_eligible), invalidate c s)
    else (
      ok (ExecuteReply.completed a.id none),
      complete_setting ctx now c (set_default_account ctx.user_id a s),
    )

-- `fixed_data["account_id"]` and `fixed_data["alias"]`
abbrev pub fixed_account : FixedData → Option ℕ
fixed_account (FixedData.default_account_data k) = some k
fixed_account (FixedData.account_alias_data k alias) = some k
fixed_account (FixedData.internal_data from to amount) = none
fixed_account (FixedData.external_data from to name amount) = none

abbrev pub fixed_alias : FixedData → Option Text
fixed_alias (FixedData.account_alias_data k alias) = some alias
fixed_alias other = none

execute_default_fixed :
    ExecutionContext → ℕ → Confirmation → Store → Option ℕ → Result ExecuteReply × Store
unfolding execute_default_found
execute_default_fixed ctx now c s none = (err Error.key_error, s)
execute_default_fixed ctx now c s (some k) =
    execute_default_found ctx now c s (get_owned_account ctx.user_id k s.accounts)

execute_default_confirmed :
    ExecutionContext → ℕ → Store → Result Confirmation → Result ExecuteReply × Store
unfolding execute_default_fixed
execute_default_confirmed ctx now s (err e) = (err e, s)
execute_default_confirmed ctx now s (ok c) =
    execute_default_fixed ctx now c s (fixed_account c.fixed_data)

-- The confirmation is read at `checked_at` and executed at `now`.
unfoldable pub execute_default_account :
    ExecutionContext → Option ℕ → (checked_at now : ℕ) → Store → Result ExecuteReply × Store
unfolding execute_default_confirmed load_for_execute
execute_default_account ctx k checked_at now s =
    execute_default_confirmed ctx now s
      (load_for_execute ctx k ConfirmationOperation.default_account_change checked_at s)

module _ (lower : Text → Text) where
  prepare_alias_checked :
      ExecutionContext
      → (now id : ℕ) → Account
      → Text
      → Store
      → Option AliasViolation
      → Result PrepareReply × Store
  unfolding create_pending is_unchanged
  prepare_alias_checked ctx now id a alias s (some v) =
      (ok (PrepareReply.correction_required alias_not_allowed), s)
  prepare_alias_checked ctx now id a alias s none =
      if is_unchanged a.alias alias
      then (ok (PrepareReply.unchanged a.id (some alias)), s)
      else let (c, s') =
          create_pending ctx ConfirmationOperation.account_alias_change
            (FixedData.account_alias_data a.id alias) now id s in
        (ok (PrepareReply.ready_for_confirmation c none), record_audit (created_log ctx c) s')

  prepare_alias_loaded :
      ExecutionContext → (now id : ℕ) → Text → Store → Result Account → Result PrepareReply × Store
  unfolding prepare_alias_checked alias_policy_violation normalize_alias
  prepare_alias_loaded ctx now id raw s (err e) = (err e, s)
  prepare_alias_loaded ctx now id raw s (ok a) =
      let alias = normalize_alias raw in
      prepare_alias_checked ctx now id a alias s
        (alias_policy_violation lower ctx.user_id a alias s.accounts)

  unfoldable pub prepare_account_alias :
      ExecutionContext → Option ℕ → Text → (now id : ℕ) → Store → Result PrepareReply × Store
  unfolding prepare_alias_loaded load_owned
  prepare_account_alias ctx k raw now id s =
      prepare_alias_loaded ctx now id raw s (load_owned ctx k s)

  execute_alias_checked :
      ExecutionContext
      → ℕ
      → Confirmation
      → Account
      → Text
      → Store
      → Option AliasViolation
      → Result ExecuteReply × Store
  unfolding set_account_alias complete_setting invalidate
  execute_alias_checked ctx now c a alias s (some v) =
      (ok (ExecuteReply.correction_required alias_not_allowed), invalidate c s)
  execute_alias_checked ctx now c a alias s none = (
    ok (ExecuteReply.completed a.id (some alias)),
    complete_setting ctx now c (set_account_alias a alias s),
  )

  execute_alias_found :
      ExecutionContext
      → ℕ
      → Confirmation
      → Text
      → Store
      → Option Account
      → Result ExecuteReply × Store
  unfolding execute_alias_checked alias_policy_violation invalidate
  execute_alias_found ctx now c alias s none =
      (ok (ExecuteReply.correction_required account_not_eligible), invalidate c s)
  execute_alias_found ctx now c alias s (some a) =
      if not a.active
      then (ok (ExecuteReply.correction_required account_not_eligible), invalidate c s)
      else execute_alias_checked ctx now c a alias s
          (alias_policy_violation lower ctx.user_id a alias s.accounts)

  execute_alias_fixed :
      ExecutionContext
      → ℕ
      → Confirmation
      → Store
      → Option ℕ
      → Option Text
      → Result ExecuteReply × Store
  unfolding execute_alias_found
  execute_alias_fixed ctx now c s (some k) (some alias) =
      execute_alias_found ctx now c alias s (get_owned_account ctx.user_id k s.accounts)
  execute_alias_fixed ctx now c s k alias = (err Error.key_error, s)

  execute_alias_confirmed :
      ExecutionContext → ℕ → Store → Result Confirmation → Result ExecuteReply × Store
  unfolding execute_alias_fixed
  execute_alias_confirmed ctx now s (err e) = (err e, s)
  execute_alias_confirmed ctx now s (ok c) =
      execute_alias_fixed ctx now c s (fixed_account c.fixed_data) (fixed_alias c.fixed_data)

  unfoldable pub execute_account_alias :
      ExecutionContext → Option ℕ → (checked_at now : ℕ) → Store → Result ExecuteReply × Store
  unfolding execute_alias_confirmed load_for_execute
  execute_account_alias ctx k checked_at now s =
      execute_alias_confirmed ctx now s
        (load_for_execute ctx k ConfirmationOperation.account_alias_change checked_at s)
