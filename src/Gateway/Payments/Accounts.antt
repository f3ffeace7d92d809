-- ===== src/Gateway/Payments/Accounts.antt =====
-- Every step of the gateway keeps one default account of a user at most, and no alias twice.
use kdt_ai_2_hands_on_experi.Common.{ℕ, ◌≡◌, refl, sym, subst, false, arith, some, none}
use kdt_ai_2_hands_on_experi.Common.Texts.{Text}
use kdt_ai_2_hands_on_experi.Gateway.Rows.{Account, Confirmation, ExecutionContext, Store}
use kdt_ai_2_hands_on_experi.Gateway.Bank.{Bank}
use kdt_ai_2_hands_on_experi.Gateway.Confirmation.{approve, invalidate}
use kdt_ai_2_hands_on_experi.Gateway.Confirmation.Decisions.{resume_after_approval-cases}
use kdt_ai_2_hands_on_experi.Gateway.AuthContext.Attempts.{
  authenticate-rows, create_auth_context-rows,
}
use kdt_ai_2_hands_on_experi.Gateway.Transfer.{get_account, get_owned_account}
use kdt_ai_2_hands_on_experi.Gateway.Transfer.Internal.Once.{execute_internal_transfer-accounts}
use kdt_ai_2_hands_on_experi.Gateway.Transfer.Internal.Preparation.{prepare_internal_transfer-cases}
use kdt_ai_2_hands_on_experi.Gateway.Transfer.External.Preparation.{prepare_external_transfer-cases}
use kdt_ai_2_hands_on_experi.Gateway.Transfer.ExternalExecution.Cases.{
  execute_external_transfer-accounts,
}
use kdt_ai_2_hands_on_experi.Gateway.Setting.{
  complete_setting, set_account_alias, set_default_account,
}
use kdt_ai_2_hands_on_experi.Gateway.Setting.Alias.{alias_exists_for_user, alias_policy_violation}
use kdt_ai_2_hands_on_experi.Gateway.Setting.Accounts.{IsAccounts, get_owned_account-get}
use kdt_ai_2_hands_on_experi.Gateway.Setting.Accounts.Kept.{
  set_account_alias-IsAccounts, set_default_account-IsAccounts,
}
use kdt_ai_2_hands_on_experi.Gateway.Setting.Cases.{
  execute_account_alias-cases, execute_default_account-cases, prepare_account_alias-cases,
  prepare_default_account-cases,
}
use kdt_ai_2_hands_on_experi.Gateway.Payments.{
  Request, serve, prepare_internal_request, prepare_external_request, decide_request, auth_request,
  attempt_request, execute_internal_request, execute_external_request, bank_request,
  prepare_default_request, prepare_alias_request, execute_default_request, execute_alias_request,
}
use kdt_ai_2_hands_on_experi.Gateway.Payments.Settings.{complete_setting-rows}

alias_policy_violation-free :
    (lower : Text → Text) (user : ℕ) (a : Account) (alias : Text) (s : Store)
    → alias_policy_violation lower user a alias s.accounts ≡ none
    → alias_exists_for_user user alias a.id s.accounts ≡ false
unfolding alias_policy_violation
alias_policy_violation-free lower user a alias s h = ground (arith, h)

same-IsAccounts :
    (s s' : Store) → s'.accounts ≡ s.accounts → IsAccounts s.accounts → IsAccounts s'.accounts
same-IsAccounts s s' e h = subst IsAccounts (sym e) h

approve-accounts :
    (now : ℕ) (c : Confirmation) (s : Store) → (approve now c s).accounts ≡ s.accounts
unfolding approve
approve-accounts now c s = refl

invalidate-accounts : (c : Confirmation) (s : Store) → (invalidate c s).accounts ≡ s.accounts
unfolding invalidate
invalidate-accounts c s = refl

module _ (ctx : ExecutionContext) (now : ℕ) (c : Confirmation) (s : Store)
    (rows : IsAccounts s.accounts) (j : ℕ) (a : Account)
    (owned : get_owned_account ctx.user_id j s.accounts ≡ some a) where
  set_default-IsAccounts :
      IsAccounts (complete_setting ctx now c (set_default_account ctx.user_id a s)).accounts
  set_default-IsAccounts =
      let (found, owner, same) =
        get_owned_account-get ctx.user_id j a s.accounts rows.unique owned in
      subst IsAccounts
        (sym ((complete_setting-rows ctx now c (set_default_account ctx.user_id a s)).0))
        (set_default_account-IsAccounts ctx.user_id a s rows
          (subst (λ i. get_account i s.accounts ≡ some a) (sym same) found) owner)

  set_alias-IsAccounts :
      (lower : Text → Text) (alias : Text)
      → alias_policy_violation lower ctx.user_id a alias s.accounts ≡ none
      → IsAccounts (complete_setting ctx now c (set_account_alias a alias s)).accounts
  set_alias-IsAccounts lower alias allowed =
      let (found, owner, same) =
        get_owned_account-get ctx.user_id j a s.accounts rows.unique owned in
      subst IsAccounts (sym ((complete_setting-rows ctx now c (set_account_alias a alias s)).0)) (
        set_account_alias-IsAccounts ctx.user_id a s rows
          (subst (λ i. get_account i s.accounts ≡ some a) (sym same) found) owner alias
          (alias_policy_violation-free lower ctx.user_id a alias s allowed))

-- Every request to the gateway, and every call of other clients of the bank, keeps this of the rows of
-- accounts: ids are unique, a user has one default account at most, and no two accounts of a user have
-- the same alias.
pub serve-IsAccounts :
    (bank : Bank) (lower : Text → Text) (r : Request) (s : Store) (st : bank.State)
    → IsAccounts s.accounts
    → IsAccounts (serve bank lower r (s, st)).0.accounts
unfolding serve
serve-IsAccounts bank lower (prepare_internal_request ctx req clock id) s st h =
    prepare_internal_transfer-cases bank ctx req clock id s st (λ x. IsAccounts x.accounts)
      (λ s' e kept. same-IsAccounts s s' kept h)
      (λ c s' pending e kept. same-IsAccounts s s' kept h)
serve-IsAccounts bank lower (prepare_external_request ctx req clock id) s st h =
    prepare_external_transfer-cases bank ctx req clock id s st (λ x. IsAccounts x.accounts)
      (λ s' e kept. same-IsAccounts s s' kept h)
      (λ c s' pending e kept. same-IsAccounts s s' kept h)
serve-IsAccounts bank lower (decide_request component user k now approves) s st h =
    resume_after_approval-cases now s (λ x. IsAccounts x.accounts) h
      (λ c. same-IsAccounts s (approve now c s) (approve-accounts now c s) h)
      (λ c. same-IsAccounts s (invalidate c s) (invalidate-accounts c s) h) component user k
      approves
serve-IsAccounts bank lower (auth_request ctx k now id) s st h =
    subst IsAccounts (sym ((create_auth_context-rows ctx k now id s).1)) h
serve-IsAccounts bank lower (attempt_request user k now attempt) s st h =
    subst IsAccounts (sym ((authenticate-rows user k now attempt s).1)) h
serve-IsAccounts bank lower (execute_internal_request ctx req clock) s st h =
    subst IsAccounts (sym (execute_internal_transfer-accounts bank ctx req clock s st)) h
serve-IsAccounts bank lower (execute_external_request ctx req clock) s st h =
    subst IsAccounts (sym (execute_external_transfer-accounts bank ctx req clock s st)) h
serve-IsAccounts bank lower (prepare_default_request ctx k now id) s st h =
    prepare_default_account-cases ctx now id s (λ x. IsAccounts x.accounts) h
      (λ c s' pending e kept. same-IsAccounts s s' kept h) k
serve-IsAccounts bank lower (prepare_alias_request ctx k raw now id) s st h =
    prepare_account_alias-cases ctx now id s (λ x. IsAccounts x.accounts) h
      (λ c s' pending e kept. same-IsAccounts s s' kept h) lower k raw
serve-IsAccounts bank lower (execute_default_request ctx k checked_at now) s st h =
    execute_default_account-cases ctx k checked_at now s (λ x. IsAccounts x.accounts) h
      (λ c. same-IsAccounts s (invalidate c s) (invalidate-accounts c s) h)
      (λ c j a executable owned. set_default-IsAccounts ctx now c s h j a owned)
serve-IsAccounts bank lower (execute_alias_request ctx k checked_at now) s st h =
    execute_account_alias-cases ctx k checked_at now s (λ x. IsAccounts x.accounts) h
      (λ c. same-IsAccounts s (invalidate c s) (invalidate-accounts c s) h) lower
      (λ c j a alias executable owned allowed.
        set_alias-IsAccounts ctx now c s h j a owned lower alias allowed)
serve-IsAccounts bank lower (bank_request r) s st h = h
