-- ===== src/Integration/Tests/Settings.antt =====
-- The user makes the second account the default one, and gives it a name.
use kdt_ai_2_hands_on_experi.Common.{◌≡◌, refl, sym, subst, none, some, [], ◌∷◌, true, false, arith}
use kdt_ai_2_hands_on_experi.Common.Texts.{Text, split}
use kdt_ai_2_hands_on_experi.Financial.Tests.Town.{town}
use kdt_ai_2_hands_on_experi.Gateway.Rows.{Account, Confirmation, ConfirmationOperation, Store}
use kdt_ai_2_hands_on_experi.Gateway.Service.{ok}
use kdt_ai_2_hands_on_experi.Gateway.Confirmation.{decide}
use kdt_ai_2_hands_on_experi.Gateway.Payments.{execute_default_request, serve}
use kdt_ai_2_hands_on_experi.Gateway.Payments.Terms.{Grows, serve_all, serve_all-Grows, terms}
use kdt_ai_2_hands_on_experi.Gateway.Payments.{prepare_default_request}
use kdt_ai_2_hands_on_experi.Gateway.Payments.Accounts.{serve-IsAccounts}
use kdt_ai_2_hands_on_experi.Gateway.Setting.{
  ExecuteReply, execute_account_alias, execute_default_account, prepare_account_alias,
  prepare_default_account,
}
use kdt_ai_2_hands_on_experi.Gateway.Setting.Accounts.{IsAccounts}
use kdt_ai_2_hands_on_experi.Gateway.Setting.Accounts.Kept.{with_default}
use kdt_ai_2_hands_on_experi.Gateway.Setting.Alias.{normalize_alias}
use kdt_ai_2_hands_on_experi.Gateway.Setting.Alias.Laws.{normalize_alias-is_tidy}
use kdt_ai_2_hands_on_experi.Common.Texts.Tidy.{is_tidy}
use kdt_ai_2_hands_on_experi.Common.{◌↔◌}
use kdt_ai_2_hands_on_experi.Gateway.Setting.Execution.{Changes, execute_default_account-Changes}
use kdt_ai_2_hands_on_experi.Gateway.Setting.Execution.Aliases.{
  AliasChanges, execute_account_alias-Changes,
}
use kdt_ai_2_hands_on_experi.Integration.Tests.Office.{bank, ctx, from_account, office, to_account}

abbrev lower : Text → Text
lower text = text

-- The second account is not the default one yet.
abbrev settled : Store
settled = record office { accounts = from_account ∷ record to_account { is_default = false } ∷ [] }

abbrev approved_default : Store
approved_default =
    (decide 1 (some 41) 110 true (prepare_default_account ctx (some 12) 100 41 settled).1).1

default-completed :
    (execute_default_account ctx (some 41) 120 121 approved_default).0
    ≡ ok (ExecuteReply.completed 12 none)
unfolding prepare_default_account decide execute_default_account
default-completed = refl

execute_default_account-Changes_example :
    (c : Confirmation) × (a : Account) × (a.id ≡ 12)
    × Changes ctx
        (some 41)
        ConfirmationOperation.default_account_change
        120
        121
        approved_default
        c
        a
        (with_default 1 a.id)
        (execute_default_account ctx (some 41) 120 121 approved_default).1
execute_default_account-Changes_example =
    execute_default_account-Changes ctx (some 41) 120 121 approved_default 12 none default-completed

-- " a  b " is stored as "a b".
abbrev raw_alias : Text
raw_alias = 32 ∷ b'a' ∷ 32 ∷ 32 ∷ b'b' ∷ 32 ∷ []

abbrev alias : Text
alias = b'a' ∷ 32 ∷ b'b' ∷ []

raw_alias-normalized : normalize_alias raw_alias ≡ alias
unfolding normalize_alias
raw_alias-normalized = refl

normalize_alias-is_tidy_example :
    (is_tidy (normalize_alias raw_alias) ≡ true)
    × (split (normalize_alias raw_alias) ≡ split raw_alias)
    × ((normalize_alias raw_alias ≡ raw_alias) ↔ (is_tidy raw_alias ≡ true))
normalize_alias-is_tidy_example = normalize_alias-is_tidy raw_alias

abbrev approved_alias : Store
approved_alias =
    (decide 1 (some 42) 110 true
      (prepare_account_alias lower ctx (some 12) raw_alias 100 42 settled).1).1

alias-completed :
    (execute_account_alias lower ctx (some 42) 120 121 approved_alias).0
    ≡ ok (ExecuteReply.completed 12 (some alias))
unfolding prepare_account_alias decide execute_account_alias
alias-completed = refl

execute_account_alias-Changes_example :
    let s' = (execute_account_alias lower ctx (some 42) 120 121 approved_alias).1 in
    (c : Confirmation) × (a : Account) × (name : Text) × (a.id ≡ 12)
    × (some alias ≡ some name)
    × AliasChanges lower ctx (some 42) 120 121 approved_alias c a name s'
execute_account_alias-Changes_example =
    execute_account_alias-Changes lower ctx (some 42) 120 121 approved_alias 12 (some alias)
      alias-completed

settled-IsAccounts : IsAccounts settled.accounts
settled-IsAccounts = record {
  unique = (refl, (refl, tt));
  one_default = λ j k x y hx hy same dx dy. ground (arith, hx, hy, dx, dy);
  distinct_aliases = λ j k x y name hx hy same nx ny. ground (arith, hx, hy, nx, ny);
}

approved_default-accounts : approved_default.accounts ≡ settled.accounts
unfolding prepare_default_account decide
approved_default-accounts = refl

approved_default-IsAccounts : IsAccounts approved_default.accounts
approved_default-IsAccounts = subst IsAccounts (sym approved_default-accounts) settled-IsAccounts

serve-IsAccounts_example :
    IsAccounts
      (serve bank lower
        (execute_default_request ctx (some 41) 120 121)
        (approved_default, town)).0.accounts
serve-IsAccounts_example =
    serve-IsAccounts bank lower (execute_default_request ctx (some 41) 120 121) approved_default
      town approved_default-IsAccounts

serve_all-Grows_example : Grows (terms approved_default.confirmations) (
    terms
      (serve_all bank lower
        (execute_default_request ctx (some 41) 120 121
          ∷ prepare_default_request ctx (some 11) 130 43
          ∷ [])
        (approved_default, town)).0.confirmations)
serve_all-Grows_example =
    serve_all-Grows bank lower
      (execute_default_request ctx (some 41) 120 121
        ∷ prepare_default_request ctx (some 11) 130 43
        ∷ [])
      (approved_default, town)
