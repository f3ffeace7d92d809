-- ===== src/Gateway/Setting/Accounts.antt =====
-- What holds of the accounts' rows between calls: one default account of a user at most, and no alias
-- twice.
pub mod Kept
use kdt_ai_2_hands_on_experi.Common.{
  ℕ, ◌≡◌, refl, sym, ap, ◌∙◌, Bool, true, false, not, ◌&&◌, ◌==◌, if◌then◌else◌, Option, none, some,
  List, [], ◌∷◌, arith, Bool-cases, inl, inr,
}
use mathlib.Core.Option
use kdt_ai_2_hands_on_experi.Common.Texts.{Text, text_eq, text_eq→eq, text_eq_refl}
use kdt_ai_2_hands_on_experi.Gateway.Rows.{Account, Store}
use kdt_ai_2_hands_on_experi.Gateway.Transfer.{get_account, get_owned_account}
use kdt_ai_2_hands_on_experi.Gateway.Setting.{
  clear_default, set_account_alias, set_default_account, update_account,
}
use kdt_ai_2_hands_on_experi.Gateway.Setting.Alias.{alias_exists_for_user, has_alias}

abbrev pub UniqueIds : List Account → Type 0
UniqueIds [] = Unit
UniqueIds (a ∷ rest) = (get_account a.id rest ≡ none) × UniqueIds rest

-- The primary key, the index on a user's default account, and the rule on aliases.
pub record IsAccounts (accounts : List Account) : Type 0 where
  pub unique : UniqueIds accounts
  pub one_default :
      (j k : ℕ) (x y : Account)
      → get_account j accounts ≡ some x
      → get_account k accounts ≡ some y
      → x.user_id ≡ y.user_id
      → x.is_default ≡ true
      → y.is_default ≡ true
      → j ≡ k
  pub distinct_aliases :
      (j k : ℕ) (x y : Account) (alias : Text)
      → get_account j accounts ≡ some x
      → get_account k accounts ≡ some y
      → x.user_id ≡ y.user_id
      → x.alias ≡ some alias
      → y.alias ≡ some alias
      → j ≡ k

pub get_account-id :
    (k : ℕ) (a : Account) (accounts : List Account) → get_account k accounts ≡ some a → a.id ≡ k
get_account-id k a [] h = cc
get_account-id k a (b ∷ rest) h = ground (arith, get_account-id k a rest)

pub get_owned_account-get :
    (user k : ℕ) (a : Account) (accounts : List Account)
    → UniqueIds accounts
    → get_owned_account user k accounts ≡ some a
    → (get_account k accounts ≡ some a) × (a.user_id ≡ user) × (a.id ≡ k)
get_owned_account-get user k a [] u h = cc
get_owned_account-get user k a (b ∷ rest) u h =
    ground (arith, u.0, get_owned_account-get user k a rest u.1)

pub map-eq_some :
    (f : Account → Account) (o : Option Account) (x : Account)
    → Option.map f o ≡ some x
    → (y : Account) × (o ≡ some y) × (x ≡ f y)
map-eq_some f none x h = cc
map-eq_some f (some y) x h = (y, refl, ground (arith, h))

-- The row under an id after an update of one row.
pub get_account-update_row :
    (j k : ℕ) (f : Account → Account) (accounts : List Account)
    → ((a : Account) → (f a).id ≡ a.id)
    → get_account j (update_account k f accounts)
      ≡ Option.map (λ y. if k == j then f y else y) (get_account j accounts)
get_account-update_row j k f [] keeps = refl
get_account-update_row j k f (a ∷ rest) keeps =
    ground (arith, keeps a, get_account-update_row j k f rest keeps)

abbrev pub cleared : ℕ → Account → Account
cleared user a = if a.user_id == user && a.is_default then record a { is_default = false } else a

cleared-id : (user : ℕ) (a : Account) → (cleared user a).id ≡ a.id
cleared-id user a = ground arith

pub get_account-clear_row :
    (j user : ℕ) (accounts : List Account)
    → get_account j (clear_default user accounts)
      ≡ Option.map (cleared user) (get_account j accounts)
get_account-clear_row j user [] = refl
get_account-clear_row j user (a ∷ rest) =
    ground (arith, cleared-id user a, get_account-clear_row j user rest)

get_account-clear_none :
    (j user : ℕ) (accounts : List Account)
    → get_account j accounts ≡ none
    → get_account j (clear_default user accounts) ≡ none
get_account-clear_none j user [] h = refl
get_account-clear_none j user (a ∷ rest) h =
    ground (arith, cleared-id user a, get_account-clear_none j user rest)

get_account-update_none :
    (j k : ℕ) (f : Account → Account) (accounts : List Account)
    → ((a : Account) → (f a).id ≡ a.id)
    → get_account j accounts ≡ none
    → get_account j (update_account k f accounts) ≡ none
get_account-update_none j k f [] keeps h = refl
get_account-update_none j k f (a ∷ rest) keeps h =
    ground (arith, keeps a, get_account-update_none j k f rest keeps)

pub UniqueIds-clear :
    (user : ℕ) (accounts : List Account)
    → UniqueIds accounts
    → UniqueIds (clear_default user accounts)
UniqueIds-clear user [] u = tt
UniqueIds-clear user (a ∷ rest) u = (
  rw (cleared-id user a) (get_account-clear_none a.id user rest u.0),
  UniqueIds-clear user rest u.1,
)

pub UniqueIds-update :
    (k : ℕ) (f : Account → Account) (accounts : List Account)
    → ((a : Account) → (f a).id ≡ a.id)
    → UniqueIds accounts
    → UniqueIds (update_account k f accounts)
UniqueIds-update k f [] keeps u = tt
UniqueIds-update k f (a ∷ rest) keeps u = (
  ground (arith, keeps a, get_account-update_none a.id k f rest keeps u.0),
  UniqueIds-update k f rest keeps u.1,
)

pub alias_exists_for_user-get :
    (user : ℕ) (alias : Text) (exclude j : ℕ) (x : Account) (accounts : List Account)
    → alias_exists_for_user user alias exclude accounts ≡ false
    → get_account j accounts ≡ some x
    → x.user_id ≡ user
    → x.alias ≡ some alias
    → j ≡ exclude
unfolding alias_exists_for_user
alias_exists_for_user-get user alias exclude j x [] h found owner named = cc
alias_exists_for_user-get user alias exclude j x (a ∷ rest) h found owner named =
    ground
      (arith, h, found, text_eq_refl alias, alias_exists_for_user-get user alias exclude j x rest)
