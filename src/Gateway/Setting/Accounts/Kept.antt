-- ===== src/Gateway/Setting/Accounts/Kept.antt =====
-- The two writes of a setting keep one default account and distinct aliases.
use mathlib.Core.Option
use kdt_ai_2_hands_on_experi.Common.{
  ℕ, ◌≡◌, refl, sym, ap, ◌∙◌, true, false, ◌==◌, if◌then◌else◌, Option, none, some, arith,
}
use kdt_ai_2_hands_on_experi.Common.Texts.{Text}
use kdt_ai_2_hands_on_experi.Gateway.Rows.{Account, Store}
use kdt_ai_2_hands_on_experi.Gateway.Transfer.{get_account}
use kdt_ai_2_hands_on_experi.Gateway.Setting.{clear_default, set_account_alias, set_default_account}
use kdt_ai_2_hands_on_experi.Gateway.Setting.Alias.{alias_exists_for_user}
use kdt_ai_2_hands_on_experi.Gateway.Setting.Accounts.{
  IsAccounts, UniqueIds-clear, UniqueIds-update, alias_exists_for_user-get, cleared,
  get_account-clear_row, get_account-update_row, map-eq_some,
}

-- The row under the id `j` after `k` became the default account of the user.
abbrev pub with_default : (user k j : ℕ) → Account → Account
with_default user k j a = record a {
  is_default = if k == j then true else if a.user_id == user then false else a.is_default;
}

-- The same for a new alias of `k`.
abbrev pub with_alias : (k j : ℕ) → Text → Account → Account
with_alias k j alias a = if k == j then record a { alias = some alias } else a

Option-map_ext :
    (f g h : Account → Account) (o : Option Account)
    → ((y : Account) → f (g y) ≡ h y)
    → Option.map f (Option.map g o) ≡ Option.map h o
Option-map_ext f g h none e = refl
Option-map_ext f g h (some y) e = ap some (e y)

pub set_default_account-row :
    (user : ℕ) (a : Account) (s : Store) (j : ℕ)
    → get_account j (set_default_account user a s).accounts
      ≡ Option.map (with_default user a.id j) (get_account j s.accounts)
unfolding set_default_account
set_default_account-row user a s j =
    get_account-update_row j a.id (λ b. record b { is_default = true })
      (clear_default user s.accounts) (λ b. refl)
    ∙ ap (Option.map (λ y. if a.id == j then record y { is_default = true } else y))
        (get_account-clear_row j user s.accounts)
    ∙ Option-map_ext (λ y. if a.id == j then record y { is_default = true } else y) (cleared user)
        (with_default user a.id j) (get_account j s.accounts) (λ y. ground arith)

pub set_account_alias-row :
    (a : Account) (alias : Text) (s : Store) (j : ℕ)
    → get_account j (set_account_alias a alias s).accounts
      ≡ Option.map (with_alias a.id j alias) (get_account j s.accounts)
unfolding set_account_alias
set_account_alias-row a alias s j =
    get_account-update_row j a.id (λ b. record b { alias = some alias }) s.accounts (λ b. refl)

set_default_account-get :
    (user : ℕ) (a : Account) (s : Store) (j : ℕ) (x : Account)
    → get_account j (set_default_account user a s).accounts ≡ some x
    → (y : Account) × (get_account j s.accounts ≡ some y) × (x ≡ with_default user a.id j y)
set_default_account-get user a s j x h =
    map-eq_some (with_default user a.id j) (get_account j s.accounts) x
      (sym (set_default_account-row user a s j) ∙ h)

set_account_alias-get :
    (a : Account) (alias : Text) (s : Store) (j : ℕ) (x : Account)
    → get_account j (set_account_alias a alias s).accounts ≡ some x
    → (y : Account) × (get_account j s.accounts ≡ some y) × (x ≡ with_alias a.id j alias y)
set_account_alias-get a alias s j x h =
    map-eq_some (with_alias a.id j alias) (get_account j s.accounts) x
      (sym (set_account_alias-row a alias s j) ∙ h)

module _ (user : ℕ) (a : Account) (s : Store) (rows : IsAccounts s.accounts)
    (stored : get_account a.id s.accounts ≡ some a) (owner : a.user_id ≡ user) where
  set_default_account-one :
      (j k : ℕ) (x y : Account)
      → get_account j (set_default_account user a s).accounts ≡ some x
      → get_account k (set_default_account user a s).accounts ≡ some y
      → x.user_id ≡ y.user_id
      → x.is_default ≡ true
      → y.is_default ≡ true
      → j ≡ k
  set_default_account-one j k x y hx hy same dx dy =
      let (x0, fx, ex) = set_default_account-get user a s j x hx in
      let (y0, fy, ey) = set_default_account-get user a s k y hy in
      ground (arith, stored, owner, fx, fy, ex, ey, same, dx, dy, rows.one_default j k x0 y0 fx fy)

  set_default_account-distinct :
      (j k : ℕ) (x y : Account) (alias : Text)
      → get_account j (set_default_account user a s).accounts ≡ some x
      → get_account k (set_default_account user a s).accounts ≡ some y
      → x.user_id ≡ y.user_id
      → x.alias ≡ some alias
      → y.alias ≡ some alias
      → j ≡ k
  set_default_account-distinct j k x y alias hx hy same nx ny =
      let (x0, fx, ex) = set_default_account-get user a s j x hx in
      let (y0, fy, ey) = set_default_account-get user a s k y hy in
      rows.distinct_aliases j k x0 y0 alias fx fy (ground (arith, ex, ey, same))
        (ground (arith, ex, nx)) (ground (arith, ey, ny))

  pub set_default_account-IsAccounts : IsAccounts (set_default_account user a s).accounts
  unfolding set_default_account
  set_default_account-IsAccounts = record {
    unique =
        UniqueIds-update a.id (λ b. record b { is_default = true }) (clear_default user s.accounts)
          (λ b. refl) (UniqueIds-clear user s.accounts rows.unique);
    one_default = set_default_account-one;
    distinct_aliases = set_default_account-distinct;
  }

  module _ (alias : Text) (free : alias_exists_for_user user alias a.id s.accounts ≡ false) where
    set_account_alias-one :
        (j k : ℕ) (x y : Account)
        → get_account j (set_account_alias a alias s).accounts ≡ some x
        → get_account k (set_account_alias a alias s).accounts ≡ some y
        → x.user_id ≡ y.user_id
        → x.is_default ≡ true
        → y.is_default ≡ true
        → j ≡ k
    set_account_alias-one j k x y hx hy same dx dy =
        let (x0, fx, ex) = set_account_alias-get a alias s j x hx in
        let (y0, fy, ey) = set_account_alias-get a alias s k y hy in
        rows.one_default j k x0 y0 fx fy (ground (arith, ex, ey, same)) (ground (arith, ex, dx))
          (ground (arith, ey, dy))

    set_account_alias-distinct :
        (j k : ℕ) (x y : Account) (other : Text)
        → get_account j (set_account_alias a alias s).accounts ≡ some x
        → get_account k (set_account_alias a alias s).accounts ≡ some y
        → x.user_id ≡ y.user_id
        → x.alias ≡ some other
        → y.alias ≡ some other
        → j ≡ k
    set_account_alias-distinct j k x y other hx hy same nx ny =
        let (x0, fx, ex) = set_account_alias-get a alias s j x hx in
        let (y0, fy, ey) = set_account_alias-get a alias s k y hy in
        ground (
          arith,
          stored,
          owner,
          fx,
          fy,
          ex,
          ey,
          same,
          nx,
          ny,
          rows.distinct_aliases j k x0 y0 other fx fy,
          alias_exists_for_user-get user alias a.id j x0 s.accounts free fx,
          alias_exists_for_user-get user alias a.id k y0 s.accounts free fy,
        )

    pub set_account_alias-IsAccounts : IsAccounts (set_account_alias a alias s).accounts
    unfolding set_account_alias
    set_account_alias-IsAccounts = record {
      unique =
          UniqueIds-update a.id (λ b. record b { alias = some alias }) s.accounts (λ b. refl)
            rows.unique;
      one_default = set_account_alias-one;
      distinct_aliases = set_account_alias-distinct;
    }
