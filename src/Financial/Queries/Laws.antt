-- ===== src/Financial/Queries/Laws.antt =====
-- Lookups and sums under the updates that the operations make.
use kdt_ai_2_hands_on_experi.Common.{
  ℕ, ◌≡◌, ◌≢◌, refl, true, none, some, List, [], ◌∷◌, arith, is_some,
}
use kdt_ai_2_hands_on_experi.Common.Int.{ℤ, pos, ◌+ℤ◌, int_laws}
use kdt_ai_2_hands_on_experi.Common.Lists.{All}
use kdt_ai_2_hands_on_experi.Financial.Rows.{Account}
use kdt_ai_2_hands_on_experi.Financial.Queries.{
  get_account, get_account_by_number, get_balance, set_balance,
}

-- No two rows have one account id: the table's primary key.
abbrev pub UniqueIds : List Account → Type 0
UniqueIds [] = Unit
UniqueIds (a ∷ rest) = (get_account a.account_id rest ≡ none) × UniqueIds rest

pub get_account_by_number-number :
    (n : ℕ) (a : Account) (rest : List Account)
    → get_account_by_number n rest ≡ some a
    → a.account_number ≡ n
get_account_by_number-number n a [] h = cc
get_account_by_number-number n a (x ∷ rest) h =
    ground (arith, get_account_by_number-number n a rest)

pub get_account-id :
    (k : ℕ) (a : Account) (rest : List Account) → get_account k rest ≡ some a → a.account_id ≡ k
get_account-id k a [] h = cc
get_account-id k a (x ∷ rest) h = ground (arith, get_account-id k a rest)

pub get_account-get_account_by_number :
    (n : ℕ) (a : Account) (rest : List Account)
    → UniqueIds rest
    → get_account_by_number n rest ≡ some a
    → get_account a.account_id rest ≡ some a
get_account-get_account_by_number n a [] u h = cc
get_account-get_account_by_number n a (x ∷ rest) u h =
    ground (arith, get_account-get_account_by_number n a rest u.1)

pub is_some-get_account-set_balance :
    (k j : ℕ) (v : ℤ) (rest : List Account)
    → is_some (get_account k (set_balance j v rest)) ≡ is_some (get_account k rest)
is_some-get_account-set_balance k j v [] = refl
is_some-get_account-set_balance k j v (x ∷ rest) =
    ground (arith, is_some-get_account-set_balance k j v rest)

get_account-set_balance-none :
    (k j : ℕ) (v : ℤ) (rest : List Account)
    → get_account k rest ≡ none
    → get_account k (set_balance j v rest) ≡ none
get_account-set_balance-none k j v rest h =
    ground (arith, is_some-get_account-set_balance k j v rest)

pub UniqueIds-set_balance :
    (k : ℕ) (v : ℤ) (rest : List Account) → UniqueIds rest → UniqueIds (set_balance k v rest)
UniqueIds-set_balance k v [] u = tt
UniqueIds-set_balance k v (x ∷ rest) u =
    ground (
      arith,
      UniqueIds-set_balance k v rest u.1,
      get_account-set_balance-none x.account_id k v rest,
    )

pub get_balance-set_balance_self :
    (k : ℕ) (v : ℤ) (rest : List Account)
    → is_some (get_account k rest) ≡ true
    → get_balance k (set_balance k v rest) ≡ v
unfolding get_balance
get_balance-set_balance_self k v [] h = cc
get_balance-set_balance_self k v (x ∷ rest) h =
    ground (arith, get_balance-set_balance_self k v rest)

pub get_balance-set_balance_ne :
    (k j : ℕ) (v : ℤ) (rest : List Account)
    → k ≢ j
    → get_balance k (set_balance j v rest) ≡ get_balance k rest
unfolding get_balance
get_balance-set_balance_ne k j v [] h = refl
get_balance-set_balance_ne k j v (x ∷ rest) h =
    ground (arith, get_balance-set_balance_ne k j v rest h)

-- Every row's stored balance is what `L` says of its account.
abbrev pub Reconciled : (ℕ → ℤ) → List Account → Type 0
Reconciled L = All (λ a. a.balance ≡ L a.account_id)

pub Reconciled-set_balance :
    (L L' : ℕ → ℤ) (k : ℕ) (v : ℤ) (rest : List Account)
    → L' k ≡ v
    → ((j : ℕ) → j ≢ k → L' j ≡ L j)
    → Reconciled L rest
    → Reconciled L' (set_balance k v rest)
Reconciled-set_balance L L' k v [] at_k away h = tt
Reconciled-set_balance L L' k v (x ∷ rest) at_k away h =
    ground (arith, away x.account_id, Reconciled-set_balance L L' k v rest at_k away h.1)

pub Reconciled-mono :
    (L L' : ℕ → ℤ) (rest : List Account)
    → ((j : ℕ) → is_some (get_account j rest) ≡ true → L' j ≡ L j)
    → Reconciled L rest
    → Reconciled L' rest
Reconciled-mono L L' [] same h = tt
Reconciled-mono L L' (x ∷ rest) same h =
    ground
      (arith, same x.account_id, Reconciled-mono L L' rest (λ j e. same j (ground (arith, e))) h.1)

pub Reconciled-get_account :
    (L : ℕ → ℤ) (k : ℕ) (a : Account) (rest : List Account)
    → Reconciled L rest
    → get_account k rest ≡ some a
    → a.balance ≡ L k
Reconciled-get_account L k a [] h e = cc
Reconciled-get_account L k a (x ∷ rest) h e = ground (arith, Reconciled-get_account L k a rest h.1)

pub Reconciled-get_balance :
    (L : ℕ → ℤ) (k : ℕ) (rest : List Account)
    → Reconciled L rest
    → is_some (get_account k rest) ≡ true
    → get_balance k rest ≡ L k
unfolding get_balance
Reconciled-get_balance L k [] h e = cc
Reconciled-get_balance L k (x ∷ rest) h e = ground (arith, Reconciled-get_balance L k rest h.1)

-- The money in all accounts together.
abbrev pub total_balance : List Account → ℤ
total_balance [] = pos 0
total_balance (a ∷ rest) = a.balance +ℤ total_balance rest

set_balance-none :
    (k : ℕ) (v : ℤ) (rest : List Account) → get_account k rest ≡ none → set_balance k v rest ≡ rest
set_balance-none k v [] h = refl
set_balance-none k v (x ∷ rest) h = ground (arith, set_balance-none k v rest)

pub total_balance-set_balance :
    (k : ℕ) (v : ℤ) (a : Account) (rest : List Account)
    → UniqueIds rest
    → get_account k rest ≡ some a
    → total_balance (set_balance k v rest) +ℤ a.balance ≡ total_balance rest +ℤ v
total_balance-set_balance k v a [] u h = cc
total_balance-set_balance k v a (x ∷ rest) u h =
    grind (int_laws, total_balance-set_balance k v a rest u.1, set_balance-none k v rest)

pub get_account-set_balance_ne :
    (k j : ℕ) (v : ℤ) (a : Account) (rest : List Account)
    → k ≢ j
    → get_account k rest ≡ some a
    → get_account k (set_balance j v rest) ≡ some a
get_account-set_balance_ne k j v a [] h e = cc
get_account-set_balance_ne k j v a (x ∷ rest) h e =
    ground (arith, get_account-set_balance_ne k j v a rest h)
