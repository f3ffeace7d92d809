-- ===== src/Gateway/Recipient/Laws.antt =====
-- Known recipients and the payments to them.
use kdt_ai_2_hands_on_experi.Common.{
  ℕ, ◌≡◌, ◌⊎◌, inl, inr, true, Option, none, some, List, [], ◌∷◌, arith, if◌then◌else◌, ◌==◌,
  Bool-cases,
}
use kdt_ai_2_hands_on_experi.Common.Int.{ℤ}
use kdt_ai_2_hands_on_experi.Gateway.Rows.{
  Account, Confirmation, ExecutionContext, FixedData, Store,
}
use kdt_ai_2_hands_on_experi.Gateway.Service.{ok}
use kdt_ai_2_hands_on_experi.Gateway.Transfer.{get_account}
use kdt_ai_2_hands_on_experi.Gateway.Recipient.{
  is_executed_external, name_in, or_name, or_not_found, recipient_name_from,
  resolve_existing_recipient,
}

abbrev pub Any {ℓ} : {A : Type ℓ} → (A → Type 0) → List A → Type 0
Any P [] = ⊥
Any P (x ∷ xs) = P x ⊎ Any P xs

-- The row is an executed transfer of the user to the account, under the name.
abbrev pub PaidBefore : ℕ → ℕ → List ℕ → Confirmation → Type 0
PaidBefore user k name c =
    (is_executed_external user c ≡ true)
    × (from : ℕ) × (amount : ℤ) × (c.fixed_data ≡ FixedData.external_data from k name amount)

or_name_sound :
    (name previous : List ℕ) (o : Option (List ℕ))
    → or_name name o ≡ some previous
    → (o ≡ some previous) ⊎ (name ≡ previous)
or_name_sound [] previous o h = inl h
or_name_sound (x ∷ xs) previous o h = inr (ground arith)

name_in_sound :
    (k : ℕ) (d : FixedData) (name : List ℕ) (o : Option (List ℕ))
    → name_in k d o ≡ some name
    → (o ≡ some name)
      ⊎ ((from : ℕ) × (amount : ℤ) × (d ≡ FixedData.external_data from k name amount))
name_in_sound k (FixedData.internal_data from to amount) name o h = inl h
name_in_sound k (FixedData.default_account_data j) name o h = inl h
name_in_sound k (FixedData.account_alias_data j alias) name o h = inl h
name_in_sound k (FixedData.external_data from r other amount) name o h =
    elim (Bool-cases (r == k)) [
      | inl same ↦ elim (or_name_sound other name o (ground (arith, h, same))) [
        | inl before ↦ inl before
        | inr equal ↦ inr (from, amount, ground (arith, same, equal))
      ]
      | inr differ ↦ inl (ground (arith, h, differ))
    ]

step_sound :
    (user k : ℕ) (c : Confirmation) (name : List ℕ) (o : Option (List ℕ))
    → (if is_executed_external user c then name_in k c.fixed_data o else o) ≡ some name
    → (o ≡ some name) ⊎ PaidBefore user k name c
step_sound user k c name o h = elim (Bool-cases (is_executed_external user c)) [
  | inl executed ↦ elim (name_in_sound k c.fixed_data name o (ground (arith, h, executed))) [
    | inl before ↦ inl before
    | inr (from, amount, fixed) ↦ inr (executed, from, amount, fixed)
  ]
  | inr other ↦ inl (ground (arith, h, other))
]

recipient_name_from_sound :
    (user k : ℕ) (cs : List Confirmation) (name : List ℕ) (o : Option (List ℕ))
    → recipient_name_from user k cs o ≡ some name
    → (o ≡ some name) ⊎ Any (PaidBefore user k name) cs
recipient_name_from_sound user k [] name o h = inl h
recipient_name_from_sound user k (c ∷ cs) name o h =
    elim (recipient_name_from_sound user k cs name _ h) [
      | inl here ↦ elim (step_sound user k c name o here) [
        | inl before ↦ inl before
        | inr paid ↦ inr (inl paid)
      ]
      | inr later ↦ inr (inr later)
    ]

or_not_found_sound :
    (n : Option (List ℕ)) (o : Option Account) (a : Account) (name : List ℕ)
    → or_not_found n o ≡ ok (a, name)
    → (n ≡ some name) × (o ≡ some a)
unfolding or_not_found
or_not_found_sound none o a name h = cc
or_not_found_sound (some n) none a name h = cc
or_not_found_sound (some n) (some b) a name h = ground arith

-- An existing recipient that is resolved is an account of the table to which the user has an executed
-- transfer, and the name is the one that this transfer was confirmed with: an arbitrary account id
-- reveals nothing.
pub resolve_existing_recipient-PaidBefore :
    (ctx : ExecutionContext) (k : ℕ) (s : Store) (a : Account) (name : List ℕ)
    → resolve_existing_recipient ctx (some k) s ≡ ok (a, name)
    → (get_account k s.accounts ≡ some a) × Any (PaidBefore ctx.user_id k name) s.confirmations
unfolding resolve_existing_recipient
resolve_existing_recipient-PaidBefore ctx k s a name h =
    let (named, found) = or_not_found_sound _ _ a name h in
    (
      found,
      elim (recipient_name_from_sound ctx.user_id k s.confirmations name none named) [
        | inl e ↦ cc
        | inr paid ↦ paid
      ],
    )
