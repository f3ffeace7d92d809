-- ===== src/Gateway/Payments/Paid.antt =====
-- Every executed confirmation of a transfer is paid: what keeps this.
use kdt_ai_2_hands_on_experi.Common.{
  Bool, true, false, ℕ, ◌≡◌, ◌≢◌, sym, subst, ap, ◌∙◌, some, List, [], ◌∷◌, arith, Bool-cases, inl,
  inr, ◌==◌,
}
use kdt_ai_2_hands_on_experi.Gateway.Rows.{Confirmation, ConfirmationOperation, ConfirmationStatus}
use kdt_ai_2_hands_on_experi.Gateway.Confirmation.{amount_of, get_confirmation, update_confirmation}
use kdt_ai_2_hands_on_experi.Gateway.Confirmation.Laws.{get_confirmation-update_ne}
use kdt_ai_2_hands_on_experi.Gateway.Bank.{
  Bank, LedgerKey, LedgerRequest, external_key, internal_key,
}

-- The key names the confirmation, whichever kind of transfer it is.
abbrev pub key_id : LedgerKey → ℕ
key_id (internal_key n) = n
key_id (external_key n) = n

-- The bank has recorded a request under the confirmation's key for the amount that it fixes.
abbrev pub Paid : (bank : Bank) → bank.State → Confirmation → Type 0
Paid bank st c =
    (r : LedgerRequest) × (t : ℕ) × (key_id r.idempotency_key ≡ c.id)
    × (r.amount ≡ amount_of c.fixed_data)
    × bank.Recorded st r t

-- A confirmation of a transfer; the other operations change a setting.
abbrev pub is_transfer : ConfirmationOperation → Bool
is_transfer ConfirmationOperation.internal_transfer = true
is_transfer ConfirmationOperation.external_transfer = true
is_transfer other = false

abbrev pub IsPaid : (bank : Bank) → bank.State → List Confirmation → Type 0
IsPaid bank st cs =
    (k : ℕ) (c : Confirmation)
    → get_confirmation k cs ≡ some c
    → is_transfer c.operation ≡ true
    → c.status ≡ ConfirmationStatus.executed
    → Paid bank st c

get_confirmation-update_inv :
    (k : ℕ) (f : Confirmation → Confirmation) (c : Confirmation) (cs : List Confirmation)
    → ((d : Confirmation) → (f d).id ≡ d.id)
    → get_confirmation k (update_confirmation k f cs) ≡ some c
    → (d : Confirmation) × (get_confirmation k cs ≡ some d) × (f d ≡ c)
get_confirmation-update_inv k f c [] keeps h = cc
get_confirmation-update_inv k f c (d ∷ cs) keeps h = elim (Bool-cases (k == d.id)) [
  | inl same ↦ (d, ground (arith, same), ground (arith, same, h, keeps d))
  | inr differ ↦
      let (e, found, equal) =
        get_confirmation-update_inv k f c cs keeps (ground (arith, differ, h)) in
      (e, ground (arith, differ, found), equal)
]

module _ (bank : Bank) where
  -- An update of one row keeps the others, and what it writes has to be paid if it is executed.
  pub update-IsPaid :
      (st : bank.State) (k : ℕ) (f : Confirmation → Confirmation) (cs : List Confirmation)
      → ((d : Confirmation) → (f d).id ≡ d.id)
      → ((d : Confirmation)
          → get_confirmation k cs ≡ some d
          → is_transfer (f d).operation ≡ true
          → (f d).status ≡ ConfirmationStatus.executed
          → Paid bank st (f d))
      → IsPaid bank st cs
      → IsPaid bank st (update_confirmation k f cs)
  update-IsPaid st k f cs keeps written paid j c found moves executed = elim (Bool-cases (j == k)) [
    | inl same ↦
        let at_j : j ≡ k = ground (arith, same) in
        let (d, before, equal) =
          get_confirmation-update_inv k f c cs keeps
            (subst (λ i. get_confirmation i (update_confirmation k f cs) ≡ some c) at_j found) in
        subst (Paid bank st) equal (
          written d before (ap (λ x. is_transfer x.operation) equal ∙ moves)
            (ap (λ x. x.status) equal ∙ executed))
    | inr differ ↦
        paid j c
          (sym (get_confirmation-update_ne j k f cs keeps (λ e. ground (arith, differ, e))) ∙ found)
          moves executed
  ]

  pub cons-IsPaid :
      (st : bank.State) (c : Confirmation) (cs : List Confirmation)
      → c.status ≢ ConfirmationStatus.executed
      → IsPaid bank st cs
      → IsPaid bank st (c ∷ cs)
  cons-IsPaid st c cs open_ paid j d found moves executed = elim (Bool-cases (j == c.id)) [
    | inl same ↦
        let equal : c ≡ d = ground (arith, same, found) in
        absurd (open_ (ap (λ x. x.status) equal ∙ executed))
    | inr differ ↦ paid j d (ground (arith, differ, found)) moves executed
  ]

  pub transfer-IsPaid :
      (st : bank.State) (r : LedgerRequest) (cs : List Confirmation)
      → IsPaid bank st cs
      → IsPaid bank (bank.transfer st r).1 cs
  transfer-IsPaid st r cs paid k c found moves executed =
      let (q, t, named, same, held) = paid k c found moves executed in
      (q, t, named, same, bank.kept st q r t held)
