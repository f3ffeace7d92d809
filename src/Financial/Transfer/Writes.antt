-- ===== src/Financial/Transfer/Writes.antt =====
-- The writes of an accepted transfer: they keep the invariant and the money.
use kdt_ai_2_hands_on_experi.Common.{
  ℕ, ◌≡◌, ◌≢◌, refl, sym, ◌∙◌, true, ◌&&◌, some, List, ◌∷◌, arith, is_some, ◌==◌, if◌then◌else◌,
}
use kdt_ai_2_hands_on_experi.Common.Int.{ℤ, ◌+ℤ◌, ◌-ℤ◌, eqb_ℤ, eqb_ℤ-refl, int_laws}
use kdt_ai_2_hands_on_experi.Financial.Rows.{
  Account, Db, EntryType, LedgerEntry, IdempotencyKey, TransferRequest, Engine,
}
use kdt_ai_2_hands_on_experi.Financial.Queries.{get_account, ledger_balance, set_balance}
use kdt_ai_2_hands_on_experi.Financial.Queries.Laws.{
  Reconciled, Reconciled-set_balance, Reconciled-get_account, Reconciled-get_balance,
  UniqueIds-set_balance, is_some-get_account-set_balance, total_balance, total_balance-set_balance,
  get_account-set_balance_ne,
}
use kdt_ai_2_hands_on_experi.Financial.Invariant.{
  IsLedger, Known-set_balance, ledger_balance-debit, ledger_balance-credit,
}
use kdt_ai_2_hands_on_experi.Financial.Transfer.{
  apply_transfer, integrity_holds, debit_row, credit_row,
}

-- A debit row of one account, below a credit row of another.
record IsPair (d c : LedgerEntry) (s r : ℕ) (amount : ℤ) : Type 0 where
  debits : d.entry_type ≡ EntryType.debit
  credits : c.entry_type ≡ EntryType.credit
  from : d.account_id ≡ s
  to : c.account_id ≡ r
  out : d.amount ≡ amount
  in_ : c.amount ≡ amount

module _ (d c : LedgerEntry) (s r : ℕ) (amount : ℤ) (es : List LedgerEntry)
    (pair : IsPair d c s r amount) (differ : s ≢ r) where
  ledger_balance-pair_sender : ledger_balance s (c ∷ d ∷ es) ≡ ledger_balance s es -ℤ amount
  ledger_balance-pair_sender =
      rw (ledger_balance-credit s c (d ∷ es) pair.credits, ledger_balance-debit s d es pair.debits)
        (ground arith)

  ledger_balance-pair_receiver : ledger_balance r (c ∷ d ∷ es) ≡ ledger_balance r es +ℤ amount
  ledger_balance-pair_receiver =
      rw (ledger_balance-credit r c (d ∷ es) pair.credits, ledger_balance-debit r d es pair.debits)
        (ground arith)

  ledger_balance-pair_other :
      (k : ℕ) → k ≢ s → k ≢ r → ledger_balance k (c ∷ d ∷ es) ≡ ledger_balance k es
  ledger_balance-pair_other k ks kr =
      rw (ledger_balance-credit k c (d ∷ es) pair.credits, ledger_balance-debit k d es pair.debits)
        (ground arith)

-- The assertions, once the recomputed and the stored balances are known.
integrity_tests :
    (x y sent received amount stored_x stored_y : ℤ)
    → x ≡ sent -ℤ amount
    → y ≡ received +ℤ amount
    → stored_x ≡ x
    → stored_y ≡ y
    → (eqb_ℤ (x +ℤ y) (sent +ℤ received) && eqb_ℤ x stored_x && eqb_ℤ y stored_y) ≡ true
integrity_tests x y sent received amount stored_x stored_y hx hy hsx hsy = rw (
  eqb_ℤ-refl (x +ℤ y) (sent +ℤ received) (rw (hx, hy) (omega int_laws)),
  eqb_ℤ-refl x stored_x (sym hsx),
  eqb_ℤ-refl y stored_y (sym hsy),
)

rows-IsPair :
    (eng : Engine) (p : TransferRequest) (id : ℕ) (s r : Account) (db : Db)
    → IsPair
        (debit_row eng p id s db)
        (credit_row eng p id s r db)
        s.account_id
        r.account_id
        p.amount
rows-IsPair eng p id s r db = record {
  debits = refl;
  credits = refl;
  from = refl;
  to = refl;
  out = refl;
  in_ = refl;
}

Reconciled-pair :
    (L L' : ℕ → ℤ) (s r : ℕ) (vs vr : ℤ) (rest : List Account)
    → L' s ≡ vs
    → L' r ≡ vr
    → ((j : ℕ) → j ≢ s → j ≢ r → L' j ≡ L j)
    → Reconciled L rest
    → Reconciled L' (set_balance r vr (set_balance s vs rest))
Reconciled-pair L L' s r vs vr rest at_s at_r away h =
    let M : ℕ → ℤ = λ j. if j == s then vs else L j in
    Reconciled-set_balance M L' r vr (set_balance s vs rest) at_r
      (λ j ne. ground (arith, away j, at_s))
      (Reconciled-set_balance L M s vs rest (ground arith) (λ j ne. ground arith) h)

module _ (eng : Engine) (p : TransferRequest) (key : IdempotencyKey) (id : ℕ) (s r : Account)
    (db : Db) (ledger : IsLedger db) (found_s : get_account s.account_id db.accounts ≡ some s)
    (found_r : get_account r.account_id db.accounts ≡ some r)
    (differ : s.account_id ≢ r.account_id) where
  balance_s : ledger_balance s.account_id db.ledger_entries ≡ s.balance
  balance_s = sym (Reconciled-get_account _ s.account_id s db.accounts ledger.reconciled found_s)

  balance_r : ledger_balance r.account_id db.ledger_entries ≡ r.balance
  balance_r = sym (Reconciled-get_account _ r.account_id r db.accounts ledger.reconciled found_r)

  ledger_balance-sender :
      ledger_balance s.account_id (apply_transfer eng p key id s r db).ledger_entries
      ≡ s.balance -ℤ p.amount
  unfolding apply_transfer
  ledger_balance-sender =
      ledger_balance-pair_sender (debit_row eng p id s db) (credit_row eng p id s r db) s.account_id
        r.account_id p.amount db.ledger_entries (rows-IsPair eng p id s r db) differ
      ∙ rw balance_s

  ledger_balance-receiver :
      ledger_balance r.account_id (apply_transfer eng p key id s r db).ledger_entries
      ≡ r.balance +ℤ p.amount
  unfolding apply_transfer
  ledger_balance-receiver =
      ledger_balance-pair_receiver (debit_row eng p id s db) (credit_row eng p id s r db)
        s.account_id r.account_id p.amount db.ledger_entries (rows-IsPair eng p id s r db) differ
      ∙ rw balance_r

  Reconciled-after :
      Reconciled
        (λ k. ledger_balance k (apply_transfer eng p key id s r db).ledger_entries)
        (apply_transfer eng p key id s r db).accounts
  unfolding apply_transfer
  Reconciled-after =
      Reconciled-pair _ _ s.account_id r.account_id (s.balance -ℤ p.amount) (r.balance +ℤ p.amount)
        db.accounts ledger_balance-sender ledger_balance-receiver
        (λ j js jr.
          ledger_balance-pair_other (debit_row eng p id s db) (credit_row eng p id s r db)
            s.account_id r.account_id p.amount db.ledger_entries (rows-IsPair eng p id s r db)
            differ j js jr)
        ledger.reconciled

  is_some_after :
      (k : ℕ)
      → is_some (get_account k db.accounts) ≡ true
      → is_some (get_account k (apply_transfer eng p key id s r db).accounts) ≡ true
  unfolding apply_transfer
  is_some_after k h =
      is_some-get_account-set_balance k r.account_id (r.balance +ℤ p.amount) _
      ∙ is_some-get_account-set_balance k s.account_id (s.balance -ℤ p.amount) db.accounts
      ∙ h

  pub apply_transfer-IsLedger : IsLedger (apply_transfer eng p key id s r db)
  unfolding apply_transfer
  apply_transfer-IsLedger = record {
    unique =
        UniqueIds-set_balance r.account_id _ _
          (UniqueIds-set_balance s.account_id _ db.accounts ledger.unique);
    reconciled = Reconciled-after;
    known = (
      is_some_after r.account_id (ground (arith, found_r)),
      (
        is_some_after s.account_id (ground (arith, found_s)),
        Known-set_balance r.account_id _ _ db.ledger_entries
            (Known-set_balance s.account_id _ db.accounts db.ledger_entries ledger.known),
      ),
    );
  }

  pub integrity_holds-apply_transfer :
      integrity_holds s r (apply_transfer eng p key id s r db) ≡ true
  unfolding integrity_holds
  integrity_holds-apply_transfer =
      integrity_tests _ _ s.balance r.balance p.amount _ _ ledger_balance-sender
        ledger_balance-receiver
        (Reconciled-get_balance _ s.account_id _ Reconciled-after
          (is_some_after s.account_id (ground (arith, found_s))))
        (Reconciled-get_balance _ r.account_id _ Reconciled-after
          (is_some_after r.account_id (ground (arith, found_r))))

  pub total_balance-apply_transfer :
      total_balance (apply_transfer eng p key id s r db).accounts ≡ total_balance db.accounts
  unfolding apply_transfer
  total_balance-apply_transfer = grind (
    int_laws,
    total_balance-set_balance s.account_id (s.balance -ℤ p.amount) s db.accounts ledger.unique
        found_s,
    total_balance-set_balance r.account_id (r.balance +ℤ p.amount) r
        (set_balance s.account_id (s.balance -ℤ p.amount) db.accounts)
        (UniqueIds-set_balance s.account_id (s.balance -ℤ p.amount) db.accounts ledger.unique)
        (get_account-set_balance_ne r.account_id s.account_id (s.balance -ℤ p.amount) r db.accounts
          (λ e. differ (sym e)) found_r),
  )
