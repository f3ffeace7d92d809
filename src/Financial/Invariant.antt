-- ===== src/Financial/Invariant.antt =====
-- The invariant of the bank's tables: keys are unique, entries belong to accounts, and every stored
-- balance is the sum of its account's ledger entries.
use kdt_ai_2_hands_on_experi.Common.{
  ℕ, ◌≡◌, refl, true, none, List, [], ◌∷◌, arith, ◌==◌, is_some, if◌then◌else◌,
}
use kdt_ai_2_hands_on_experi.Common.Int.{ℤ, pos, ◌+ℤ◌, ◌-ℤ◌, int_laws}
use kdt_ai_2_hands_on_experi.Common.Lists.{All}
use kdt_ai_2_hands_on_experi.Financial.Rows.{Account, Db, EntryType, LedgerEntry}
use kdt_ai_2_hands_on_experi.Financial.Queries.{
  get_account, ledger_balance, sum_entries, set_balance,
}
use kdt_ai_2_hands_on_experi.Financial.Queries.Laws.{
  UniqueIds, Reconciled, is_some-get_account-set_balance,
}

-- The foreign key of the ledger entries.
abbrev pub Known : List Account → List LedgerEntry → Type 0
Known accounts = All (λ e. is_some (get_account e.account_id accounts) ≡ true)

pub record IsLedger (db : Db) : Type 0 where
  pub unique : UniqueIds db.accounts
  pub reconciled : Reconciled (λ k. ledger_balance k db.ledger_entries) db.accounts
  pub known : Known db.accounts db.ledger_entries

pub ledger_balance-debit :
    (k : ℕ) (e : LedgerEntry) (es : List LedgerEntry)
    → e.entry_type ≡ EntryType.debit
    → ledger_balance k (e ∷ es)
      ≡ (if e.account_id == k then ledger_balance k es -ℤ e.amount else ledger_balance k es)
ledger_balance-debit k e es h = grind (int_laws, h)

pub ledger_balance-credit :
    (k : ℕ) (e : LedgerEntry) (es : List LedgerEntry)
    → e.entry_type ≡ EntryType.credit
    → ledger_balance k (e ∷ es)
      ≡ (if e.account_id == k then ledger_balance k es +ℤ e.amount else ledger_balance k es)
ledger_balance-credit k e es h = grind (int_laws, h)

pub Known-set_balance :
    (k : ℕ) (v : ℤ) (accounts : List Account) (es : List LedgerEntry)
    → Known accounts es
    → Known (set_balance k v accounts) es
Known-set_balance k v accounts [] h = tt
Known-set_balance k v accounts (e ∷ es) h = ground (
  arith,
  is_some-get_account-set_balance e.account_id k v accounts,
  Known-set_balance k v accounts es h.1,
)

-- An account that is not in the table has no entries.
sum_entries-unknown :
    (t : EntryType) (k : ℕ) (accounts : List Account) (es : List LedgerEntry)
    → get_account k accounts ≡ none
    → Known accounts es
    → sum_entries t k es ≡ pos 0
sum_entries-unknown t k accounts [] h known = refl
sum_entries-unknown t k accounts (e ∷ es) h known =
    grind (int_laws, sum_entries-unknown t k accounts es h known.1, known.0)

pub ledger_balance-unknown :
    (k : ℕ) (accounts : List Account) (es : List LedgerEntry)
    → get_account k accounts ≡ none
    → Known accounts es
    → ledger_balance k es ≡ pos 0
ledger_balance-unknown k accounts es h known =
    rw
      (
        sum_entries-unknown EntryType.credit k accounts es h known,
        sum_entries-unknown EntryType.debit k accounts es h known,
      )
      (omega int_laws)
