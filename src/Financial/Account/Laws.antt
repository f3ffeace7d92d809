-- ===== src/Financial/Account/Laws.antt =====
-- The ledger invariant after `create_account`.
use kdt_ai_2_hands_on_experi.Common.{
  ℕ, ◌≡◌, refl, sym, ◌∙◌, none, List, [], ◌∷◌, arith, is_some, if_rule,
}
use kdt_ai_2_hands_on_experi.Common.Int.{ℤ, pos, ◌+ℤ◌, int_laws, ltb_ℤ}
use kdt_ai_2_hands_on_experi.Financial.Rows.{
  Account, AccountCreate, Db, ErrorCode, EntryType, IdempotencyKey, LedgerEntry, Engine,
}
use kdt_ai_2_hands_on_experi.Financial.Queries.{get_account, ledger_balance, get_transaction}
use kdt_ai_2_hands_on_experi.Financial.Queries.Laws.{Reconciled-mono, total_balance}
use kdt_ai_2_hands_on_experi.Financial.Invariant.{
  IsLedger, Known, ledger_balance-credit, ledger_balance-unknown,
}
use kdt_ai_2_hands_on_experi.Financial.Account.{
  Outcome, NewAccount, new_account, new_entry, create_seeded, create_account, columns_taken,
}

Known-cons :
    (a : Account) (accounts : List Account) (es : List LedgerEntry)
    → Known accounts es
    → Known (a ∷ accounts) es
Known-cons a accounts [] h = tt
Known-cons a accounts (e ∷ es) h = ground (arith, Known-cons a accounts es h.1)

-- A new account with no entries and balance 0.
empty-IsLedger :
    (a : Account) (db : Db)
    → get_account a.account_id db.accounts ≡ none
    → a.balance ≡ pos 0
    → IsLedger db
    → IsLedger (record db { accounts = a ∷ db.accounts })
empty-IsLedger a db fresh zero_balance h = record {
  unique = (fresh, h.unique);
  reconciled = (
    zero_balance
        ∙ sym (ledger_balance-unknown a.account_id db.accounts db.ledger_entries fresh h.known),
    h.reconciled,
  );
  known = Known-cons a db.accounts db.ledger_entries h.known;
}

-- A new account with one credit entry for its whole balance.
seeded-IsLedger :
    (a : Account) (e : LedgerEntry) (db : Db)
    → get_account a.account_id db.accounts ≡ none
    → e.entry_type ≡ EntryType.credit
    → e.account_id ≡ a.account_id
    → e.amount ≡ a.balance
    → IsLedger db
    → IsLedger (record db { accounts = a ∷ db.accounts; ledger_entries = e ∷ db.ledger_entries })
seeded-IsLedger a e db fresh is_credit same_account same_amount h =
    let L' = λ (k : ℕ). ledger_balance k (e ∷ db.ledger_entries) in
    let at = λ (k : ℕ). ledger_balance-credit k e db.ledger_entries is_credit in
    record {
      unique = (fresh, h.unique);
      reconciled = (
        sym (
            at a.account_id
            ∙ rw
                (
                  same_account,
                  ledger_balance-unknown a.account_id db.accounts db.ledger_entries fresh h.known,
                  same_amount,
                )
                (grind int_laws)),
        Reconciled-mono (λ k. ledger_balance k db.ledger_entries) L' db.accounts
            (λ k known. at k ∙ ground (arith, known)) h.reconciled,
      );
      known = (ground arith, Known-cons a db.accounts db.ledger_entries h.known);
    }

-- The money that a call of `create_account` put into the bank.
abbrev pub deposited : Outcome ℤ → ℤ
deposited (Outcome.returned b) = b
deposited _ = pos 0

pub record Opens (db : Db) (result : Outcome ℤ × Db) : Type 0 where
  pub ledger : IsLedger result.1
  pub total : total_balance result.1.accounts ≡ total_balance db.accounts +ℤ deposited result.0

refused-Opens : (db : Db) (code : ErrorCode) → IsLedger db → Opens db (Outcome.raised code, db)
refused-Opens db code h = record { ledger = h; total = omega int_laws }

create_seeded-Opens :
    (eng : Engine) (payload : AccountCreate) (new : NewAccount) (db : Db)
    → get_account new.account_id db.accounts ≡ none
    → IsLedger db
    → Opens db (create_seeded eng payload new db)
unfolding create_seeded
create_seeded-Opens eng payload new db fresh h =
    let a = new_account payload new in
    let e =
      new_entry eng new.transaction_id new.account_id EntryType.credit payload.initial_balance
        payload.initial_balance db.ledger_entries in
    if_rule (Opens db)
      (is_some (get_transaction (IdempotencyKey.seed new.account_id) db.transactions)) _ _
      (λ _. refused-Opens db ErrorCode.integrity h)
      (λ _.
        let opened = seeded-IsLedger a e db fresh refl refl refl h in
        record {
          ledger = record {
            unique = opened.unique;
            reconciled = opened.reconciled;
            known = opened.known;
          };
          total = omega int_laws;
        })

-- From tables that satisfy the invariant, `create_account` leaves tables that satisfy it on every
-- branch, and the sum of all stored balances grows by exactly the balance that it returns, or stays
-- as it was when a duplicate column is refused.
pub create_account-Opens :
    (eng : Engine) (payload : AccountCreate) (new : NewAccount) (db : Db)
    → IsLedger db
    → Opens db (create_account eng payload new db)
unfolding create_account new_account
create_account-Opens eng payload new db h =
    if_rule (Opens db) (columns_taken new db) _ _ (λ _. refused-Opens db ErrorCode.integrity h)
      (λ unused.
        let fresh : get_account new.account_id db.accounts ≡ none = ground (arith, unused) in
        if_rule (Opens db) (ltb_ℤ (pos 0) payload.initial_balance) _ _
          (λ _. create_seeded-Opens eng payload new db fresh h)
          (λ _.
            let a = record (new_account payload new) { balance = pos 0 } in
            let opened = empty-IsLedger a db fresh refl h in
            record {
              ledger = record {
                unique = opened.unique;
                reconciled = opened.reconciled;
                known = opened.known;
              };
              total = omega int_laws;
            }))
