-- ===== src/Financial/Account.antt =====
-- crud.py: `create_account`, the balances, and `reconcile_balance`.
pub mod Laws
use kdt_ai_2_hands_on_experi.Common.{
  ℕ, Bool, not, Option, none, some, List, ◌∷◌, map, is_some, if◌then◌else◌, ◌||◌,
}
use kdt_ai_2_hands_on_experi.Common.Int.{ℤ, pos, ◌-ℤ◌, ltb_ℤ, eqb_ℤ}
use kdt_ai_2_hands_on_experi.Financial.Rows.{
  Account, Actor, AuditAction, AuditLog, Db, EntryType, ErrorCode, IdempotencyKey, LedgerEntry,
  Settlement, Transaction, TransactionStatus, HashInput, AccountCreate, Engine,
}
use kdt_ai_2_hands_on_experi.Financial.Queries.{
  get_account, get_account_by_number, get_transaction, get_balance, sum_entries,
}

-- How a call ended. `assertion_failed` is an `AssertionError` of the runtime integrity check.
pub data Outcome (A : Type 0) : Type 0 where
  returned : A → Outcome A
  raised : ErrorCode → Outcome A
  assertion_failed : Outcome A

abbrev pub audit : Actor → AuditAction → TransactionStatus → Option ℕ → Option ErrorCode → AuditLog
audit actor action status txn code = record {
  transaction_id = txn;
  actor = actor;
  action = action;
  status = status;
  error_code = code;
}

-- `_append_audit`
abbrev pub append_audit : AuditLog → Db → Db
append_audit log db = record db { audit_logs = log ∷ db.audit_logs }

abbrev entry_rowids : List LedgerEntry → List ℕ
entry_rowids = map (λ e. e.rowid)

-- `LedgerEntry(...)`, with the rowid that the database gives it
abbrev pub new_entry : Engine → ℕ → ℕ → EntryType → ℤ → ℤ → List LedgerEntry → LedgerEntry
new_entry eng txn account type amount running es = record {
  rowid = eng.next_rowid (entry_rowids es);
  transaction_id = txn;
  account_id = account;
  entry_type = type;
  amount = amount;
  running_balance = running;
}

-- `db.add(entry)`
abbrev pub add_entry : LedgerEntry → Db → Db
add_entry e db = record db { ledger_entries = e ∷ db.ledger_entries }

abbrev pub add_transaction : Transaction → Db → Db
add_transaction t db = record db { transactions = t ∷ db.transactions }

-- What `uuid4` and `random` gave for the defaults of the new rows.
pub record NewAccount : Type 0 where
  pub account_id : ℕ
  pub account_number : ℕ
  pub bank_name : ℕ
  pub transaction_id : ℕ

abbrev bank_or_default : Option ℕ → ℕ → ℕ
bank_or_default none d = d
bank_or_default (some b) d = b

unfoldable pub new_account : AccountCreate → NewAccount → Account
new_account payload new = record {
  account_id = new.account_id;
  owner = payload.owner;
  bank_name = bank_or_default payload.bank_name new.bank_name;
  account_number = new.account_number;
  balance = payload.initial_balance;
}

-- `_create_seed_transaction`
unfoldable seed_transaction : Engine → ℕ → ℤ → ℕ → Transaction
seed_transaction eng account amount id = record {
  transaction_id = id;
  idempotency_key = IdempotencyKey.seed account;
  payload_hash = eng.digest (HashInput.seed_payload account amount);
  sender_account_id = account;
  receiver_account_id = account;
  amount = amount;
  status = TransactionStatus.success;
  settlement = Settlement.normal;
}

abbrev created : ℕ → Option ℕ → AuditLog
created owner txn =
    audit (Actor.named owner) AuditAction.account_create TransactionStatus.success txn none

abbrev add_account : Account → Db → Db
add_account a db = record db { accounts = a ∷ db.accounts }

-- The branch `initial_balance > 0`: the seed transaction, its credit entry, and the balance.
unfoldable pub create_seeded : Engine → AccountCreate → NewAccount → Db → Outcome ℤ × Db
unfolding new_account seed_transaction
create_seeded eng payload new db =
    if is_some (get_transaction (IdempotencyKey.seed new.account_id) db.transactions)
    then (Outcome.raised ErrorCode.integrity, db)
    else (
      Outcome.returned payload.initial_balance,
      append_audit (created payload.owner (some new.transaction_id)) (
          add_entry
            (new_entry eng new.transaction_id new.account_id EntryType.credit
              payload.initial_balance payload.initial_balance db.ledger_entries)
            (add_transaction
              (seed_transaction eng new.account_id payload.initial_balance new.transaction_id)
              (add_account (new_account payload new) db))),
    )

-- The unique columns of `accounts` that a new row could repeat.
abbrev pub columns_taken : NewAccount → Db → Bool
columns_taken new db =
    is_some (get_account new.account_id db.accounts)
    || is_some (get_account_by_number new.account_number db.accounts)

-- `create_account`. A duplicate of a unique column raises `IntegrityError` and commits nothing.
unfoldable pub create_account : Engine → AccountCreate → NewAccount → Db → Outcome ℤ × Db
unfolding create_seeded
create_account eng payload new db =
    if columns_taken new db
    then (Outcome.raised ErrorCode.integrity, db)
    else if ltb_ℤ (pos 0) payload.initial_balance
    then create_seeded eng payload new db
    else (
      Outcome.returned (pos 0),
      append_audit (created payload.owner none)
          (add_account (record (new_account payload new) { balance = pos 0 }) db),
    )

pub record Reconciliation : Type 0 where
  pub account_id : ℕ
  pub cached_balance : ℤ
  pub expected_balance : ℤ
  pub sum_credit : ℤ
  pub sum_debit : ℤ
  pub drift_detected : Bool
  pub delta : ℤ

-- `reconcile_balance`
unfoldable pub reconcile_balance : ℕ → Db → Reconciliation
unfolding get_balance
reconcile_balance k db =
    let stored = get_balance k db.accounts in
    let credits = sum_entries EntryType.credit k db.ledger_entries in
    let debits = sum_entries EntryType.debit k db.ledger_entries in
    let expected = credits -ℤ debits in
    let delta = stored -ℤ expected in
    record {
      account_id = k;
      cached_balance = stored;
      expected_balance = expected;
      sum_credit = credits;
      sum_debit = debits;
      drift_detected = not (eqb_ℤ delta (pos 0));
      delta = delta;
    }
