-- ===== src/Financial/Transfer.antt =====
-- crud.py: `transfer`.
pub mod Frames
pub mod Validation
pub mod Moves
pub mod Replay
pub mod Conservation
pub mod Writes
use kdt_ai_2_hands_on_experi.Common.{
  ℕ, Bool, Option, none, some, ◌∷◌, ◌==◌, ◌&&◌, not, if◌then◌else◌,
}
use kdt_ai_2_hands_on_experi.Common.Int.{ℤ, pos, ◌+ℤ◌, ◌-ℤ◌, ltb_ℤ, leb_ℤ, eqb_ℤ}
use kdt_ai_2_hands_on_experi.Financial.Rows.{
  Account, Actor, AuditAction, AuditLog, Db, EntryType, ErrorCode, IdempotencyKey, LedgerEntry,
  Settlement, Transaction, TransactionStatus, HashInput, TransferRequest, Engine,
}
use kdt_ai_2_hands_on_experi.Financial.Queries.{
  get_account_by_number, get_transaction, get_balance, ledger_balance, set_balance,
}
use kdt_ai_2_hands_on_experi.Financial.Account.{
  Outcome, audit, append_audit, new_entry, add_entry, add_transaction,
}

abbrev pub payload_hash : Engine → TransferRequest → ℕ
payload_hash eng p = eng.digest (
    HashInput.transfer_payload p.sender_account_number p.receiver_bank_name
      p.receiver_account_number p.amount)

-- `_write_failure_audit`
abbrev pub failure_log : TransferRequest → ErrorCode → AuditLog
failure_log p code =
    audit (Actor.named p.sender_account_number) AuditAction.transfer_failed
      TransactionStatus.failure none (some code)

abbrev fail : {A : Type 0} → TransferRequest → ErrorCode → Db → Outcome A × Db
fail p code db = (Outcome.raised code, append_audit (failure_log p code) db)

-- The two accounts that the validations found, or the error that one of them raised.
pub data Checked : Type 0 where
  refused : ErrorCode → Checked
  accepted : Account → Account → Checked

check_receiver : TransferRequest → Account → Option Account → Checked
check_receiver p sender none = Checked.refused ErrorCode.account_not_found
check_receiver p sender (some receiver) =
    if not (p.receiver_bank_name == receiver.bank_name)
    then Checked.refused ErrorCode.receiver_bank_mismatch
    else if leb_ℤ p.amount (pos 0)
    then Checked.refused ErrorCode.invalid_amount
    else if ltb_ℤ sender.balance p.amount
    then Checked.refused ErrorCode.insufficient_balance
    else Checked.accepted sender receiver

check_sender : TransferRequest → Db → Option Account → Checked
unfolding check_receiver
check_sender p db none = Checked.refused ErrorCode.account_not_found
check_sender p db (some sender) =
    check_receiver p sender (get_account_by_number p.receiver_account_number db.accounts)

-- The validations, in the order of the `try` block.
unfoldable pub check : TransferRequest → Db → Checked
unfolding check_sender
check p db =
    if p.sender_account_number == p.receiver_account_number
    then Checked.refused ErrorCode.self_transfer
    else check_sender p db (get_account_by_number p.sender_account_number db.accounts)

unfoldable pub transfer_row :
    Engine → TransferRequest → IdempotencyKey → ℕ → Account → Account → Transaction
transfer_row eng p key id sender receiver = record {
  transaction_id = id;
  idempotency_key = key;
  payload_hash = payload_hash eng p;
  sender_account_id = sender.account_id;
  receiver_account_id = receiver.account_id;
  amount = p.amount;
  status = TransactionStatus.success;
  settlement = Settlement.normal;
}

abbrev set_balances : Account → Account → ℤ → Db → Db
set_balances sender receiver amount db = record db {
  accounts =
      set_balance receiver.account_id (receiver.balance +ℤ amount)
        (set_balance sender.account_id (sender.balance -ℤ amount) db.accounts);
}

-- The pair of ledger rows, which together move the amount.
abbrev pub debit_row : Engine → TransferRequest → ℕ → Account → Db → LedgerEntry
debit_row eng p id sender db =
    new_entry eng id sender.account_id EntryType.debit p.amount (sender.balance -ℤ p.amount)
      db.ledger_entries

abbrev pub credit_row : Engine → TransferRequest → ℕ → Account → Account → Db → LedgerEntry
credit_row eng p id sender receiver db =
    new_entry eng id receiver.account_id EntryType.credit p.amount (receiver.balance +ℤ p.amount)
      (debit_row eng p id sender db ∷ db.ledger_entries)

-- The writes of the `try` block, up to its commit.
unfoldable pub apply_transfer :
    Engine → TransferRequest → IdempotencyKey → ℕ → Account → Account → Db → Db
unfolding transfer_row
apply_transfer eng p key id sender receiver db =
    append_audit
      (audit (Actor.named p.sender_account_number) AuditAction.transfer TransactionStatus.success
        (some id) none)
      (set_balances sender receiver p.amount (
        add_entry (credit_row eng p id sender receiver db) (
          add_entry (debit_row eng p id sender db)
            (add_transaction (transfer_row eng p key id sender receiver) db))))

-- The three assertions after the commit; `sender` and `receiver` are the rows before it, and the
-- stored balances are read back.
unfoldable pub integrity_holds : Account → Account → Db → Bool
unfolding get_balance
integrity_holds sender receiver db =
    let post_sender = ledger_balance sender.account_id db.ledger_entries in
    let post_receiver = ledger_balance receiver.account_id db.ledger_entries in
    eqb_ℤ (post_sender +ℤ post_receiver) (sender.balance +ℤ receiver.balance)
    && eqb_ℤ post_sender (get_balance sender.account_id db.accounts)
    && eqb_ℤ post_receiver (get_balance receiver.account_id db.accounts)

commit_transfer :
    Engine → TransferRequest → IdempotencyKey → ℕ → Db → Checked → Outcome Transaction × Db
unfolding apply_transfer integrity_holds
commit_transfer eng p key id db (Checked.refused code) = fail p code db
commit_transfer eng p key id db (Checked.accepted sender receiver) =
    let db' = apply_transfer eng p key id sender receiver db in
    (
      if integrity_holds sender receiver db'
          then Outcome.returned (transfer_row eng p key id sender receiver)
          else Outcome.assertion_failed,
      db',
    )

-- The idempotency check comes first: a replay returns the stored row and writes nothing.
transfer_keyed :
    Engine
    → TransferRequest
    → IdempotencyKey
    → ℕ
    → Db
    → Option Transaction
    → Outcome Transaction × Db
unfolding commit_transfer check
transfer_keyed eng p key id db none = commit_transfer eng p key id db (check p db)
transfer_keyed eng p key id db (some existing) =
    if not (existing.payload_hash == payload_hash eng p)
    then fail p ErrorCode.idempotency_conflict db
    else (Outcome.returned existing, db)

-- `id` is the `uuid4` of the new transaction.
unfoldable pub transfer :
    Engine → TransferRequest → IdempotencyKey → ℕ → Db → Outcome Transaction × Db
unfolding transfer_keyed
transfer eng p key id db = transfer_keyed eng p key id db (get_transaction key db.transactions)
