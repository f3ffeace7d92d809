-- ===== src/Financial/Closing.antt =====
-- crud.py: `run_daily_closing`. The session does not autoflush, so the loop's existence query sees
-- only the committed snapshots.
pub mod Laws
use kdt_ai_2_hands_on_experi.Common.{ℕ, none, List, [], ◌∷◌, ◌++◌, if◌then◌else◌}
use kdt_ai_2_hands_on_experi.Common.Int.{◌-ℤ◌}
use kdt_ai_2_hands_on_experi.Financial.Rows.{
  Account, Actor, AuditAction, DailyClosingSnapshot, Db, EntryType, TransactionStatus,
}
use kdt_ai_2_hands_on_experi.Financial.Queries.{has_snapshot, last_entry_rowid, sum_entries}
use kdt_ai_2_hands_on_experi.Financial.Account.{audit, append_audit}

unfoldable pub snapshot : ℕ → Db → Account → DailyClosingSnapshot
snapshot date db acct =
    let credits = sum_entries EntryType.credit acct.account_id db.ledger_entries in
    let debits = sum_entries EntryType.debit acct.account_id db.ledger_entries in
    record {
      account_id = acct.account_id;
      business_date = date;
      closing_balance = credits -ℤ debits;
      sum_credit = credits;
      sum_debit = debits;
      last_entry_rowid = last_entry_rowid acct.account_id db.ledger_entries;
    }

-- The loop over the accounts: those that are closed for the date are skipped.
unfoldable pub close_accounts : ℕ → Db → List Account → List DailyClosingSnapshot
unfolding snapshot
close_accounts date db [] = []
close_accounts date db (acct ∷ rest) =
    let created = close_accounts date db rest in
    if has_snapshot acct.account_id date db.snapshots
    then created
    else snapshot date db acct ∷ created

-- The rows that were created, and the tables after the commit.
unfoldable pub run_daily_closing : ℕ → Db → List DailyClosingSnapshot × Db
unfolding close_accounts
run_daily_closing date db =
    let created = close_accounts date db db.accounts in
    (
      created,
      append_audit
          (audit Actor.system_batch AuditAction.daily_close TransactionStatus.success none none)
          (record db { snapshots = created ++ db.snapshots }),
    )
