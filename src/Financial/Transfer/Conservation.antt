-- ===== src/Financial/Transfer/Conservation.antt =====
-- `transfer` keeps the ledger and the money on every path.
use kdt_ai_2_hands_on_experi.Common.{
  ℕ, ◌≡◌, ◌≢◌, refl, Bool, true, false, Option, none, some, List, if◌then◌else◌,
}
use kdt_ai_2_hands_on_experi.Financial.Rows.{
  AuditLog, Db, ErrorCode, IdempotencyKey, Transaction, TransferRequest, Engine,
}
use kdt_ai_2_hands_on_experi.Financial.Queries.{get_transaction}
use kdt_ai_2_hands_on_experi.Financial.Queries.Laws.{total_balance}
use kdt_ai_2_hands_on_experi.Financial.Account.{Outcome}
use kdt_ai_2_hands_on_experi.Financial.Invariant.{IsLedger}
use kdt_ai_2_hands_on_experi.Financial.Transfer.{
  Checked, check, commit_transfer, transfer_keyed, transfer,
}
use kdt_ai_2_hands_on_experi.Financial.Transfer.Validation.{check-Accepts, Accepts-ids}
use kdt_ai_2_hands_on_experi.Financial.Transfer.Writes.{
  apply_transfer-IsLedger, integrity_holds-apply_transfer, total_balance-apply_transfer,
}

-- What a call that began at `db` leaves behind.
pub record Keeps (db : Db) (result : Outcome Transaction × Db) : Type 0 where
  pub ledger : IsLedger result.1
  pub total : total_balance result.1.accounts ≡ total_balance db.accounts
  pub asserted : result.0 ≢ Outcome.assertion_failed

returned-ne-assertion_failed : (t : Transaction) → Outcome.returned t ≢ Outcome.assertion_failed
returned-ne-assertion_failed t e = cc

fail-Keeps :
    (db : Db) (log : List AuditLog) (code : ErrorCode)
    → IsLedger db
    → Keeps db (Outcome.raised code, record db { audit_logs = log })
fail-Keeps db log code h = record {
  ledger = record { unique = h.unique; reconciled = h.reconciled; known = h.known };
  total = refl;
  asserted = λ e. cc;
}

if-Keeps :
    (db : Db) (b : Bool) (x y : Outcome Transaction × Db)
    → Keeps db x
    → Keeps db y
    → Keeps db (if b then x else y)
if-Keeps db true x y hx hy = hx
if-Keeps db false x y hx hy = hy

module _ (eng : Engine) (p : TransferRequest) (key : IdempotencyKey) (id : ℕ) (db : Db) where
  commit_transfer-Keeps :
      (c : Checked) → check p db ≡ c → IsLedger db → Keeps db (commit_transfer eng p key id db c)
  unfolding commit_transfer
  commit_transfer-Keeps (Checked.refused code) e h = fail-Keeps db _ code h
  commit_transfer-Keeps (Checked.accepted s r) e h =
      let (found_s, found_r, differ) = Accepts-ids p db s r h.unique (check-Accepts p db s r e) in
      record {
        ledger = apply_transfer-IsLedger eng p key id s r db h found_s found_r differ;
        total = total_balance-apply_transfer eng p key id s r db h found_s found_r differ;
        asserted =
            rw (integrity_holds-apply_transfer eng p key id s r db h found_s found_r differ)
              (λ q. cc);
      }

  transfer_keyed-Keeps :
      (o : Option Transaction) → IsLedger db → Keeps db (transfer_keyed eng p key id db o)
  unfolding transfer_keyed
  transfer_keyed-Keeps none h = commit_transfer-Keeps (check p db) refl h
  transfer_keyed-Keeps (some t) h =
      if-Keeps db _ _ _ (fail-Keeps db _ ErrorCode.idempotency_conflict h)
        (record { ledger = h; total = refl; asserted = returned-ne-assertion_failed t })

  -- From tables that satisfy the invariant, every call of `transfer`, whether it returns, replays or
  -- raises, leaves tables that satisfy it, leaves the sum of all stored balances as it was, and never
  -- fails one of the three assertions after the commit.
  pub transfer-Keeps : IsLedger db → Keeps db (transfer eng p key id db)
  unfolding transfer
  transfer-Keeps h = transfer_keyed-Keeps (get_transaction key db.transactions) h
