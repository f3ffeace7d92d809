-- ===== src/Integration.antt =====
-- The gateway on the bank: services/financial/financial_client.py over the endpoints of
-- financial_service/routers.py and analytics_router.py.
pub mod Money
pub mod Lost
mod Tests
use kdt_ai_2_hands_on_experi.Common.{
  ℕ, ◌+◌, ◌*◌, ◌≡◌, ◌≢◌, refl, sym, ◌∙◌, subst, ap, true, false, Option, none, some, List, [], ◌∷◌,
  arith, if◌then◌else◌,
}
use kdt_ai_2_hands_on_experi.Financial.Rows.{
  Account, Db, Engine, IdempotencyKey, Transaction, TransferRequest, key_eq, key_eq_refl,
}
use kdt_ai_2_hands_on_experi.Financial.Queries.{get_account, get_transaction}
use kdt_ai_2_hands_on_experi.Financial.Account.{Outcome}
use kdt_ai_2_hands_on_experi.Financial.Transfer
use kdt_ai_2_hands_on_experi.Financial.Transfer.{payload_hash}
use kdt_ai_2_hands_on_experi.Financial.Transfer.Replay.{
  Stored, transfer-Stored, transfer-of_Stored, transfer-keeps_row,
}
use kdt_ai_2_hands_on_experi.Gateway.Bank.{
  Bank, BalanceReply, LedgerKey, LedgerRequest, external_key, internal_key,
}

-- The two prefixes keep the texts of the keys apart.
abbrev pub ledger_key : LedgerKey → IdempotencyKey
ledger_key (internal_key n) = IdempotencyKey.plain (2 * n)
ledger_key (external_key n) = IdempotencyKey.plain (2 * n + 1)

-- The JSON body of POST /transfers
abbrev pub transfer_body : LedgerRequest → TransferRequest
transfer_body r = record {
  sender_account_number = r.sender_account_number;
  receiver_bank_name = r.receiver_bank_name;
  receiver_account_number = r.receiver_account_number;
  amount = r.amount;
}

balance_reply : Option Account → BalanceReply
balance_reply none = BalanceReply.missing
balance_reply (some a) = BalanceReply.balance a.balance

-- A status of 400 or more is a `FinancialServiceError`.
abbrev transfer_reply : Outcome Transaction → Option ℕ
transfer_reply (Outcome.returned t) = some t.transaction_id
transfer_reply (Outcome.raised code) = none
transfer_reply Outcome.assertion_failed = none

-- The client's `transfer`; `draw` is the `uuid4` that the service would draw for a new row.
unfoldable pub client_transfer : Engine → (Db → ℕ) → Db → LedgerRequest → Option ℕ × Db
client_transfer eng draw db r =
    let (outcome, db') =
      Transfer.transfer eng (transfer_body r) (ledger_key r.idempotency_key) (draw db) db in
    (transfer_reply outcome, db')

-- The client's `get_balance`
unfoldable pub client_balance : Db → ℕ → BalanceReply
unfolding balance_reply
client_balance db k = balance_reply (get_account k db.accounts)

-- The bank stores the request's row under its key, with the hash of the body and the id `t`.
pub Holds : Engine → Db → LedgerRequest → ℕ → Type 0
Holds eng db r t =
    (row : Transaction) × Stored eng (transfer_body r) (ledger_key r.idempotency_key) row db
    × (row.transaction_id ≡ t)

pub transfer_reply-returned :
    (o : Outcome Transaction) (t : ℕ)
    → transfer_reply o ≡ some t
    → (row : Transaction) × (o ≡ Outcome.returned row) × (row.transaction_id ≡ t)
transfer_reply-returned (Outcome.returned row) t h = (row, refl, ground arith)
transfer_reply-returned (Outcome.raised code) t h = cc
transfer_reply-returned Outcome.assertion_failed t h = cc

module _ (eng : Engine) (draw : Db → ℕ) where
  pub client_transfer-Holds :
      (db : Db) (r : LedgerRequest) (t : ℕ)
      → (client_transfer eng draw db r).0 ≡ some t
      → Holds eng (client_transfer eng draw db r).1 r t
  unfolding client_transfer Holds
  client_transfer-Holds db r t h =
      let (row, returned, same) = transfer_reply-returned _ t h in
      (
        row,
        transfer-Stored eng (transfer_body r) (ledger_key r.idempotency_key) (draw db) db row
            returned,
        same,
      )

  pub client_transfer-keeps :
      (db : Db) (r other : LedgerRequest) (t : ℕ)
      → Holds eng db r t
      → Holds eng (client_transfer eng draw db other).1 r t
  unfolding client_transfer Holds
  client_transfer-keeps db r other t (row, stored, same) = (
    row,
    (
      transfer-keeps_row eng (transfer_body other) (ledger_key other.idempotency_key) (draw db) db
          (ledger_key r.idempotency_key) row stored.0,
      stored.1,
    ),
    same,
  )

  pub client_transfer-replayed :
      (db : Db) (r : LedgerRequest) (t : ℕ)
      → Holds eng db r t
      → client_transfer eng draw db r ≡ (some t, db)
  unfolding client_transfer Holds
  client_transfer-replayed db r t (row, stored, same) =
      rw
        (
          transfer-of_Stored eng (transfer_body r) (ledger_key r.idempotency_key) (draw db) db row
              stored,
          same,
        )
        refl

-- The bank that the gateway's services call.
abbrev pub financial_bank : Engine → (Db → ℕ) → Bank
financial_bank eng draw = record {
  State = Db;
  get_balance = client_balance;
  transfer = client_transfer eng draw;
  Recorded = Holds eng;
  recorded = client_transfer-Holds eng draw;
  kept = client_transfer-keeps eng draw;
  replayed = client_transfer-replayed eng draw;
}
