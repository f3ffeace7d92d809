-- ===== src/Integration/Money.antt =====
-- What an execution of the gateway does to the money of the bank.
use kdt_ai_2_hands_on_experi.Common.{ℕ, ◌≡◌, subst, ap, none, some}
use kdt_ai_2_hands_on_experi.Financial.Rows.{Db, Engine, Transaction}
use kdt_ai_2_hands_on_experi.Financial.Queries.{get_transaction}
use kdt_ai_2_hands_on_experi.Financial.Invariant.{IsLedger}
use kdt_ai_2_hands_on_experi.Financial.Transfer.Moves.{Moved, transfer-Moved}
use kdt_ai_2_hands_on_experi.Gateway.Rows.{ExecutionContext, Store}
use kdt_ai_2_hands_on_experi.Gateway.Service.{ok}
use kdt_ai_2_hands_on_experi.Gateway.Bank.{LedgerRequest, internal_key}
use kdt_ai_2_hands_on_experi.Gateway.Transfer.{Clock, ExecuteReply, TransferExecuteRequest}
use kdt_ai_2_hands_on_experi.Gateway.Transfer.Internal.{execute_internal_transfer, internal_request}
use kdt_ai_2_hands_on_experi.Gateway.Transfer.Internal.Execution.{
  Executes, execute_internal_transfer-Executes,
}
use kdt_ai_2_hands_on_experi.Integration.{
  client_transfer, financial_bank, ledger_key, transfer_body, transfer_reply-returned,
}

module _ (eng : Engine) (draw : Db → ℕ) where
  client_transfer-Moved :
      (db : Db) (r : LedgerRequest) (t : ℕ)
      → IsLedger db
      → get_transaction (ledger_key r.idempotency_key) db.transactions ≡ none
      → (client_transfer eng draw db r).0 ≡ some t
      → (row : Transaction) × (row.transaction_id ≡ t)
        × Moved (transfer_body r) db row (client_transfer eng draw db r).1
  unfolding client_transfer
  client_transfer-Moved db r t ledger fresh h =
      let (row, returned, same) = transfer_reply-returned _ t h in
      (
        row,
        same,
        transfer-Moved eng (transfer_body r) (ledger_key r.idempotency_key) (draw db) db row ledger
            fresh returned,
      )

-- An internal transfer that completes with `t` on the financial service, when no row is stored under the
-- confirmation's key, has moved exactly the amount that the confirmation fixed: the sender's stored
-- balance falls by it, the receiver's rises by it, no other balance changes, the amount is positive and
-- was covered, and `t` is the id of the row that says so.
pub execute_internal_transfer-Moved :
    (eng : Engine) (draw : Db → ℕ) (ctx : ExecutionContext) (req : TransferExecuteRequest)
    (clock : Clock) (s : Store) (db : Db) (t : ℕ)
    → IsLedger db
    → ((k : ℕ)
        → req.confirmation_id ≡ some k
        → get_transaction (ledger_key (internal_key k)) db.transactions ≡ none)
    → (execute_internal_transfer (financial_bank eng draw) ctx req clock s db).0
      ≡ ok (ExecuteReply.completed t)
    → let result = execute_internal_transfer (financial_bank eng draw) ctx req clock s db in
      (done : Executes (financial_bank eng draw) ctx req clock s db t result.1 result.2)
      × (row : Transaction) × (row.transaction_id ≡ t)
      × Moved
          (transfer_body (internal_request done.c done.from done.to done.amount))
          db
          row
          result.2
execute_internal_transfer-Moved eng draw ctx req clock s db t ledger fresh h =
    let bank = financial_bank eng draw in
    let done = execute_internal_transfer-Executes bank ctx req clock s db t h in
    let r = internal_request done.c done.from done.to done.amount in
    let (row, same, moved) =
      client_transfer-Moved eng draw db r t ledger (fresh done.c.id done.executable.id)
        (ap (λ x. x.0) done.moved) in
    (
      done,
      row,
      same,
      subst (λ db'. Moved (transfer_body r) db row db') (ap (λ x. x.1) done.moved) moved,
    )
