-- ===== src/Integration/Lost.antt =====
-- A second call of an execution, after the financial service moved the money and the reply was lost.
use kdt_ai_2_hands_on_experi.Common.{
  ℕ, ◌≡◌, ◌<◌, refl, sym, ◌∙◌, ap, subst, true, none, some, arith, is_some,
}
use kdt_ai_2_hands_on_experi.Common.Int.{◌+ℤ◌, ◌-ℤ◌, ◌<ℤ◌, +ℤ_parts, -ℤ_parts}
use kdt_ai_2_hands_on_experi.Financial.Rows.{Account, Db, Engine}
use kdt_ai_2_hands_on_experi.Financial.Queries.{
  get_account, get_account_by_number, get_balance, get_transaction,
}
use kdt_ai_2_hands_on_experi.Financial.Queries.Laws.{get_account-get_account_by_number}
use kdt_ai_2_hands_on_experi.Financial.Invariant.{IsLedger}
use kdt_ai_2_hands_on_experi.Financial.Transfer.{transfer}
use kdt_ai_2_hands_on_experi.Financial.Transfer.Frames.{transfer-Frames}
use kdt_ai_2_hands_on_experi.Financial.Transfer.Moves.{
  get_balance-of_found, transfer-Moved, transfer-sender,
}
use kdt_ai_2_hands_on_experi.Gateway.Rows.{ConfirmationStatus, ExecutionContext, Store}
use kdt_ai_2_hands_on_experi.Gateway.Service.{ok}
use kdt_ai_2_hands_on_experi.Gateway.Confirmation.{get_confirmation}
use kdt_ai_2_hands_on_experi.Gateway.Bank.{BalanceReply, LedgerRequest, internal_key}
use kdt_ai_2_hands_on_experi.Gateway.Transfer.{
  Clock, ExecuteReply, TransferExecuteRequest, read_balance,
}
use kdt_ai_2_hands_on_experi.Gateway.Transfer.Limits.{
  evaluate_internal_transfer-uncovered, uncovered,
}
use kdt_ai_2_hands_on_experi.Gateway.Transfer.Internal.{execute_internal_transfer, internal_request}
use kdt_ai_2_hands_on_experi.Gateway.Transfer.Internal.Execution.{Executes}
use kdt_ai_2_hands_on_experi.Gateway.Transfer.Internal.Retry.{execute_internal_transfer-refused}
use kdt_ai_2_hands_on_experi.Integration.{
  client_balance, client_transfer, financial_bank, ledger_key, transfer_body,
  transfer_reply-returned,
}

client_balance-of_known :
    (k : ℕ) (db : Db)
    → is_some (get_account k db.accounts) ≡ true
    → client_balance db k ≡ BalanceReply.balance (get_balance k db.accounts)
unfolding client_balance get_balance
client_balance-of_known k db h = ground (arith, h)

-- What the ledger's reply says of the sender `owner`.
client_transfer-lowers :
    (eng : Engine) (draw : Db → ℕ) (db : Db) (r : LedgerRequest) (t : ℕ) (owner : Account)
    → IsLedger db
    → get_transaction (ledger_key r.idempotency_key) db.transactions ≡ none
    → get_account_by_number r.sender_account_number db.accounts ≡ some owner
    → (client_transfer eng draw db r).0 ≡ some t
    → client_balance (client_transfer eng draw db r).1 owner.account_id
      ≡ BalanceReply.balance (owner.balance -ℤ r.amount)
unfolding client_transfer
client_transfer-lowers eng draw db r t owner ledger fresh named h =
    let (row, returned, same) = transfer_reply-returned _ t h in
    let p = transfer_body r in
    let key = ledger_key r.idempotency_key in
    let moved = transfer-Moved eng p key (draw db) db row ledger fresh returned in
    let sender : row.sender_account_id ≡ owner.account_id =
      transfer-sender eng p key (draw db) db row owner fresh named returned in
    let found = get_account-get_account_by_number _ owner db.accounts ledger.unique named in
    let before : get_balance owner.account_id db.accounts ≡ owner.balance =
      get_balance-of_found owner.account_id owner db found in
    let known : is_some (get_account owner.account_id (transfer eng p key (draw db) db).1.accounts)
        ≡ true =
      (transfer-Frames eng p key (draw db) db).accounts owner.account_id ∙ rw found refl in
    client_balance-of_known owner.account_id (transfer eng p key (draw db) db).1 known
    ∙ ap BalanceReply.balance (
        ap (λ k. get_balance k (transfer eng p key (draw db) db).1.accounts) (sym sender)
        ∙ moved.sent
        ∙ ap (λ k. get_balance k db.accounts -ℤ r.amount) sender
        ∙ ap (λ b. b -ℤ r.amount) before)

-- After an execution that completed with `t` on the financial service, under an unused key, but whose
-- writes to the gateway's store were lost, when the sender had less than twice the amount: a second call
-- from the old store, while the confirmation and the authentication are alive, replies that the balance
-- is insufficient and invalidates the confirmation, though the money has moved, and leaves the bank as
-- it is. `owner` is the bank's account that the gateway's row names by its id and by its number.
pub execute_internal_transfer-lost :
    (eng : Engine) (draw : Db → ℕ) (ctx : ExecutionContext) (req : TransferExecuteRequest)
    (clock clock' : Clock) (s s' : Store) (db db' : Db) (t : ℕ)
    (done : Executes (financial_bank eng draw) ctx req clock s db t s' db') (owner : Account)
    → IsLedger db
    → get_transaction (ledger_key (internal_key done.c.id)) db.transactions ≡ none
    → get_account_by_number done.from.account_number db.accounts ≡ some owner
    → done.from.external_account_id ≡ some owner.account_id
    → owner.balance <ℤ done.amount +ℤ done.amount
    → clock'.confirmation_at < done.c.expires_at
    → clock'.auth_at < done.a.expires_at
    → let result = execute_internal_transfer (financial_bank eng draw) ctx req clock' s db' in
      (result.0 ≡ ok (ExecuteReply.correction_required uncovered))
      × (get_confirmation done.c.id result.1.confirmations
          ≡ some (record done.c { status = ConfirmationStatus.invalidated }))
      × (result.2 ≡ db')
      × (client_balance db' owner.account_id ≡ BalanceReply.balance (owner.balance -ℤ done.amount))
unfolding read_balance
execute_internal_transfer-lost eng draw ctx req clock clock' s s' db db' t done owner ledger fresh
      named linked short confirmation_alive auth_alive =
    let bank = financial_bank eng draw in
    let r = internal_request done.c done.from done.to done.amount in
    let after : client_balance db' owner.account_id
        ≡ BalanceReply.balance (owner.balance -ℤ done.amount) =
      subst
        (λ x.
          client_balance x owner.account_id ≡ BalanceReply.balance (owner.balance -ℤ done.amount))
        (ap (λ x. x.1) done.moved)
        (client_transfer-lowers eng draw db r t owner ledger fresh named
          (ap (λ x. x.0) done.moved)) in
    let read : read_balance bank done.from db' ≡ ok (owner.balance -ℤ done.amount) =
      rw (linked, after) refl in
    let low : owner.balance -ℤ done.amount <ℤ done.amount =
      ground (arith, short, +ℤ_parts done.amount done.amount, -ℤ_parts owner.balance done.amount) in
    let refused =
      evaluate_internal_transfer-uncovered bank ctx clock' done.from done.to done.amount
        (owner.balance -ℤ done.amount) s db' done.allowed.0 done.allowed.1 done.allowed.2
        done.allowed.3.single read low in
    let (reply, invalidated, kept) =
      execute_internal_transfer-refused bank ctx req clock clock' s s' db db' t done
        confirmation_alive auth_alive uncovered refused in
    (reply, invalidated, kept, after)
