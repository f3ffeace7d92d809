-- ===== src/Financial/Tests/Transfers.antt =====
-- Transfers, their replays and refusals, and the accounts behind them.
use kdt_ai_2_hands_on_experi.Common.{◌≡◌, refl, true, none, some, is_some}
use kdt_ai_2_hands_on_experi.Common.Int.{pos, ◌+ℤ◌, ◌-ℤ◌}
use kdt_ai_2_hands_on_experi.Financial.Rows.{
  Db, ErrorCode, Settlement, Transaction, TransactionStatus, TransferRequest,
}
use kdt_ai_2_hands_on_experi.Financial.Queries.{get_account, get_balance, get_transaction}
use kdt_ai_2_hands_on_experi.Financial.Account.{Outcome, append_audit, create_account}
use kdt_ai_2_hands_on_experi.Financial.Transfer.{failure_log, payload_hash, transfer}
use kdt_ai_2_hands_on_experi.Financial.Transfer.Conservation.{Keeps, transfer-Keeps}
use kdt_ai_2_hands_on_experi.Financial.Transfer.Moves.{Moved, transfer-Moved}
use kdt_ai_2_hands_on_experi.Financial.Transfer.Replay.{transfer-raised, transfer-replay}
use kdt_ai_2_hands_on_experi.Financial.Bank.{handle}
use kdt_ai_2_hands_on_experi.Financial.Bank.Reachable.{IsBank, Reachable-IsBank}
use kdt_ai_2_hands_on_experi.Financial.Cards.{charge_card, create_card}
use kdt_ai_2_hands_on_experi.Financial.Tests.Town.{
  engine, order, order_key, town, town-IsBank, town-Reachable,
}

abbrev row : Transaction
row = record {
  transaction_id = 7;
  idempotency_key = order_key;
  payload_hash = payload_hash engine order;
  sender_account_id = 1;
  receiver_account_id = 2;
  amount = pos 250;
  status = TransactionStatus.success;
  settlement = Settlement.normal;
}

abbrev after : Db
after = (transfer engine order order_key 7 town).1

town-runs :
    (get_balance 1 town.accounts ≡ pos 1000)
    × (get_balance 2 town.accounts ≡ pos 300)
    × (get_transaction order_key town.transactions ≡ none)
    × (is_some (get_account 1 town.accounts) ≡ true)
unfolding handle create_account charge_card create_card get_balance ◌+ℤ◌
town-runs = (refl, refl, refl, refl)

order-returned : (transfer engine order order_key 7 town).0 ≡ Outcome.returned row
unfolding handle create_account charge_card create_card transfer ◌+ℤ◌ ◌-ℤ◌
order-returned = refl

after-runs :
    (get_balance 1 after.accounts ≡ pos 750)
    × (get_balance 2 after.accounts ≡ pos 550)
    × (get_transaction order_key after.transactions ≡ some row)
unfolding handle create_account charge_card create_card transfer get_balance ◌+ℤ◌ ◌-ℤ◌
after-runs = (refl, refl, refl)

-- More than the sender has.
abbrev large : TransferRequest
large = record order { amount = pos 1001 }

large-raised :
    (transfer engine large order_key 7 town).0 ≡ Outcome.raised ErrorCode.insufficient_balance
unfolding handle create_account charge_card create_card transfer ◌+ℤ◌ ◌-ℤ◌
large-raised = refl

Reachable-IsBank_example : IsBank town
Reachable-IsBank_example = Reachable-IsBank town-Reachable

transfer-Keeps_example : Keeps town (transfer engine order order_key 7 town)
transfer-Keeps_example = transfer-Keeps engine order order_key 7 town town-IsBank.ledger

transfer-Moved_example : Moved order town row after
transfer-Moved_example =
    transfer-Moved engine order order_key 7 town row town-IsBank.ledger town-runs.2 order-returned

transfer-raised_example :
    (transfer engine large order_key 7 town).1
    ≡ append_audit (failure_log large ErrorCode.insufficient_balance) town
transfer-raised_example =
    transfer-raised engine large order_key 7 town ErrorCode.insufficient_balance large-raised

transfer-replay_example : transfer engine order order_key 8 after ≡ (Outcome.returned row, after)
transfer-replay_example = transfer-replay engine order order_key 7 8 town row order-returned
