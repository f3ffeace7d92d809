-- ===== src/Financial/Tests/Cards.antt =====
-- Charges and settlements of the town's card.
use kdt_ai_2_hands_on_experi.Common.{◌≡◌, refl, true, none, some, is_some, arith}
use kdt_ai_2_hands_on_experi.Common.Int.{pos, ◌+ℤ◌, ◌-ℤ◌, ◌≤ℤ◌}
use kdt_ai_2_hands_on_experi.Financial.Rows.{
  Card, CardLedgerEntry, Db, ErrorCode, IdempotencyKey, Settlement, Transaction, TransactionStatus,
}
use kdt_ai_2_hands_on_experi.Financial.Queries.{get_balance, get_card, get_charge}
use kdt_ai_2_hands_on_experi.Financial.Account.{Outcome, create_account}
use kdt_ai_2_hands_on_experi.Financial.Transfer.{transfer}
use kdt_ai_2_hands_on_experi.Financial.Cards.{charge_card, create_card, settle_card, settlement_row}
use kdt_ai_2_hands_on_experi.Financial.Cards.Charging.{charge_card-replay}
use kdt_ai_2_hands_on_experi.Financial.Cards.Settling.{Settles, settle_card-Settles}
use kdt_ai_2_hands_on_experi.Financial.Cards.Blocked.{settle_card-blocked}
use kdt_ai_2_hands_on_experi.Financial.Bank.{handle}
use kdt_ai_2_hands_on_experi.Financial.Tests.Town.{engine, order, town}

abbrev card : Card
card = record { card_id = 5; account_id = 1; limit = pos 500 }

abbrev new_key : IdempotencyKey
new_key = IdempotencyKey.plain 33

abbrev charge : CardLedgerEntry
charge = record { rowid = 3; card_id = 5; amount = pos 300; idempotency_key = new_key }

abbrev charged : Db
charged = (charge_card engine 5 (pos 300) new_key town).1

abbrev settlement : Transaction
settlement = settlement_row engine card 5 2 (pos 200) 90

abbrev settled : Db
settled = (settle_card engine 5 90 town).1

card-stored :
    (get_card 5 town.cards ≡ some card) × (get_charge new_key town.card_ledger_entries ≡ none)
unfolding handle create_account charge_card create_card ◌+ℤ◌
card-stored = (refl, refl)

charge-returned :
    ((charge_card engine 5 (pos 300) new_key town).0 ≡ Outcome.returned charge)
    × (is_some (get_card 5 charged.cards) ≡ true)
unfolding handle create_account charge_card create_card ◌+ℤ◌
charge-returned = (refl, refl)

settlement-returned : (settle_card engine 5 90 town).0 ≡ Outcome.returned settlement
unfolding handle create_account charge_card create_card settle_card settlement_row ◌+ℤ◌ ◌-ℤ◌
settlement-returned = refl

-- A client sends the transfer under the key of that settlement.
abbrev taken : Db
taken = (transfer engine order settlement.idempotency_key 91 town).1

abbrev taker : Transaction
taker = record {
  transaction_id = 91;
  idempotency_key = IdempotencyKey.settle 5 2;
  payload_hash = 1501562853;
  sender_account_id = 1;
  receiver_account_id = 2;
  amount = pos 250;
  status = TransactionStatus.success;
  settlement = Settlement.normal;
}

taken-returned :
    (transfer engine order settlement.idempotency_key 91 town).0 ≡ Outcome.returned taker
unfolding handle create_account charge_card create_card settlement_row transfer ◌+ℤ◌ ◌-ℤ◌
taken-returned = refl

still-covered : settlement.amount ≤ℤ get_balance settlement.sender_account_id taken.accounts
unfolding handle create_account charge_card create_card settlement_row transfer get_balance ◌+ℤ◌
    ◌-ℤ◌
still-covered = omega arith

charge_card-replay_example :
    charge_card engine 5 (pos 999) new_key charged ≡ (Outcome.returned charge, charged)
charge_card-replay_example =
    charge_card-replay engine 5 5 (pos 300) (pos 999) new_key town charge charge-returned.0
      charge-returned.1

settle_card-Settles_example : Settles 5 card town settlement settled
settle_card-Settles_example =
    settle_card-Settles engine 5 90 town card settlement card-stored.0 settlement-returned

settle_card-blocked_example :
    settle_card engine 5 93 taken ≡ (Outcome.raised ErrorCode.integrity, taken)
settle_card-blocked_example =
    settle_card-blocked engine order 5 90 91 93 town settlement taker settlement-returned
      taken-returned still-covered
