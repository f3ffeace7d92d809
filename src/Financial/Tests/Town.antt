-- ===== src/Financial/Tests/Town.antt =====
-- Two accounts, a card with two charges, and a transfer, on an engine that runs.
use kdt_ai_2_hands_on_experi.Common.{ℕ, ◌+◌, ◌*◌, none, arith}
use kdt_ai_2_hands_on_experi.Common.Int.{ℤ, pos, negsuc}
use kdt_ai_2_hands_on_experi.Financial.Rows.{
  AccountCreate, CardCreate, Db, Engine, HashInput, IdempotencyKey, TransferRequest, max_rowid,
}
use kdt_ai_2_hands_on_experi.Financial.Account.{NewAccount}
use kdt_ai_2_hands_on_experi.Financial.Bank.{
  Request, charge_request, create_account_request, create_card_request, empty_db, handle,
}
use kdt_ai_2_hands_on_experi.Financial.Bank.Reachable.{
  IsBank, Reachable, Reachable-IsBank, start, step,
}

abbrev number : ℤ → ℕ
number (pos n) = 2 * n
number (negsuc n) = 2 * n + 1

abbrev digest_example : HashInput → ℕ
digest_example (HashInput.transfer_payload s b r a) =
    3 * (s + 100 * (b + 100 * (r + 100 * number a)))
digest_example (HashInput.seed_payload k a) = 3 * (k + 100 * number a) + 1
digest_example (HashInput.settle_payload k w a) = 3 * (k + 100 * (w + 100 * number a)) + 2

abbrev pub engine : Engine
engine = record {
  digest = digest_example;
  next_rowid = λ rowids. max_rowid rowids + 1;
  next_rowid_above = λ rowids. omega arith;
}

abbrev pub opening : ℕ → ℕ → AccountCreate
opening owner balance = record { owner = owner; initial_balance = pos balance; bank_name = none }

abbrev pub drawn : ℕ → NewAccount
drawn k = record { account_id = k; account_number = k + 50; bank_name = 9; transaction_id = k + 80 }

abbrev first_account : Request
first_account = create_account_request (opening 1 1000) (drawn 1)

abbrev second_account : Request
second_account = create_account_request (opening 2 300) (drawn 2)

abbrev card_form : CardCreate
card_form = record { account_id = 1; limit = pos 500 }

abbrev card_opened : Request
card_opened = create_card_request card_form 5 (omega arith)

abbrev first_charge : Request
first_charge = charge_request 5 (pos 120) (IdempotencyKey.plain 31)

abbrev second_charge : Request
second_charge = charge_request 5 (pos 80) (IdempotencyKey.plain 32)

abbrev pub town : Db
town = handle engine second_charge (
    handle engine first_charge (
      handle engine card_opened
        (handle engine second_account (handle engine first_account empty_db))))

pub town-Reachable : Reachable engine town
town-Reachable =
    step second_charge
      (step first_charge (step card_opened (step second_account (step first_account start))))

-- What the tests start from.
pub town-IsBank : IsBank town
town-IsBank = Reachable-IsBank town-Reachable

abbrev pub order : TransferRequest
order = record {
  sender_account_number = 51;
  receiver_bank_name = 9;
  receiver_account_number = 52;
  amount = pos 250;
}

abbrev pub order_key : IdempotencyKey
order_key = IdempotencyKey.plain 40
