-- ===== src/Integration/Tests/Retries.antt =====
-- The theorems on a lost reply of the ledger, applied.
use kdt_ai_2_hands_on_experi.Common.{◌≡◌, ◌≢◌, refl, true, none, some, [], ◌∷◌, arith}
use kdt_ai_2_hands_on_experi.Common.Int.{pos, ◌+ℤ◌, ◌-ℤ◌, ◌<ℤ◌}
use kdt_ai_2_hands_on_experi.Financial.Rows.{Account, Db}
use kdt_ai_2_hands_on_experi.Financial.Queries.{get_account_by_number, get_transaction}
use kdt_ai_2_hands_on_experi.Financial.Account.{create_account}
use kdt_ai_2_hands_on_experi.Financial.Transfer.{transfer}
use kdt_ai_2_hands_on_experi.Financial.Cards.{charge_card, create_card}
use kdt_ai_2_hands_on_experi.Financial.Bank.{handle}
use kdt_ai_2_hands_on_experi.Financial.Tests.Town.{engine, town, town-IsBank}
use kdt_ai_2_hands_on_experi.Gateway.Rows.{
  Confirmation, ConfirmationOperation, ConfirmationStatus, FixedData, Store,
}
use kdt_ai_2_hands_on_experi.Gateway.Bank.{BalanceReply, LedgerRequest, internal_key}
use kdt_ai_2_hands_on_experi.Gateway.Service.{ok}
use kdt_ai_2_hands_on_experi.Gateway.Confirmation.{get_confirmation, load_for_execute}
use kdt_ai_2_hands_on_experi.Gateway.Confirmation.Laws.{load_for_execute_iff}
use kdt_ai_2_hands_on_experi.Gateway.AuthContext.{load_verified}
use kdt_ai_2_hands_on_experi.Gateway.AuthContext.Laws.{load_verified_iff}
use kdt_ai_2_hands_on_experi.Gateway.Transfer.{ExecuteReply, read_balance}
use kdt_ai_2_hands_on_experi.Gateway.Transfer.Limits.{IsWithin, uncovered}
use kdt_ai_2_hands_on_experi.Gateway.Transfer.Executed.{IsExecuted, complete_execution-IsExecuted}
use kdt_ai_2_hands_on_experi.Gateway.Transfer.Internal.{
  complete_execution, execute_internal_transfer, internal_request,
}
use kdt_ai_2_hands_on_experi.Gateway.Transfer.Internal.Execution.{Executes}
use kdt_ai_2_hands_on_experi.Gateway.Transfer.Internal.Retry.{execute_internal_transfer-retry}
use kdt_ai_2_hands_on_experi.Integration.{client_balance, client_transfer, ledger_key}
use kdt_ai_2_hands_on_experi.Integration.Lost.{execute_internal_transfer-lost}
use kdt_ai_2_hands_on_experi.Integration.Tests.Office.{
  approved, bank, clock, ctx, draw, from_account, office, request, to_account, verified,
}

-- The store before the execution, written out.
abbrev pub ready : Store
ready = record office { confirmations = approved ∷ []; auth_contexts = verified ∷ [] }

ready-loaded :
    load_for_execute ctx (some 21) ConfirmationOperation.internal_transfer 140 ready ≡ ok approved
unfolding load_for_execute
ready-loaded = refl

ready-verified : load_verified ctx (some 31) approved 140 ready ≡ ok (some verified)
unfolding load_verified
ready-verified = refl

abbrev moving : LedgerRequest
moving = internal_request approved from_account to_account (pos 600)

-- The first call moved the ledger, and its reply was lost.
abbrev lost : Db
lost = (client_transfer engine draw town moving).1

lost-replied : client_transfer engine draw town moving ≡ (some 77, lost)
unfolding handle charge_card create_card create_account client_transfer transfer ◌+ℤ◌ ◌-ℤ◌
lost-replied = refl

ready-allowed :
    (from_account.id ≢ to_account.id)
    × (from_account.active ≡ true)
    × (to_account.active ≡ true)
    × IsWithin bank ctx (clock 140) from_account (pos 600) ready town
unfolding handle charge_card create_card create_account ◌+ℤ◌ ◌-ℤ◌ read_balance client_balance
ready-allowed = (
  λ e. omega arith,
  refl,
  refl,
  record {
    single = omega arith;
    available = pos 1000;
    read = refl;
    covered = omega arith;
    daily = omega arith;
  },
)

abbrev lost_done :
    Executes bank ctx request
      (clock 140)
      ready
      town
      77
      (complete_execution ctx 140 approved verified 77 ready)
      lost
lost_done = record {
  c = approved;
  a = verified;
  from = from_account;
  to = to_account;
  amount = pos 600;
  executable =
      (load_for_execute_iff ctx (some 21) ConfirmationOperation.internal_transfer 140 ready
          approved).0
        ready-loaded;
  authenticated = (load_verified_iff ctx (some 31) approved 140 ready verified).0 ready-verified;
  fixed = (11, 12, refl, refl, refl);
  allowed = ready-allowed;
  moved = lost-replied;
  executed = complete_execution-IsExecuted ctx 140 approved verified 77 ready refl refl;
}

-- The owner had 1000, and 400 are left, less than the 600 that have moved already.
abbrev owner : Account
owner = record { account_id = 1; owner = 1; bank_name = 9; account_number = 51; balance = pos 1000 }

lost-facts :
    (get_transaction (ledger_key (internal_key 21)) town.transactions ≡ none)
    × (get_account_by_number 51 town.accounts ≡ some owner)
    × (pos 1000 <ℤ pos 600 +ℤ pos 600)
unfolding handle charge_card create_card create_account ◌+ℤ◌ ◌-ℤ◌
lost-facts = (refl, refl, omega arith)

execute_internal_transfer-lost_example :
    let result = execute_internal_transfer bank ctx request (clock 150) ready lost in
    (result.0 ≡ ok (ExecuteReply.correction_required uncovered))
    × (get_confirmation 21 result.1.confirmations
        ≡ some (record approved { status = ConfirmationStatus.invalidated }))
    × (result.2 ≡ lost)
    × (client_balance lost 1 ≡ BalanceReply.balance (pos 1000 -ℤ pos 600))
execute_internal_transfer-lost_example =
    execute_internal_transfer-lost engine draw ctx request (clock 140) (clock 150) ready
      (complete_execution ctx 140 approved verified 77 ready) town lost 77 lost_done owner
      town-IsBank.ledger lost-facts.0 lost-facts.1 refl lost-facts.2 (omega arith) (omega arith)

-- A smaller transfer that was lost is still covered afterwards.
abbrev small_approved : Confirmation
small_approved = record approved { fixed_data = FixedData.internal_data 11 12 (pos 200) }

abbrev small : Store
small = record ready { confirmations = small_approved ∷ [] }

small-loaded :
    load_for_execute ctx (some 21) ConfirmationOperation.internal_transfer 140 small
    ≡ ok small_approved
unfolding load_for_execute
small-loaded = refl

small-verified : load_verified ctx (some 31) small_approved 140 small ≡ ok (some verified)
unfolding load_verified
small-verified = refl

abbrev small_moving : LedgerRequest
small_moving = internal_request small_approved from_account to_account (pos 200)

abbrev small_lost : Db
small_lost = (client_transfer engine draw town small_moving).1

small-replied : client_transfer engine draw town small_moving ≡ (some 77, small_lost)
unfolding handle charge_card create_card create_account client_transfer transfer ◌+ℤ◌ ◌-ℤ◌
small-replied = refl

small-allowed :
    (from_account.id ≢ to_account.id)
    × (from_account.active ≡ true)
    × (to_account.active ≡ true)
    × IsWithin bank ctx (clock 140) from_account (pos 200) small town
unfolding handle charge_card create_card create_account ◌+ℤ◌ ◌-ℤ◌ read_balance client_balance
small-allowed = (
  λ e. omega arith,
  refl,
  refl,
  record {
    single = omega arith;
    available = pos 1000;
    read = refl;
    covered = omega arith;
    daily = omega arith;
  },
)

abbrev small_done :
    Executes bank ctx request
      (clock 140)
      small
      town
      77
      (complete_execution ctx 140 small_approved verified 77 small)
      small_lost
small_done = record {
  c = small_approved;
  a = verified;
  from = from_account;
  to = to_account;
  amount = pos 200;
  executable =
      (load_for_execute_iff ctx (some 21) ConfirmationOperation.internal_transfer 140 small
          small_approved).0
        small-loaded;
  authenticated =
      (load_verified_iff ctx (some 31) small_approved 140 small verified).0 small-verified;
  fixed = (11, 12, refl, refl, refl);
  allowed = small-allowed;
  moved = small-replied;
  executed = complete_execution-IsExecuted ctx 140 small_approved verified 77 small refl refl;
}

small-IsWithin : IsWithin bank ctx (clock 150) from_account (pos 200) small small_lost
unfolding handle charge_card create_card create_account client_transfer transfer read_balance
    client_balance ◌+ℤ◌ ◌-ℤ◌
small-IsWithin = record {
  single = omega arith;
  available = pos 800;
  read = refl;
  covered = omega arith;
  daily = omega arith;
}

execute_internal_transfer-retry_example :
    let result = execute_internal_transfer bank ctx request (clock 150) small small_lost in
    (result.0 ≡ ok (ExecuteReply.completed 77))
    × IsExecuted ctx 150 small_approved verified 77 small result.1
    × (result.2 ≡ small_lost)
execute_internal_transfer-retry_example =
    execute_internal_transfer-retry bank ctx request (clock 140) (clock 150) small
      (complete_execution ctx 140 small_approved verified 77 small) town small_lost 77 small_done
      (omega arith) (omega arith) small-IsWithin
