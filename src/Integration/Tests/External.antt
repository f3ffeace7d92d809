-- ===== src/Integration/Tests/External.antt =====
-- A transfer to another person, and the theorem applied to it.
use kdt_ai_2_hands_on_experi.Common.{◌≡◌, refl, [], ◌∷◌}
use kdt_ai_2_hands_on_experi.Common.Int.{pos, ◌+ℤ◌, ◌-ℤ◌}
use kdt_ai_2_hands_on_experi.Financial.Account.{create_account}
use kdt_ai_2_hands_on_experi.Financial.Transfer.{transfer}
use kdt_ai_2_hands_on_experi.Financial.Cards.{charge_card, create_card}
use kdt_ai_2_hands_on_experi.Financial.Bank.{handle}
use kdt_ai_2_hands_on_experi.Financial.Tests.Town.{town}
use kdt_ai_2_hands_on_experi.Gateway.Rows.{
  Account, Confirmation, ConfirmationOperation, FixedData, Store,
}
use kdt_ai_2_hands_on_experi.Gateway.Service.{ok}
use kdt_ai_2_hands_on_experi.Gateway.Transfer.{ExecuteReply}
use kdt_ai_2_hands_on_experi.Gateway.Transfer.ExternalExecution.{execute_external_transfer}
use kdt_ai_2_hands_on_experi.Gateway.Transfer.ExternalExecution.Execution.{
  Executes, execute_external_transfer-Executes,
}
use kdt_ai_2_hands_on_experi.Integration.{client_balance, client_transfer}
use kdt_ai_2_hands_on_experi.Integration.Tests.Office.{
  approved, bank, clock, ctx, from_account, office, request, to_account, verified,
}

abbrev friend : Account
friend = record to_account { id = 13; user_id = 2 }

abbrev to_friend : Confirmation
to_friend = record approved {
  operation = ConfirmationOperation.external_transfer;
  fixed_data = FixedData.external_data 11 13 (75 ∷ 105 ∷ []) (pos 250);
}

abbrev ready : Store
ready = record office {
  accounts = friend ∷ from_account ∷ [];
  confirmations = to_friend ∷ [];
  auth_contexts = verified ∷ [];
}

external-completed :
    (execute_external_transfer bank ctx request (clock 140) ready town).0
    ≡ ok (ExecuteReply.completed 77)
unfolding handle charge_card create_card create_account client_transfer client_balance transfer ◌+ℤ◌
    ◌-ℤ◌ execute_external_transfer
external-completed = refl

execute_external_transfer-Executes_example :
    let result = execute_external_transfer bank ctx request (clock 140) ready town in
    Executes bank ctx request (clock 140) ready town 77 result.1 result.2
execute_external_transfer-Executes_example =
    execute_external_transfer-Executes bank ctx request (clock 140) ready town 77 external-completed
