-- ===== src/Integration/Tests/Executions.antt =====
-- The theorems on internal transfers, applied.
use kdt_ai_2_hands_on_experi.Common.{
  ℕ, ◌≡◌, ◌≢◌, ◌↔◌, ◌⊎◌, refl, subst, true, false, none, some, arith,
}
use kdt_ai_2_hands_on_experi.Common.Int.{pos, ◌+ℤ◌}
use kdt_ai_2_hands_on_experi.Common.Texts.{Text}
use kdt_ai_2_hands_on_experi.Financial.Rows.{Db, Transaction}
use kdt_ai_2_hands_on_experi.Financial.Queries.{get_transaction}
use kdt_ai_2_hands_on_experi.Financial.Account.{create_account}
use kdt_ai_2_hands_on_experi.Financial.Transfer.Moves.{Moved}
use kdt_ai_2_hands_on_experi.Financial.Cards.{charge_card, create_card}
use kdt_ai_2_hands_on_experi.Financial.Bank.{handle}
use kdt_ai_2_hands_on_experi.Financial.Tests.Town.{engine, town, town-IsBank}
use kdt_ai_2_hands_on_experi.Gateway.Confirmation.{Component}
use kdt_ai_2_hands_on_experi.Gateway.Rows.{Store}
use kdt_ai_2_hands_on_experi.Gateway.Bank.{internal_key}
use kdt_ai_2_hands_on_experi.Gateway.Service.{Error, ok, err}
use kdt_ai_2_hands_on_experi.Gateway.Transfer.{evaluate_internal_transfer}
use kdt_ai_2_hands_on_experi.Gateway.Transfer.Limits.{IsWithin, evaluate_internal_transfer_iff}
use kdt_ai_2_hands_on_experi.Gateway.Transfer.Internal.{execute_internal_transfer, internal_request}
use kdt_ai_2_hands_on_experi.Gateway.Transfer.Internal.Execution.{
  Executes, execute_internal_transfer-Executes,
}
use kdt_ai_2_hands_on_experi.Gateway.Transfer.Internal.Once.{execute_internal_transfer-once}
use kdt_ai_2_hands_on_experi.Gateway.Transfer.Internal.Preparation.{
  Prepares, prepare_internal_transfer-Prepares,
}
use kdt_ai_2_hands_on_experi.Integration.{ledger_key, transfer_body}
use kdt_ai_2_hands_on_experi.Gateway.AuthContext.{password}
use kdt_ai_2_hands_on_experi.Gateway.Payments.{
  attempt_request, auth_request, decide_request, execute_internal_request, prepare_internal_request,
  serve,
}
use kdt_ai_2_hands_on_experi.Gateway.Payments.Paid.{IsPaid}
use kdt_ai_2_hands_on_experi.Gateway.Payments.Reachable.{Reachable, Reachable-IsPaid, start, step}
use kdt_ai_2_hands_on_experi.Integration.Money.{execute_internal_transfer-Moved}
use kdt_ai_2_hands_on_experi.Integration.Tests.Retries.{ready}
use kdt_ai_2_hands_on_experi.Integration.Tests.Office.{
  authenticated, bank, clock, ctx, draw, executed-completed, from_account, office, order, pending,
  prepared, prepared-ready, request, to_account,
}

abbrev executed : Store
executed = (execute_internal_transfer bank ctx request (clock 140) authenticated town).1

abbrev moved : Db
moved = (execute_internal_transfer bank ctx request (clock 140) authenticated town).2

prepare_internal_transfer-Prepares_example :
    Prepares bank ctx order (clock 100) office town pending prepared
prepare_internal_transfer-Prepares_example =
    prepare_internal_transfer-Prepares bank ctx order (clock 100) 21 office town pending false
      prepared-ready

evaluate_internal_transfer_iff_example :
    (evaluate_internal_transfer bank ctx (clock 140) from_account to_account (pos 600) ready town
      ≡ ok none)
    ↔ ((from_account.id ≢ to_account.id)
        × (true ≡ true)
        × (true ≡ true)
        × IsWithin bank ctx (clock 140) from_account (pos 600) ready town)
evaluate_internal_transfer_iff_example =
    evaluate_internal_transfer_iff bank ctx (clock 140) from_account to_account (pos 600) ready town

execute_internal_transfer-Executes_example :
    Executes bank ctx request (clock 140) authenticated town 77 executed moved
execute_internal_transfer-Executes_example =
    execute_internal_transfer-Executes bank ctx request (clock 140) authenticated town 77
      executed-completed

execute_internal_transfer-once_example :
    (e : Error) × ((e ≡ Error.confirmation_expired) ⊎ (e ≡ Error.confirmation_mismatch))
    × (execute_internal_transfer bank ctx request (clock 150) executed moved
        ≡ (err e, executed, moved))
execute_internal_transfer-once_example =
    execute_internal_transfer-once bank ctx request request (clock 140) (clock 150) authenticated
      town moved 77 executed-completed refl

town-fresh : get_transaction (ledger_key (internal_key 21)) town.transactions ≡ none
unfolding handle charge_card create_card create_account ◌+ℤ◌
town-fresh = refl

request-fresh :
    (k : ℕ)
    → request.confirmation_id ≡ some k
    → get_transaction (ledger_key (internal_key k)) town.transactions ≡ none
request-fresh k e =
    let same : 21 ≡ k = ground (arith, e) in
    subst (λ j. get_transaction (ledger_key (internal_key j)) town.transactions ≡ none) same
      town-fresh

execute_internal_transfer-Moved_example :
    (done : Executes bank ctx request (clock 140) authenticated town 77 executed moved)
    × (row : Transaction) × (row.transaction_id ≡ 77)
    × Moved (transfer_body (internal_request done.c done.from done.to done.amount)) town row moved
execute_internal_transfer-Moved_example =
    execute_internal_transfer-Moved engine draw ctx request (clock 140) authenticated town 77
      town-IsBank.ledger request-fresh executed-completed

-- The whole transfer as requests to the gateway.
-- The texts of the tests have no capitals.
abbrev lower : Text → Text
lower text = text

abbrev final : Store × Db
final = serve bank lower (execute_internal_request ctx request (clock 140)) (
    serve bank lower (attempt_request 1 (some 31) 130 (password true)) (
      serve bank lower (auth_request ctx (some 21) 120 31) (
        serve bank lower (decide_request Component.internal_transfer 1 (some 21) 110 true)
          (serve bank lower (prepare_internal_request ctx order (clock 100) 21) (office, town)))))

final-Reachable : Reachable bank lower final
final-Reachable = step (execute_internal_request ctx request (clock 140)) (
    step (attempt_request 1 (some 31) 130 (password true)) (
      step (auth_request ctx (some 21) 120 31) (
        step (decide_request Component.internal_transfer 1 (some 21) 110 true)
          (step (prepare_internal_request ctx order (clock 100) 21) (start office town refl)))))

Reachable-IsPaid_example : IsPaid bank final.1 final.0.confirmations
Reachable-IsPaid_example = Reachable-IsPaid final-Reachable
