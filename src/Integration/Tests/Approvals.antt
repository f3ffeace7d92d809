-- ===== src/Integration/Tests/Approvals.antt =====
-- The theorems on confirmations, authentications, recipients and keys, applied.
use kdt_ai_2_hands_on_experi.Common.{ℕ, suc, ◌≡◌, ◌↔◌, refl, true, none, some, [], ◌∷◌, List, arith}
use kdt_ai_2_hands_on_experi.Common.Int.{pos}
use kdt_ai_2_hands_on_experi.Gateway.Rows.{
  Account, AuthContext, AuthContextStatus, CandidateStatus, Confirmation, ConfirmationOperation,
  ConfirmationStatus, FixedData, RecipientCandidate, Store,
}
use kdt_ai_2_hands_on_experi.Gateway.Service.{Error, Result, ok, err}
use kdt_ai_2_hands_on_experi.Gateway.Idempotency.{IdempotencyKey, run_idempotent}
use kdt_ai_2_hands_on_experi.Gateway.Idempotency.Laws.{run_idempotent-replay, run_idempotent-stuck}
use kdt_ai_2_hands_on_experi.Gateway.Confirmation.{Decision, decide, load_for_execute}
use kdt_ai_2_hands_on_experi.Gateway.Confirmation.Laws.{IsExecutable, load_for_execute_iff}
use kdt_ai_2_hands_on_experi.Gateway.Confirmation.Decisions.{Decides, decide-Decides}
use kdt_ai_2_hands_on_experi.Gateway.AuthContext.{password}
use kdt_ai_2_hands_on_experi.Gateway.AuthContext.Attempts.{Attempts, authenticate-Attempts}
use kdt_ai_2_hands_on_experi.Gateway.Recipient.{resolve_existing_recipient}
use kdt_ai_2_hands_on_experi.Gateway.Recipient.Laws.{
  Any, PaidBefore, resolve_existing_recipient-PaidBefore,
}
use kdt_ai_2_hands_on_experi.Gateway.Transfer.{get_account}
use kdt_ai_2_hands_on_experi.Integration.Tests.Office.{
  ctx, office, pending, approved, prepared, decided, requested, authenticated, decided-applied,
  authenticated-replied,
}

load_for_execute_iff_example :
    (load_for_execute ctx (some 21) ConfirmationOperation.internal_transfer 140 authenticated
      ≡ ok approved)
    ↔ IsExecutable ctx (some 21) ConfirmationOperation.internal_transfer 140 authenticated approved
load_for_execute_iff_example =
    load_for_execute_iff ctx (some 21) ConfirmationOperation.internal_transfer 140 authenticated
      approved

decide-Decides_example : (c : Confirmation) × Decides 1 21 110 true prepared decided c
decide-Decides_example = decide-Decides 1 21 110 true prepared decided-applied

-- Another user's decision is refused.
abbrev waiting : Store
waiting = record office { confirmations = pending ∷ [] }

foreign-not_found : (decide 2 (some 21) 110 true waiting).0 ≡ Decision.not_found
unfolding decide
foreign-not_found = refl

authenticate-Attempts_example :
    (a : AuthContext) × Attempts 1 31 130 (password true) requested authenticated a
authenticate-Attempts_example =
    authenticate-Attempts 1 31 130 (password true) requested AuthContextStatus.verified
      authenticated-replied

abbrev candidate : RecipientCandidate
candidate = record {
  id = 41;
  user_id = 1;
  recipient_account_id = 13;
  resolved_name = 75 ∷ 105 ∷ [];
  status = CandidateStatus.verified;
  expires_at = 700;
}

abbrev friend : Account
friend = record {
  id = 13;
  user_id = 2;
  account_number = 53;
  active = true;
  bank_name = some 9;
  external_account_id = some 3;
  is_default = true;
  alias = none;
}

abbrev paid : Confirmation
paid = record pending {
  operation = ConfirmationOperation.external_transfer;
  status = ConfirmationStatus.executed;
  fixed_data = FixedData.external_data 11 13 (75 ∷ 105 ∷ []) (pos 40);
  executed_at = some 90;
}

abbrev known : Store
known = record office { accounts = friend ∷ office.accounts; confirmations = paid ∷ [] }

friend-resolved : resolve_existing_recipient ctx (some 13) known ≡ ok (friend, 75 ∷ 105 ∷ [])
unfolding resolve_existing_recipient
friend-resolved = refl

resolve_existing_recipient-PaidBefore_example :
    (get_account 13 known.accounts ≡ some friend)
    × Any (PaidBefore 1 13 (75 ∷ 105 ∷ [])) known.confirmations
resolve_existing_recipient-PaidBefore_example =
    resolve_existing_recipient-PaidBefore ctx 13 known friend (75 ∷ 105 ∷ []) friend-resolved

-- A handler that counts its runs, and one whose ledger is away.
abbrev counting : ℕ → Result ℕ × ℕ
counting n = (ok 5, suc n)

abbrev failing : ℕ → Result ℕ × ℕ
failing n = (err Error.backend_temporary_error, n)

abbrev no_rows : List (IdempotencyKey ℕ)
no_rows = []

first-ok : (run_idempotent 0 3 1 (some 6) 1234 201 100 counting no_rows 0).0 ≡ ok (201, 5)
unfolding run_idempotent
first-ok = refl

run_idempotent-replay_example :
    let rows = (run_idempotent 0 3 1 (some 6) 1234 201 100 counting no_rows 0).1 in
    run_idempotent 0 3 1 (some 6) 1234 200 160 counting rows 1 ≡ (ok (201, 5), rows, 1)
run_idempotent-replay_example =
    run_idempotent-replay 0 3 1 6 1234 201 200 100 160 counting counting no_rows 0 1 201 5
      (omega arith) first-ok

run_idempotent-stuck_example :
    let result = run_idempotent 0 3 1 (some 6) 1234 200 100 failing no_rows 0 in
    (result.0 ≡ err Error.backend_temporary_error)
    × (run_idempotent 0 3 1 (some 6) 1234 200 999_999 counting result.1 0
        ≡ (err Error.idempotency_request_in_progress, result.1, 0))
run_idempotent-stuck_example =
    run_idempotent-stuck 0 3 1 6 1234 200 200 100 999_999 failing counting no_rows 0 0
      Error.backend_temporary_error refl refl
