-- ===== src/Gateway/Transfer/External.antt =====
-- services/agent_tools/transfer_service.py: `prepare_external_transfer` and
-- `execute_external_transfer`.
pub mod Preparation
use kdt_ai_2_hands_on_experi.Common.{
  ℕ, Bool, true, false, not, Option, none, some, [], ◌∷◌, List, ◌||◌, ◌==◌, if◌then◌else◌,
}
use kdt_ai_2_hands_on_experi.Common.Int.{ℤ}
use kdt_ai_2_hands_on_experi.Gateway.Rows.{
  Account, Confirmation, ConfirmationOperation, ExecutionContext, FixedData, RecipientCandidate,
  Store,
}
use kdt_ai_2_hands_on_experi.Gateway.Service.{Error, Result, ok, err}
use kdt_ai_2_hands_on_experi.Gateway.Confirmation.{create_pending}
use kdt_ai_2_hands_on_experi.Gateway.AuthContext.{record_audit}
use kdt_ai_2_hands_on_experi.Gateway.Bank.{Bank, LedgerRequest, external_key}
use kdt_ai_2_hands_on_experi.Gateway.Recipient.{
  mark_candidate_consumed, resolve_existing_recipient, resolve_candidate_recipient,
}
use kdt_ai_2_hands_on_experi.Gateway.Transfer.{
  Clock, PrepareReply, Violation, bank_name_of, evaluate_withdrawal, load_owned,
  recipient_not_verified, recipient_target,
}
use kdt_ai_2_hands_on_experi.Gateway.Transfer.Internal.{created_log}

-- The schema admits exactly one of the two recipient fields; an id is what `UUID(raw)` gave.
pub data RecipientField : Type 0 where
  to_recipient_id to_recipient_candidate_id : Option ℕ → RecipientField

pub record ExternalTransferPrepareRequest : Type 0 where
  pub from_account_id : Option ℕ
  pub recipient : RecipientField
  pub amount : ℤ

-- The recipient, and the candidate row if it came from one.
pub record Recipient : Type 0 where
  pub account : Account
  pub name : List ℕ
  pub candidate : Option RecipientCandidate

existing_recipient : Result (Account × List ℕ) → Result Recipient
existing_recipient (err e) = err e
existing_recipient (ok (a, name)) = ok (record { account = a; name = name; candidate = none })

new_recipient : Result (Account × List ℕ × RecipientCandidate) → Result Recipient
new_recipient (err e) = err e
new_recipient (ok (a, name, c)) = ok (record { account = a; name = name; candidate = some c })

unfoldable pub resolve_field : ExecutionContext → RecipientField → ℕ → Store → Result Recipient
unfolding existing_recipient new_recipient
resolve_field ctx (to_recipient_id k) now s =
    existing_recipient (resolve_existing_recipient ctx k s)
resolve_field ctx (to_recipient_candidate_id k) now s =
    new_recipient (resolve_candidate_recipient ctx k now s)

abbrev pub recipient_correction : Violation
recipient_correction = record { reason = recipient_not_verified; targets = recipient_target ∷ [] }

-- The recipient is inactive or belongs to the user.
abbrev pub is_refused : ExecutionContext → Account → Bool
is_refused ctx a = not a.active || a.user_id == ctx.user_id

-- The arguments of `_move_ledger`
abbrev pub external_request : Confirmation → (from to : Account) → ℤ → LedgerRequest
external_request c from to amount = record {
  sender_account_number = from.account_number;
  receiver_bank_name = bank_name_of to;
  receiver_account_number = to.account_number;
  amount = amount;
  idempotency_key = external_key c.id;
}

-- A candidate is claimed before the confirmation is made; a lost claim raises.
claim : Option RecipientCandidate → Store → Bool × Store
unfolding mark_candidate_consumed
claim none s = (true, s)
claim (some c) s = mark_candidate_consumed c s

abbrev is_new : Option RecipientCandidate → Bool
is_new none = false
is_new (some c) = true

prepare_claimed :
    ExecutionContext
    → ExternalTransferPrepareRequest
    → ℕ
    → ℕ
    → Account
    → Recipient
    → Bool × Store
    → Result PrepareReply × Store
unfolding create_pending
prepare_claimed ctx req now id from to (false, s) = (err Error.recipient_candidate_expired, s)
prepare_claimed ctx req now id from to (true, s) =
    let (c, s') =
      create_pending ctx ConfirmationOperation.external_transfer
        (FixedData.external_data from.id to.account.id to.name req.amount) now id s in
    (
      ok (PrepareReply.ready_for_confirmation c (is_new to.candidate)),
      record_audit (created_log ctx c) s',
    )

prepare_evaluated :
    ExecutionContext
    → ExternalTransferPrepareRequest
    → ℕ
    → ℕ
    → Account
    → Recipient
    → Store
    → Result (Option Violation)
    → Result PrepareReply × Store
unfolding prepare_claimed claim
prepare_evaluated ctx req now id from to s (err e) = (err e, s)
prepare_evaluated ctx req now id from to s (ok (some v)) =
    (ok (PrepareReply.correction_required v), s)
prepare_evaluated ctx req now id from to s (ok none) =
    prepare_claimed ctx req now id from to (claim to.candidate s)

module _ (bank : Bank) where
  open bank use {State, transfer}

  prepare_resolved :
      ExecutionContext
      → ExternalTransferPrepareRequest
      → Clock
      → ℕ
      → Account
      → Store
      → State
      → Result Recipient
      → Result PrepareReply × Store
  unfolding prepare_evaluated evaluate_withdrawal
  prepare_resolved ctx req clock id from s st (err e) = (err e, s)
  prepare_resolved ctx req clock id from s st (ok to) =
      if is_refused ctx to.account
      then (ok (PrepareReply.correction_required recipient_correction), s)
      else prepare_evaluated ctx req clock.executed_at id from to s
          (evaluate_withdrawal bank ctx clock from req.amount s st)

  prepare_loaded :
      ExecutionContext
      → ExternalTransferPrepareRequest
      → Clock
      → ℕ
      → Store
      → State
      → Result Account
      → Result PrepareReply × Store
  unfolding prepare_resolved resolve_field
  prepare_loaded ctx req clock id s st (err e) = (err e, s)
  prepare_loaded ctx req clock id s st (ok from) =
      prepare_resolved ctx req clock id from s st
        (resolve_field ctx req.recipient clock.confirmation_at s)

  -- `id` is the id that the database draws for the confirmation.
  unfoldable pub prepare_external_transfer :
      ExecutionContext
      → ExternalTransferPrepareRequest
      → Clock
      → ℕ
      → Store
      → State
      → Result PrepareReply × Store
  unfolding prepare_loaded load_owned
  prepare_external_transfer ctx req clock id s st =
      prepare_loaded ctx req clock id s st (load_owned ctx req.from_account_id s)
