-- ===== src/Gateway/Transfer/External/Preparation.antt =====
-- What a preparation of a transfer to another person does to the confirmations.
use kdt_ai_2_hands_on_experi.Common.{
  ℕ, ◌≡◌, refl, ap, Bool, true, false, Option, none, some, ◌∷◌, if_rule,
}
use kdt_ai_2_hands_on_experi.Gateway.Rows.{
  Account, Confirmation, ConfirmationOperation, ConfirmationStatus, ExecutionContext, FixedData,
  RecipientCandidate, Store,
}
use kdt_ai_2_hands_on_experi.Gateway.Service.{Result, ok, err}
use kdt_ai_2_hands_on_experi.Gateway.Confirmation.{create_pending}
use kdt_ai_2_hands_on_experi.Gateway.Bank.{Bank}
use kdt_ai_2_hands_on_experi.Gateway.Recipient.{mark_candidate_consumed}
use kdt_ai_2_hands_on_experi.Gateway.Transfer.{
  Clock, PrepareReply, Violation, evaluate_withdrawal, load_owned,
}
use kdt_ai_2_hands_on_experi.Gateway.Transfer.External.{
  ExternalTransferPrepareRequest, Recipient, claim, is_refused, prepare_claimed, prepare_evaluated,
  prepare_external_transfer, prepare_loaded, prepare_resolved, resolve_field,
}

claim-rows :
    (o : Option RecipientCandidate) (s : Store)
    → ((claim o s).1.confirmations ≡ s.confirmations) × ((claim o s).1.accounts ≡ s.accounts)
unfolding claim mark_candidate_consumed
claim-rows none s = (refl, refl)
claim-rows (some c) s = (refl, refl)

-- A property of every store with the same confirmations and accounts, and of every store with one
-- pending confirmation more, is a property after a preparation.
module _ (bank : Bank) (ctx : ExecutionContext) (req : ExternalTransferPrepareRequest)
    (clock : Clock) (id : ℕ) (s : Store) (st : bank.State) (Q : Store → Type 0)
    (same : (s' : Store) → s'.confirmations ≡ s.confirmations → s'.accounts ≡ s.accounts → Q s')
    (added : (c : Confirmation) (s' : Store)
      → c.status ≡ ConfirmationStatus.pending
      → s'.confirmations ≡ c ∷ s.confirmations
      → s'.accounts ≡ s.accounts
      → Q s') where
  prepare_claimed-cases :
      (from : Account) (to : Recipient) (claimed : Bool × Store)
      → (claimed.1.confirmations ≡ s.confirmations) × (claimed.1.accounts ≡ s.accounts)
      → Q (prepare_claimed ctx req clock.executed_at id from to claimed).1
  unfolding prepare_claimed create_pending
  prepare_claimed-cases from to (false, s') kept = same s' kept.0 kept.1
  prepare_claimed-cases from to (true, s') kept =
      let c =
        (create_pending ctx ConfirmationOperation.external_transfer
          (FixedData.external_data from.id to.account.id to.name req.amount) clock.executed_at id
          s').0 in
      added c _ refl (ap (λ cs. c ∷ cs) kept.0) kept.1

  prepare_evaluated-cases :
      (from : Account) (to : Recipient) (o : Result (Option Violation))
      → Q (prepare_evaluated ctx req clock.executed_at id from to s o).1
  unfolding prepare_evaluated
  prepare_evaluated-cases from to (err e) = same s refl refl
  prepare_evaluated-cases from to (ok (some v)) = same s refl refl
  prepare_evaluated-cases from to (ok none) =
      prepare_claimed-cases from to (claim to.candidate s) (claim-rows to.candidate s)

  prepare_resolved-cases :
      (from : Account) (to : Result Recipient)
      → Q (prepare_resolved bank ctx req clock id from s st to).1
  unfolding prepare_resolved
  prepare_resolved-cases from (err e) = same s refl refl
  prepare_resolved-cases from (ok to) =
      if_rule (λ (r : Result PrepareReply × Store). Q r.1) (is_refused ctx to.account) _ _
        (λ _. same s refl refl)
        (λ _.
          prepare_evaluated-cases from to (evaluate_withdrawal bank ctx clock from req.amount s st))

  prepare_loaded-cases :
      (from : Result Account) → Q (prepare_loaded bank ctx req clock id s st from).1
  unfolding prepare_loaded
  prepare_loaded-cases (err e) = same s refl refl
  prepare_loaded-cases (ok from) =
      prepare_resolved-cases from (resolve_field ctx req.recipient clock.confirmation_at s)

  pub prepare_external_transfer-cases : Q (prepare_external_transfer bank ctx req clock id s st).1
  unfolding prepare_external_transfer
  prepare_external_transfer-cases = prepare_loaded-cases (load_owned ctx req.from_account_id s)
