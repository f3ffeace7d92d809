-- ===== src/Gateway/Transfer/Internal/Preparation.antt =====
-- What a prepared internal transfer fixes for its confirmation.
use kdt_ai_2_hands_on_experi.Common.{
  ℕ, ◌+◌, ◌≡◌, ◌≢◌, refl, true, Bool, Option, none, some, ◌∷◌, arith,
}
use kdt_ai_2_hands_on_experi.Gateway.Rows.{
  Account, Confirmation, ConfirmationStatus, ExecutionContext, FixedData, Store,
}
use kdt_ai_2_hands_on_experi.Gateway.Service.{Result, ok, err}
use kdt_ai_2_hands_on_experi.Gateway.Confirmation.{create_pending}
use kdt_ai_2_hands_on_experi.Gateway.Bank.{Bank}
use kdt_ai_2_hands_on_experi.Gateway.Transfer.{
  Clock, PrepareReply, Violation, evaluate_internal_transfer, load_owned,
}
use kdt_ai_2_hands_on_experi.Gateway.Transfer.Limits.{IsWithin, evaluate_internal_transfer_iff}
use kdt_ai_2_hands_on_experi.Gateway.Transfer.Internal.{
  InternalTransferPrepareRequest, created_log, prepare_evaluated, prepare_internal_transfer,
  prepare_loaded,
}

-- The confirmation `c` that a preparation hands out, and the store `s'` after it.
pub record Prepares (bank : Bank) (ctx : ExecutionContext) (req : InternalTransferPrepareRequest)
    (clock : Clock) (s : Store) (st : bank.State) (c : Confirmation) (s' : Store) : Type 0 where
  pub from : Account
  pub to : Account
  pub owned_from : load_owned ctx req.from_account_id s ≡ ok from
  pub owned_to : load_owned ctx req.to_account_id s ≡ ok to
  pub allowed :
      (from.id ≢ to.id)
      × (from.active ≡ true)
      × (to.active ≡ true)
      × IsWithin bank ctx clock from req.amount s st
  pub owner : c.user_id ≡ ctx.user_id
  pub status : c.status ≡ ConfirmationStatus.pending
  pub fixed : c.fixed_data ≡ FixedData.internal_data from.id to.id req.amount
  pub expiry : c.expires_at ≡ clock.confirmation_at + 300
  pub stored : s'.confirmations ≡ c ∷ s.confirmations
  pub audited : s'.audit_logs ≡ created_log ctx c ∷ s.audit_logs

module _ (bank : Bank) (ctx : ExecutionContext) (req : InternalTransferPrepareRequest)
    (clock : Clock) (id : ℕ) (s : Store) (st : bank.State) (c : Confirmation) (new : Bool) where
  prepare_evaluated-Prepares :
      (from to : Account) (o : Result (Option Violation))
      → load_owned ctx req.from_account_id s ≡ ok from
      → load_owned ctx req.to_account_id s ≡ ok to
      → evaluate_internal_transfer bank ctx clock from to req.amount s st ≡ o
      → (prepare_evaluated bank ctx req clock.confirmation_at id from to s o).0
        ≡ ok (PrepareReply.ready_for_confirmation c new)
      → Prepares bank ctx req clock s st c
          (prepare_evaluated bank ctx req clock.confirmation_at id from to s o).1
  unfolding prepare_evaluated create_pending
  prepare_evaluated-Prepares from to (err e) owned_from owned_to found h = cc
  prepare_evaluated-Prepares from to (ok (some v)) owned_from owned_to found h = cc
  prepare_evaluated-Prepares from to (ok none) owned_from owned_to found h = record {
    from = from;
    to = to;
    owned_from = owned_from;
    owned_to = owned_to;
    allowed = (evaluate_internal_transfer_iff bank ctx clock from to req.amount s st).0 found;
    owner = ground (arith, h);
    status = ground (arith, h);
    fixed = ground (arith, h);
    expiry = ground (arith, h);
    stored = ground (arith, h);
    audited = ground (arith, h);
  }

  prepare_loaded-Prepares :
      (from to : Result Account)
      → load_owned ctx req.from_account_id s ≡ from
      → load_owned ctx req.to_account_id s ≡ to
      → (prepare_loaded bank ctx req clock id s st from to).0
        ≡ ok (PrepareReply.ready_for_confirmation c new)
      → Prepares bank ctx req clock s st c (prepare_loaded bank ctx req clock id s st from to).1
  unfolding prepare_loaded
  prepare_loaded-Prepares (err e) to owned_from owned_to h = cc
  prepare_loaded-Prepares (ok from) (err e) owned_from owned_to h = cc
  prepare_loaded-Prepares (ok from) (ok to) owned_from owned_to h =
      prepare_evaluated-Prepares from to
        (evaluate_internal_transfer bank ctx clock from to req.amount s st) owned_from owned_to refl
        h

-- A confirmation that a preparation hands out is the user's, pending, alive for 300 seconds and stored;
-- it fixes the two accounts and the amount of the request, the accounts are the user's and different,
-- both are active, and the limits hold at the balance that the bank reports.
pub prepare_internal_transfer-Prepares :
    (bank : Bank) (ctx : ExecutionContext) (req : InternalTransferPrepareRequest) (clock : Clock)
    (id : ℕ) (s : Store) (st : bank.State) (c : Confirmation) (new : Bool)
    → (prepare_internal_transfer bank ctx req clock id s st).0
      ≡ ok (PrepareReply.ready_for_confirmation c new)
    → Prepares bank ctx req clock s st c (prepare_internal_transfer bank ctx req clock id s st).1
unfolding prepare_internal_transfer
prepare_internal_transfer-Prepares bank ctx req clock id s st c new h =
    prepare_loaded-Prepares bank ctx req clock id s st c new (load_owned ctx req.from_account_id s)
      (load_owned ctx req.to_account_id s) refl refl h

-- A property of every store with the same confirmations and accounts, and of every store with one
-- pending confirmation more, is a property after a preparation.
module _ (bank : Bank) (ctx : ExecutionContext) (req : InternalTransferPrepareRequest)
    (clock : Clock) (id : ℕ) (s : Store) (st : bank.State) (Q : Store → Type 0)
    (same : (s' : Store) → s'.confirmations ≡ s.confirmations → s'.accounts ≡ s.accounts → Q s')
    (added : (c : Confirmation) (s' : Store)
      → c.status ≡ ConfirmationStatus.pending
      → s'.confirmations ≡ c ∷ s.confirmations
      → s'.accounts ≡ s.accounts
      → Q s') where
  prepare_evaluated-cases :
      (from to : Account) (o : Result (Option Violation))
      → Q (prepare_evaluated bank ctx req clock.confirmation_at id from to s o).1
  unfolding prepare_evaluated create_pending
  prepare_evaluated-cases from to (err e) = same s refl refl
  prepare_evaluated-cases from to (ok (some v)) = same s refl refl
  prepare_evaluated-cases from to (ok none) = added _ _ refl refl refl

  prepare_loaded-cases :
      (from to : Result Account) → Q (prepare_loaded bank ctx req clock id s st from to).1
  unfolding prepare_loaded
  prepare_loaded-cases (err e) to = same s refl refl
  prepare_loaded-cases (ok from) (err e) = same s refl refl
  prepare_loaded-cases (ok from) (ok to) =
      prepare_evaluated-cases from to
        (evaluate_internal_transfer bank ctx clock from to req.amount s st)

  pub prepare_internal_transfer-cases : Q (prepare_internal_transfer bank ctx req clock id s st).1
  unfolding prepare_internal_transfer
  prepare_internal_transfer-cases =
      prepare_loaded-cases (load_owned ctx req.from_account_id s)
        (load_owned ctx req.to_account_id s)
