-- ===== src/Gateway/Transfer.antt =====
-- services/agent_tools/transfer_service.py: the conditions of a transfer, and what its calls return.
pub mod Internal
pub mod External
pub mod ExternalExecution
pub mod Limits
pub mod Executed
pub mod Effects
use kdt_ai_2_hands_on_experi.Common.{
  ℕ, Bool, not, Option, none, some, List, [], ◌∷◌, ◌&&◌, ◌==◌, if◌then◌else◌,
}
use kdt_ai_2_hands_on_experi.Common.Int.{ℤ, ◌+ℤ◌, ltb_ℤ}
use kdt_ai_2_hands_on_experi.Gateway.Rows.{
  Account, AuditEvent, Confirmation, ConfirmationOperation, ExecutionContext, FinancialAuditLog,
  Store,
}
use kdt_ai_2_hands_on_experi.Gateway.Service.{
  Error, Result, ok, err, default_bank_name, transfer_fee_krw, max_single_transfer_krw,
  max_daily_transfer_krw,
}
use kdt_ai_2_hands_on_experi.Gateway.Confirmation.{executed_amount}
use kdt_ai_2_hands_on_experi.Gateway.Bank.{Bank, BalanceReply}

-- `TransferReason` and the targets of a correction view
pub data Reason : Type 0 where
  insufficient_balance limit_exceeded account_inactive recipient_not_verified same_account : Reason

pub data Target : Type 0 where
  from_target to_target recipient_target amount_target : Target

pub record Violation : Type 0 where
  pub reason : Reason
  pub targets : List Target

-- What a `prepare` and an `execute` reply with; `reauthentication_required` carries the reason
-- `auth_context_expired`.
pub data PrepareReply : Type 0 where
  correction_required : Violation → PrepareReply
  ready_for_confirmation : Confirmation → (new_recipient : Bool) → PrepareReply

pub data ExecuteReply : Type 0 where
  reauthentication_required : ExecuteReply
  correction_required : Violation → ExecuteReply
  completed : ℕ → ExecuteReply

-- The times that one request reads from the clock, in the order of the reads; `day_start` is the start
-- of the user's day in UTC.
pub record Clock : Type 0 where
  pub confirmation_at : ℕ
  pub auth_at : ℕ
  pub day_start : ℕ
  pub executed_at : ℕ

pub record TransferExecuteRequest : Type 0 where
  pub confirmation_id : Option ℕ
  pub auth_context_id : Option ℕ

-- `get_account_by_id`
abbrev pub get_account : ℕ → List Account → Option Account
get_account k [] = none
get_account k (a ∷ rest) = if k == a.id then some a else get_account k rest

-- `get_owned_account`
abbrev pub get_owned_account : ℕ → ℕ → List Account → Option Account
get_owned_account user k [] = none
get_owned_account user k (a ∷ rest) =
    if a.user_id == user && k == a.id then some a else get_owned_account user k rest

or_denied : Option Account → Result Account
or_denied none = err Error.account_access_denied
or_denied (some a) = ok a

-- `_load_owned`
unfoldable pub load_owned : ExecutionContext → Option ℕ → Store → Result Account
unfolding or_denied
load_owned ctx none s = err Error.invalid_request
load_owned ctx (some k) s = or_denied (get_owned_account ctx.user_id k s.accounts)

-- `resolve_owned_account_bank`
abbrev pub bank_name_of : Account → ℕ
bank_name_of a = elim a.bank_name [ none ↦ default_bank_name | some b ↦ b ]

-- `_daily_transferred_amount`
abbrev pub daily_amount : ExecutionContext → Clock → Store → ℤ
daily_amount ctx clock s = executed_amount ctx.user_id clock.day_start s.confirmations

abbrev violates : Reason → List Target → Result (Option Violation)
violates reason targets = ok (some (record { reason = reason; targets = targets }))

balance_result : BalanceReply → Result ℤ
balance_result (BalanceReply.balance b) = ok b
balance_result BalanceReply.missing = err Error.account_not_found
balance_result BalanceReply.unavailable = err Error.financial_service_unavailable

module _ (bank : Bank) where
  open bank use {State, get_balance}

  -- `read_available_balance`, through `read_balance`
  unfoldable pub read_balance : Account → State → Result ℤ
  unfolding balance_result
  read_balance a st = elim a.external_account_id [
    | none ↦ err Error.account_not_found
    | some k ↦ balance_result (get_balance st k)
  ]

  evaluate_amount : ExecutionContext → Clock → ℤ → Store → Result ℤ → Result (Option Violation)
  evaluate_amount ctx clock amount s (err e) = err e
  evaluate_amount ctx clock amount s (ok available) =
      if ltb_ℤ available (amount +ℤ transfer_fee_krw)
      then violates insufficient_balance (from_target ∷ amount_target ∷ [])
      else if ltb_ℤ max_daily_transfer_krw (daily_amount ctx clock s +ℤ amount)
      then violates limit_exceeded (amount_target ∷ [])
      else ok none

  -- The tail that `_evaluate_internal_transfer` and `_evaluate_withdrawal` share
  evaluate_limits :
      ExecutionContext → Clock → Account → ℤ → Store → State → Result (Option Violation)
  unfolding evaluate_amount read_balance
  evaluate_limits ctx clock from amount s st =
      if ltb_ℤ max_single_transfer_krw amount
      then violates limit_exceeded (amount_target ∷ [])
      else evaluate_amount ctx clock amount s (read_balance from st)

  -- `_evaluate_internal_transfer`
  unfoldable pub evaluate_internal_transfer :
      ExecutionContext → Clock → (from to : Account) → ℤ → Store → State → Result (Option Violation)
  unfolding evaluate_limits
  evaluate_internal_transfer ctx clock from to amount s st =
      if from.id == to.id
      then violates same_account (to_target ∷ [])
      else if not from.active
      then violates account_inactive (from_target ∷ [])
      else if not to.active
      then violates account_inactive (to_target ∷ [])
      else evaluate_limits ctx clock from amount s st

  -- `_evaluate_withdrawal`
  unfoldable pub evaluate_withdrawal :
      ExecutionContext → Clock → Account → ℤ → Store → State → Result (Option Violation)
  unfolding evaluate_limits
  evaluate_withdrawal ctx clock from amount s st =
      if not from.active
      then violates account_inactive (from_target ∷ [])
      else evaluate_limits ctx clock from amount s st
