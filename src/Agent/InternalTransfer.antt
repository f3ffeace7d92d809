-- ===== src/Agent/InternalTransfer.antt =====
-- agent/src/agent/workflows/internal_transfer.py: the workflow of a transfer between the user's own
-- accounts, as a state machine over its steps.
pub mod Accounts
pub mod Amount
pub mod Approval
pub mod Authentication
pub mod Graph
pub mod Routes
pub mod Approved
pub mod Amounts
pub mod Cancelled
pub mod Waits
mod Tests
use kdt_ai_2_hands_on_experi.Common.{ℕ, Bool, true, false, Option, none, some, List, [], ◌∷◌}
use kdt_ai_2_hands_on_experi.Agent.Values.{
  Update, Value, Word, amount, error, from_account, goes, null, safe_message, text, to_account,
}

pub record AccountRow : Type 0 where
  pub account_id : Value
  pub is_default : Bool

-- The workflow's data; a missing key is `null`. A correction view is its list of allowed targets.
pub record TransferData : Type 0 where
  pub from_account_hint : Value
  pub to_account_hint : Value
  pub transfer_amount : Value
  pub force_account_selection : Bool
  pub account_resolution_outcome : Value
  pub accounts : List AccountRow
  pub from_account_id : Value
  pub to_account_id : Value
  pub account_selection_outcome : Value
  pub input_request_id : Value
  pub amount_input_outcome : Value
  pub prepare_attempt : ℕ
  pub confirmation_id : Value
  pub confirmation_view : Value
  pub approval_outcome : Value
  pub change_target : Value
  pub correction_view : Option (List Value)
  pub correction_selection_outcome : Value
  pub blocked_view : Value
  pub auth_context_id : Value
  pub auth_request_view : Value
  pub auth_status : Value
  pub auth_retry_outcome : Value
  pub auth_attempt : ℕ
  pub transaction_id : Value
  pub completed_at : Value
  pub safe_error_message : Option ℕ

-- The data of a new thread.
abbrev pub new_data : TransferData
new_data = record {
  from_account_hint = null;
  to_account_hint = null;
  transfer_amount = null;
  force_account_selection = false;
  account_resolution_outcome = null;
  accounts = [];
  from_account_id = null;
  to_account_id = null;
  account_selection_outcome = null;
  input_request_id = null;
  amount_input_outcome = null;
  prepare_attempt = 0;
  confirmation_id = null;
  confirmation_view = null;
  approval_outcome = null;
  change_target = null;
  correction_view = none;
  correction_selection_outcome = null;
  blocked_view = null;
  auth_context_id = null;
  auth_request_view = null;
  auth_status = null;
  auth_retry_outcome = null;
  auth_attempt = 0;
  transaction_id = null;
  completed_at = null;
  safe_error_message = none;
}

-- `_tool_error_update`: nothing but the message is written.
abbrev pub fails : Option ℕ → TransferData → Update TransferData
fails m d = goes error (record d { safe_error_message = some (safe_message m) })

-- `target in _RESET_STEP_BY_TARGET`
abbrev pub is_target : Value → Bool
is_target (text from_account) = true
is_target (text to_account) = true
is_target (text amount) = true
is_target _ = false
