-- ===== src/Agent/InternalTransfer/Routes.antt =====
-- internal_transfer.py: the keys of the conditional edges.
pub mod Accounts
pub mod Decisions
pub mod Nodes
use kdt_ai_2_hands_on_experi.Common.{
  ℕ, ◌≡◌, refl, Bool, true, false, Option, none, some, List, [], ◌∷◌, arith,
}
use kdt_ai_2_hands_on_experi.Agent.Values
use kdt_ai_2_hands_on_experi.Agent.Values.{
  ToolReply, Update, Value, Word, text, integer, null, failed_with, replied, resolved,
  selection_required, no_accounts, selected, cancelled, submitted, ready_for_confirmation,
  correction_required, blocked, approved, change_requested, from_account, to_account, amount,
  authentication_required, verified, failed, expired, retry, completed, reauthentication_required,
}
use kdt_ai_2_hands_on_experi.Agent.InternalTransfer.{AccountRow, TransferData}
use kdt_ai_2_hands_on_experi.Agent.InternalTransfer.Accounts.{
  AccountsResult, default_account, from_default, from_outcome, from_resolved, from_selected,
  from_selection, request_from_account_selection, request_to_account_selection,
  resolve_internal_from_account, resolve_internal_to_account, to_outcome, to_resolved, to_selected,
}
use kdt_ai_2_hands_on_experi.Agent.InternalTransfer.Amount.{
  PrepareResult, amount_entered, check_integer, check_internal_transfer_amount, check_value,
  prepare_internal_transfer, prepare_outcome, request_internal_transfer_amount,
}
use kdt_ai_2_hands_on_experi.Agent.InternalTransfer.Approval.{
  approval_given, change_to, correct_target, correction_chosen, request_internal_transfer_approval,
  request_internal_transfer_correction, route_internal_transfer_correction,
}
use kdt_ai_2_hands_on_experi.Agent.InternalTransfer.Authentication.{
  AuthResult, ExecuteResult, auth_outcome, authentication_done, create_internal_auth_context,
  execute_internal_transfer, execute_outcome, request_internal_auth_retry,
  request_internal_authentication, retry_chosen,
}
use kdt_ai_2_hands_on_experi.Agent.InternalTransfer.Graph.{
  Inputs, Next, Node, edge, run_node, to, finish, missing, extract_slots, resolve_from,
  request_from, emit_from_empty, resolve_to, request_to, emit_to_empty, check_amount,
  request_amount, start_prepare, prepare, request_approval, reset_from, reset_to, reset_amount,
  route_correction, request_correction, start_auth, create_auth, request_auth, request_retry,
  execute, emit_result, emit_blocked, emit_error,
}

-- The edge has the key.
abbrev pub has_edge : Next → Bool
has_edge missing = false
has_edge (to n) = true
has_edge finish = true

abbrev pub Leads : Node → Update TransferData → Type 0
Leads n u = has_edge (edge n u.route_key) ≡ true
