-- ===== src/Agent/InternalTransfer/Graph.antt =====
-- internal_transfer.py: the nodes and edges of the graph, and its steps.
use kdt_ai_2_hands_on_experi.Common.{ℕ}
use kdt_ai_2_hands_on_experi.Agent.Values.{
  Status, ToolReply, Update, Value, Word, amount, approved, authentication_required, blocked,
  cancelled, cancelled_return, change_requested, completed, completed_status, correction_required,
  ends, error, from_account, invalid, joined, limit_exceeded, no_accounts, ready_for_confirmation,
  reauthentication_required, resolved, retriable, retry, selected, selection_required, submitted,
  to_account, valid, verified, workflow_failed, blocked_status,
}
use kdt_ai_2_hands_on_experi.Agent.InternalTransfer.{TransferData}
use kdt_ai_2_hands_on_experi.Agent.InternalTransfer.Accounts.{
  AccountsResult, SelectionResume, Slots, extract_internal_transfer_slots,
  request_from_account_selection, request_to_account_selection, resolve_internal_from_account,
  resolve_internal_to_account,
}
use kdt_ai_2_hands_on_experi.Agent.InternalTransfer.Amount.{
  AmountResume, PrepareResult, check_internal_transfer_amount, prepare_internal_transfer,
  request_internal_transfer_amount, start_internal_transfer_prepare,
}
use kdt_ai_2_hands_on_experi.Agent.InternalTransfer.Approval.{
  ApprovalResume, CorrectionResume, request_internal_transfer_approval,
  request_internal_transfer_correction, reset_internal_from_account, reset_internal_to_account,
  reset_internal_transfer_amount, route_internal_transfer_correction,
}
use kdt_ai_2_hands_on_experi.Agent.InternalTransfer.Authentication.{
  AuthResult, ExecuteResult, create_internal_auth_context, execute_internal_transfer,
  request_internal_auth_retry, request_internal_authentication, start_internal_auth,
}

pub data Node : Type 0 where
  extract_slots resolve_from request_from emit_from_empty : Node
  resolve_to request_to emit_to_empty : Node
  check_amount request_amount start_prepare prepare request_approval : Node
  reset_from reset_to reset_amount route_correction request_correction : Node
  start_auth create_auth request_auth request_retry execute : Node
  emit_result emit_blocked emit_error : Node

-- All that a step can get from outside: what the model read, replies of tools and resumptions.
pub record Inputs : Type 0 where
  pub slots : Slots
  pub accounts_reply : ToolReply AccountsResult
  pub input_request : ℕ
  pub selection : SelectionResume
  pub amount_entry : AmountResume
  pub prepare_reply : ToolReply PrepareResult
  pub approval : ApprovalResume
  pub correction : CorrectionResume
  pub auth_reply : ToolReply AuthResult
  pub auth_status : Value
  pub auth_retry_outcome : Value
  pub execute_reply : ToolReply ExecuteResult

-- `terminal_update`, after the event of the step is published.
abbrev pub terminal : Status → TransferData → Update TransferData
terminal status d = ends status completed d

unfoldable pub run_node : Node → Inputs → TransferData → Update TransferData
run_node extract_slots i d = extract_internal_transfer_slots i.slots d
run_node resolve_from i d = resolve_internal_from_account i.accounts_reply i.input_request d
run_node request_from i d = request_from_account_selection i.selection d
run_node emit_from_empty i d = terminal completed_status d
run_node resolve_to i d = resolve_internal_to_account i.accounts_reply i.input_request d
run_node request_to i d = request_to_account_selection i.selection d
run_node emit_to_empty i d = terminal completed_status d
run_node check_amount i d = check_internal_transfer_amount d
run_node request_amount i d = request_internal_transfer_amount i.amount_entry d
run_node start_prepare i d = start_internal_transfer_prepare d
run_node prepare i d = prepare_internal_transfer i.prepare_reply d
run_node request_approval i d = request_internal_transfer_approval i.approval d
run_node reset_from i d = reset_internal_from_account d
run_node reset_to i d = reset_internal_to_account d
run_node reset_amount i d = reset_internal_transfer_amount d
run_node route_correction i d = route_internal_transfer_correction d
run_node request_correction i d = request_internal_transfer_correction i.correction d
run_node start_auth i d = start_internal_auth d
run_node create_auth i d = create_internal_auth_context i.auth_reply d
run_node request_auth i d = request_internal_authentication i.auth_status d
run_node request_retry i d = request_internal_auth_retry i.auth_retry_outcome d
run_node execute i d = execute_internal_transfer i.execute_reply d
run_node emit_result i d = terminal completed_status d
run_node emit_blocked i d = terminal blocked_status d
run_node emit_error i d = terminal workflow_failed d

-- Where the graph goes on; `missing` is a key that a conditional edge does not have.
pub data Next : Type 0 where
  to : Node → Next
  finish missing : Next

unfoldable pub edge : Node → Word → Next
edge extract_slots _ = to resolve_from
edge resolve_from resolved = to resolve_to
edge resolve_from selection_required = to request_from
edge resolve_from no_accounts = to emit_from_empty
edge resolve_from error = to emit_error
edge request_from selected = to resolve_to
edge request_from cancelled = finish
edge request_from cancelled_return = to start_prepare
edge request_from error = to emit_error
edge emit_from_empty _ = finish
edge resolve_to resolved = to check_amount
edge resolve_to selection_required = to request_to
edge resolve_to no_accounts = to emit_to_empty
edge resolve_to error = to emit_error
edge request_to selected = to check_amount
edge request_to cancelled = finish
edge request_to cancelled_return = to start_prepare
edge request_to error = to emit_error
edge emit_to_empty _ = finish
edge check_amount valid = to start_prepare
edge check_amount invalid = to request_amount
edge check_amount limit_exceeded = to emit_blocked
edge request_amount submitted = to check_amount
edge request_amount cancelled = finish
edge request_amount cancelled_return = to start_prepare
edge request_amount error = to emit_error
edge start_prepare _ = to prepare
edge prepare ready_for_confirmation = to request_approval
edge prepare correction_required = to route_correction
edge prepare blocked = to emit_blocked
edge prepare error = to emit_error
edge request_approval approved = to start_auth
edge request_approval (joined change_requested from_account) = to reset_from
edge request_approval (joined change_requested to_account) = to reset_to
edge request_approval (joined change_requested amount) = to reset_amount
edge request_approval cancelled = finish
edge request_approval error = to emit_error
edge reset_from _ = to resolve_from
edge reset_to _ = to resolve_to
edge reset_amount _ = to request_amount
edge route_correction valid = to request_correction
edge route_correction invalid = to emit_error
edge request_correction (joined selected from_account) = to reset_from
edge request_correction (joined selected to_account) = to reset_to
edge request_correction (joined selected amount) = to reset_amount
edge request_correction cancelled = finish
edge request_correction error = to emit_error
edge start_auth _ = to create_auth
edge create_auth authentication_required = to request_auth
edge create_auth blocked = to emit_blocked
edge create_auth error = to emit_error
edge request_auth verified = to execute
edge request_auth retriable = to request_retry
edge request_auth cancelled = finish
edge request_auth error = to emit_error
edge request_retry retry = to start_auth
edge request_retry cancelled = finish
edge request_retry error = to emit_error
edge execute completed = to emit_result
edge execute correction_required = to route_correction
edge execute reauthentication_required = to start_auth
edge execute blocked = to emit_blocked
edge execute error = to emit_error
edge emit_result _ = finish
edge emit_blocked _ = finish
edge emit_error _ = finish
edge _ _ = missing

-- One step of the graph: the node's update, and the node that its route leads to.
unfoldable pub step : Node → Inputs → TransferData → Next × TransferData
step n i d = let u = run_node n i d in (edge n u.route_key, u.new_data)
