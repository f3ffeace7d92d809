-- ===== src/Agent/InternalTransfer/Routes/Nodes.antt =====
-- internal_transfer.py: the route of every node.
use kdt_ai_2_hands_on_experi.Common.{◌≡◌, refl, true, arith}
use kdt_ai_2_hands_on_experi.Agent.Values
use kdt_ai_2_hands_on_experi.Agent.Values.{
  ToolReply, Update, Value, Word, text, integer, null, failed_with, replied, resolved,
  selection_required, no_accounts, selected, cancelled, submitted, ready_for_confirmation,
  correction_required, blocked, approved, change_requested, from_account, to_account, amount,
  authentication_required, verified, failed, expired, retry, completed, reauthentication_required,
}
use kdt_ai_2_hands_on_experi.Agent.InternalTransfer.{TransferData}
use kdt_ai_2_hands_on_experi.Agent.InternalTransfer.Accounts.{
  request_from_account_selection, request_to_account_selection,
}
use kdt_ai_2_hands_on_experi.Agent.InternalTransfer.Amount.{
  check_internal_transfer_amount, request_internal_transfer_amount,
}
use kdt_ai_2_hands_on_experi.Agent.InternalTransfer.Approval.{
  request_internal_transfer_approval, request_internal_transfer_correction,
  route_internal_transfer_correction,
}
use kdt_ai_2_hands_on_experi.Agent.InternalTransfer.Authentication.{
  request_internal_auth_retry, request_internal_authentication,
}
use kdt_ai_2_hands_on_experi.Agent.InternalTransfer.Graph.{
  Inputs, Node, edge, run_node, extract_slots, resolve_from, request_from, emit_from_empty,
  resolve_to, request_to, emit_to_empty, check_amount, request_amount, start_prepare, prepare,
  request_approval, reset_from, reset_to, reset_amount, route_correction, request_correction,
  start_auth, create_auth, request_auth, request_retry, execute, emit_result, emit_blocked,
  emit_error,
}
use kdt_ai_2_hands_on_experi.Agent.InternalTransfer.Routes.{has_edge}
use kdt_ai_2_hands_on_experi.Agent.InternalTransfer.Routes.Accounts.{
  resolve_from-Leads, from_selected-Leads, resolve_to-Leads, to_selected-Leads,
}
use kdt_ai_2_hands_on_experi.Agent.InternalTransfer.Routes.Decisions.{
  check_value-Leads, amount_entered-Leads, prepare-Leads, approval_given-Leads,
  correction_chosen-Leads, create_auth-Leads, authentication_done-Leads, retry_chosen-Leads,
  execute-Leads,
}

-- Whatever a step has in its data and gets from outside, the graph has an edge for the route that it
-- returns: no run stops at a key that is not there.
pub run_node-has_edge :
    (n : Node) (i : Inputs) (d : TransferData) → has_edge (edge n (run_node n i d).route_key) ≡ true
unfolding run_node edge check_internal_transfer_amount request_internal_transfer_amount
    request_from_account_selection request_to_account_selection request_internal_transfer_approval
    route_internal_transfer_correction request_internal_transfer_correction
    request_internal_authentication request_internal_auth_retry
run_node-has_edge extract_slots i d = refl
run_node-has_edge resolve_from i d = resolve_from-Leads i.accounts_reply i.input_request d
run_node-has_edge request_from i d = ground (
  arith,
  from_selected-Leads i.selection.account_selection_outcome
      (record d {
        account_selection_outcome = i.selection.account_selection_outcome;
        from_account_id = Values.merged i.selection.selected_account d.from_account_id;
      })
      d,
)
run_node-has_edge emit_from_empty i d = refl
run_node-has_edge resolve_to i d = resolve_to-Leads i.accounts_reply i.input_request d
run_node-has_edge request_to i d = ground (
  arith,
  to_selected-Leads i.selection.account_selection_outcome
      (record d {
        account_selection_outcome = i.selection.account_selection_outcome;
        to_account_id = Values.merged i.selection.selected_account d.to_account_id;
      })
      d,
)
run_node-has_edge emit_to_empty i d = refl
run_node-has_edge check_amount i d = check_value-Leads d.transfer_amount d
run_node-has_edge request_amount i d = amount_entered-Leads i.amount_entry.amount_input_outcome _ d
run_node-has_edge start_prepare i d = refl
run_node-has_edge prepare i d = prepare-Leads i.prepare_reply d
run_node-has_edge request_approval i d = ground (
  arith,
  approval_given-Leads i.approval.approval_outcome
      (record d {
        approval_outcome = i.approval.approval_outcome;
        change_target = Values.merged i.approval.change_target d.change_target;
      })
      d,
)
run_node-has_edge reset_from i d = refl
run_node-has_edge reset_to i d = refl
run_node-has_edge reset_amount i d = refl
run_node-has_edge route_correction i d = ground arith
run_node-has_edge request_correction i d =
    correction_chosen-Leads i.correction.correction_selection_outcome _ d
run_node-has_edge start_auth i d = refl
run_node-has_edge create_auth i d = create_auth-Leads i.auth_reply d
run_node-has_edge request_auth i d =
    ground
      (arith, authentication_done-Leads i.auth_status (record d { auth_status = i.auth_status }) d)
run_node-has_edge request_retry i d = retry_chosen-Leads i.auth_retry_outcome _ d
run_node-has_edge execute i d = execute-Leads i.execute_reply d
run_node-has_edge emit_result i d = refl
run_node-has_edge emit_blocked i d = refl
run_node-has_edge emit_error i d = refl
