-- ===== src/Agent/InternalTransfer/Approved.antt =====
-- internal_transfer.py: what the user approved and proved in a run.
pub mod Steps
pub mod Execution
use kdt_ai_2_hands_on_experi.Common.{◌≡◌, refl, sym, Bool, true, false, arith, if_rule}
use kdt_ai_2_hands_on_experi.Agent.Values.{
  ToolReply, Update, Value, Word, approved, authentication_required, blocked, cancelled,
  change_requested, completed, correction_required, expired, failed, failed_with, is_text, null,
  reauthentication_required, replied, resolved, retry, text, verified, selected, joined,
  from_account, valid, submitted,
}
use kdt_ai_2_hands_on_experi.Agent.InternalTransfer.{TransferData}
use kdt_ai_2_hands_on_experi.Agent.InternalTransfer.Approval.{
  ApprovalResume, approval_given, change_to, request_internal_transfer_approval,
}
use kdt_ai_2_hands_on_experi.Agent.InternalTransfer.Authentication.{
  AuthResult, ExecuteResult, execute_call, auth_outcome, authentication_done,
  create_internal_auth_context, execute_internal_transfer, execute_outcome,
  request_internal_auth_retry, request_internal_authentication, retry_chosen, start_internal_auth,
}
use kdt_ai_2_hands_on_experi.Agent.InternalTransfer.Graph.{
  Inputs, Next, Node, edge, run_node, step, to, extract_slots, resolve_from, request_from,
  emit_from_empty, resolve_to, request_to, emit_to_empty, check_amount, request_amount,
  start_prepare, prepare, request_approval, reset_from, reset_to, reset_amount, route_correction,
  request_correction, start_auth, create_auth, request_auth, request_retry, execute, emit_result,
  emit_blocked, emit_error,
}

-- What the run remembers: the confirmation of the last approval, and the authentication that was
-- verified last.
pub record History : Type 0 where
  pub approved_id : Value
  pub verified_id : Value

abbrev pub remember : Node → Word → TransferData → History → History
remember request_approval approved d h = record h { approved_id = d.confirmation_id }
remember request_auth verified d h = record h { verified_id = d.auth_context_id }
remember _ _ d h = h

-- The runs of the graph, from any data.
pub data Runs : Next → TransferData → History → Type 0 where
  start :
      (d : TransferData)
      → Runs (to extract_slots) d (record { approved_id = null; verified_id = null })
  next :
      {n : Node} {d : TransferData} {h : History} (i : Inputs)
      → Runs (to n) d h
      → Runs (step n i d).0 (step n i d).1 (remember n (run_node n i d).route_key d h)

abbrev pub IsApproved : TransferData → History → Type 0
IsApproved d h =
    (h.approved_id ≡ d.confirmation_id)
    × (is_text d.confirmation_id ≡ true)
    × (d.approval_outcome ≡ text approved)

abbrev pub IsVerified : TransferData → History → Type 0
IsVerified d h =
    (h.verified_id ≡ d.auth_context_id)
    × (is_text d.auth_context_id ≡ true)
    × (d.auth_status ≡ text verified)

-- What holds where the run stands.
abbrev pub Holds : Next → TransferData → History → Type 0
Holds (to start_auth) d h = IsApproved d h
Holds (to create_auth) d h = IsApproved d h
Holds (to request_auth) d h = IsApproved d h
Holds (to request_retry) d h = IsApproved d h
Holds (to execute) d h = IsApproved d h × IsVerified d h
Holds _ d h = Unit

abbrev pub After : Node → TransferData → History → Update TransferData → Type 0
After n d h u = Holds (edge n u.route_key) u.new_data (remember n u.route_key d h)
