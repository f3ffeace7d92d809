-- ===== src/Agent/InternalTransfer/Amounts/Kept.antt =====
-- internal_transfer.py: the amount through the preparation and what follows it.
use kdt_ai_2_hands_on_experi.Common.{◌≡◌, refl, true, ◌||◌, arith, if_rule}
use kdt_ai_2_hands_on_experi.Agent.Values.{
  ToolReply, Value, authentication_required, blocked, cancelled, failed_with, is_null, is_text,
  replied, text, approved, change_requested, verified, retry, completed, correction_required,
  ready_for_confirmation, reauthentication_required, failed, expired, selected, from_account,
  to_account, amount,
}
use kdt_ai_2_hands_on_experi.Agent.InternalTransfer.{TransferData}
use kdt_ai_2_hands_on_experi.Agent.InternalTransfer.Amount.{
  PrepareResult, prepare_internal_transfer, prepare_outcome,
}
use kdt_ai_2_hands_on_experi.Agent.InternalTransfer.Approval.{
  ApprovalResume, approval_given, change_to, correct_target, correction_chosen, has_target,
  preserved, request_internal_transfer_approval, targets_of,
}
use kdt_ai_2_hands_on_experi.Agent.InternalTransfer.Authentication.{
  AuthResult, ExecuteResult, auth_outcome, authentication_done, create_internal_auth_context,
  execute_internal_transfer, execute_outcome, retry_chosen,
}
use kdt_ai_2_hands_on_experi.Agent.InternalTransfer.Graph.{
  edge, prepare, request_approval, request_correction, create_auth, request_auth, request_retry,
  execute,
}
use kdt_ai_2_hands_on_experi.Agent.InternalTransfer.Amounts.{is_fit, Fits, After}

-- The node asks for nothing that changes the amount.
abbrev Fit : TransferData → Type 0
Fit d = is_fit d.transfer_amount ≡ true

-- `preserved` leaves nothing or the amount.
pub preserved-Fits : (c v : Value) (d : TransferData) → Fit d → Fits (preserved c v) d
preserved-Fits c v d h = ground (arith, h)

pub amount-preserved :
    (c v : Value) → is_fit v ≡ true → (is_null (preserved c v) || is_fit (preserved c v)) ≡ true
amount-preserved c v h =
    if_rule (λ w. (is_null w || is_fit w) ≡ true) (is_null c) _ _ (λ _. refl)
      (λ _. ground (arith, h))

prepare_outcome-Amounts :
    (r : PrepareResult) (v : Value) (d : TransferData)
    → Fit d
    → After prepare (prepare_outcome r v d)
unfolding prepare_outcome edge
prepare_outcome-Amounts r (text ready_for_confirmation) d h = h
prepare_outcome-Amounts r (text correction_required) d h = h
prepare_outcome-Amounts r (text blocked) d h = tt
prepare_outcome-Amounts r _ d h = tt

pub prepare-Amounts :
    (o : ToolReply PrepareResult) (d : TransferData)
    → Fit d
    → After prepare (prepare_internal_transfer o d)
unfolding prepare_internal_transfer edge
prepare-Amounts (failed_with m) d h = tt
prepare-Amounts (replied r) d h = prepare_outcome-Amounts r r.outcome d h

change_to-Amounts :
    (v : Value) (resumed d : TransferData)
    → Fit resumed
    → After request_approval (change_to v resumed d)
unfolding change_to edge
change_to-Amounts (text from_account) resumed d h = h
change_to-Amounts (text to_account) resumed d h = h
change_to-Amounts (text amount) resumed d h = h
change_to-Amounts (text _) resumed d h = tt
change_to-Amounts _ resumed d h = tt

approval_given-Amounts :
    (v : Value) (resumed d : TransferData)
    → Fit resumed
    → After request_approval (approval_given v resumed d)
unfolding approval_given edge
approval_given-Amounts (text approved) resumed d h = h
approval_given-Amounts (text change_requested) resumed d h =
    change_to-Amounts resumed.change_target resumed d h
approval_given-Amounts (text cancelled) resumed d h = tt
approval_given-Amounts _ resumed d h = tt

pub request_approval-Amounts :
    (r : ApprovalResume) (d : TransferData)
    → Fit d
    → After request_approval (request_internal_transfer_approval r d)
unfolding request_internal_transfer_approval edge
request_approval-Amounts r d h =
    if_rule (After request_approval) (is_text d.confirmation_id) _ _
      (λ _. approval_given-Amounts r.approval_outcome _ d h) (λ _. tt)

correct_target-Amounts :
    (v : Value) (resumed d : TransferData)
    → Fit resumed
    → After request_correction (correct_target v resumed d)
unfolding correct_target edge
correct_target-Amounts (text from_account) resumed d h =
    if_rule (After request_correction)
      (has_target (text from_account) (targets_of d.correction_view)) _ _ (λ _. h) (λ _. tt)
correct_target-Amounts (text to_account) resumed d h =
    if_rule (After request_correction) (has_target (text to_account) (targets_of d.correction_view))
      _ _ (λ _. h) (λ _. tt)
correct_target-Amounts (text amount) resumed d h =
    if_rule (After request_correction) (has_target (text amount) (targets_of d.correction_view)) _ _
      (λ _. h) (λ _. tt)
correct_target-Amounts (text _) resumed d h = tt
correct_target-Amounts _ resumed d h = tt

pub correction_chosen-Amounts :
    (v : Value) (resumed d : TransferData)
    → Fit resumed
    → After request_correction (correction_chosen v resumed d)
unfolding correction_chosen edge
correction_chosen-Amounts (text selected) resumed d h =
    correct_target-Amounts resumed.change_target resumed d h
correction_chosen-Amounts (text cancelled) resumed d h = tt
correction_chosen-Amounts _ resumed d h = tt

auth_outcome-Amounts :
    (r : AuthResult) (v : Value) (d : TransferData) → Fit d → After create_auth (auth_outcome r v d)
unfolding auth_outcome edge
auth_outcome-Amounts r (text authentication_required) d h = h
auth_outcome-Amounts r (text blocked) d h = tt
auth_outcome-Amounts r _ d h = tt

pub create_auth-Amounts :
    (o : ToolReply AuthResult) (d : TransferData)
    → Fit d
    → After create_auth (create_internal_auth_context o d)
unfolding create_internal_auth_context edge
create_auth-Amounts (failed_with m) d h = tt
create_auth-Amounts (replied r) d h = auth_outcome-Amounts r r.outcome d h

pub authentication_done-Amounts :
    (v : Value) (resumed d : TransferData)
    → Fit resumed
    → After request_auth (authentication_done v resumed d)
unfolding authentication_done edge
authentication_done-Amounts (text verified) resumed d h = h
authentication_done-Amounts (text failed) resumed d h = h
authentication_done-Amounts (text expired) resumed d h = h
authentication_done-Amounts (text cancelled) resumed d h = tt
authentication_done-Amounts _ resumed d h = tt

pub retry_chosen-Amounts :
    (v : Value) (resumed d : TransferData)
    → Fit resumed
    → After request_retry (retry_chosen v resumed d)
unfolding retry_chosen edge
retry_chosen-Amounts (text retry) resumed d h = h
retry_chosen-Amounts (text cancelled) resumed d h = tt
retry_chosen-Amounts _ resumed d h = tt

execute_outcome-Amounts :
    (r : ExecuteResult) (v : Value) (d : TransferData)
    → Fit d
    → After execute (execute_outcome r v d)
unfolding execute_outcome edge
execute_outcome-Amounts r (text completed) d h = tt
execute_outcome-Amounts r (text correction_required) d h = h
execute_outcome-Amounts r (text reauthentication_required) d h = h
execute_outcome-Amounts r (text blocked) d h = tt
execute_outcome-Amounts r _ d h = tt

pub execute-Amounts :
    (o : ToolReply ExecuteResult) (d : TransferData)
    → Fit d
    → After execute (execute_internal_transfer o d)
unfolding execute_internal_transfer edge
execute-Amounts (failed_with m) d h = tt
execute-Amounts (replied r) d h = execute_outcome-Amounts r r.outcome d h
