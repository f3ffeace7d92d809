-- ===== src/Agent/InternalTransfer/Approved/Steps.antt =====
-- internal_transfer.py: the approval through the steps that need one.
use kdt_ai_2_hands_on_experi.Common.{◌≡◌, refl, sym, true, arith, if_rule}
use kdt_ai_2_hands_on_experi.Agent.Values.{
  ToolReply, Value, approved, authentication_required, blocked, cancelled, change_requested,
  completed, correction_required, expired, failed, failed_with, is_text, reauthentication_required,
  replied, retry, text, verified, from_account,
}
use kdt_ai_2_hands_on_experi.Agent.InternalTransfer.{TransferData}
use kdt_ai_2_hands_on_experi.Agent.InternalTransfer.Approval.{
  ApprovalResume, approval_given, change_to, request_internal_transfer_approval,
}
use kdt_ai_2_hands_on_experi.Agent.InternalTransfer.Authentication.{
  AuthResult, ExecuteResult, auth_outcome, authentication_done, create_internal_auth_context,
  execute_internal_transfer, execute_outcome, request_internal_authentication, retry_chosen,
}
use kdt_ai_2_hands_on_experi.Agent.InternalTransfer.Graph.{
  edge, request_approval, create_auth, request_auth, request_retry, execute,
}
use kdt_ai_2_hands_on_experi.Agent.InternalTransfer.Approved.{History, IsApproved, After}

change_to-Holds :
    (v : Value) (resumed d : TransferData) (h : History)
    → After request_approval d h (change_to v resumed d)
unfolding change_to edge
change_to-Holds (text from_account) resumed d h = tt
change_to-Holds (text w) resumed d h = tt
change_to-Holds _ resumed d h = tt

approval_given-Holds :
    (v : Value) (resumed d : TransferData) (h : History)
    → resumed.approval_outcome ≡ v
    → resumed.confirmation_id ≡ d.confirmation_id
    → is_text d.confirmation_id ≡ true
    → After request_approval d h (approval_given v resumed d)
unfolding approval_given edge
approval_given-Holds (text approved) resumed d h e same shown =
    (sym same, ground (arith, same, shown), e)
approval_given-Holds (text change_requested) resumed d h e same shown =
    change_to-Holds resumed.change_target resumed d h
approval_given-Holds (text cancelled) resumed d h e same shown = tt
approval_given-Holds _ resumed d h e same shown = tt

pub request_approval-Holds :
    (r : ApprovalResume) (d : TransferData) (h : History)
    → After request_approval d h (request_internal_transfer_approval r d)
unfolding request_internal_transfer_approval edge
request_approval-Holds r d h =
    if_rule (After request_approval d h) (is_text d.confirmation_id) _ _
      (λ shown. approval_given-Holds r.approval_outcome _ d h refl refl shown) (λ _. tt)

auth_outcome-Holds :
    (r : AuthResult) (v : Value) (d : TransferData) (h : History)
    → IsApproved d h
    → After create_auth d h (auth_outcome r v d)
unfolding auth_outcome edge
auth_outcome-Holds r (text authentication_required) d h ok = ok
auth_outcome-Holds r (text blocked) d h ok = tt
auth_outcome-Holds r _ d h ok = tt

pub create_auth-Holds :
    (o : ToolReply AuthResult) (d : TransferData) (h : History)
    → IsApproved d h
    → After create_auth d h (create_internal_auth_context o d)
unfolding create_internal_auth_context edge
create_auth-Holds (failed_with m) d h ok = tt
create_auth-Holds (replied r) d h ok = auth_outcome-Holds r r.outcome d h ok

authentication_done-Holds :
    (v : Value) (d : TransferData) (h : History)
    → IsApproved d h
    → is_text d.auth_context_id ≡ true
    → After request_auth d h (authentication_done v (record d { auth_status = v }) d)
unfolding authentication_done edge
authentication_done-Holds (text verified) d h ok shown = (ok, (refl, shown, refl))
authentication_done-Holds (text failed) d h ok shown = ok
authentication_done-Holds (text expired) d h ok shown = ok
authentication_done-Holds (text cancelled) d h ok shown = tt
authentication_done-Holds _ d h ok shown = tt

pub request_auth-Holds :
    (v : Value) (d : TransferData) (h : History)
    → IsApproved d h
    → After request_auth d h (request_internal_authentication v d)
unfolding request_internal_authentication edge
request_auth-Holds v d h ok =
    if_rule (After request_auth d h) (is_text d.auth_context_id) _ _
      (λ shown. authentication_done-Holds v d h ok shown) (λ _. tt)

pub retry_chosen-Holds :
    (v : Value) (resumed d : TransferData) (h : History)
    → IsApproved resumed h
    → After request_retry d h (retry_chosen v resumed d)
unfolding retry_chosen edge
retry_chosen-Holds (text retry) resumed d h ok = ok
retry_chosen-Holds (text cancelled) resumed d h ok = tt
retry_chosen-Holds _ resumed d h ok = tt

execute_outcome-Holds :
    (r : ExecuteResult) (v : Value) (d : TransferData) (h : History)
    → IsApproved d h
    → After execute d h (execute_outcome r v d)
unfolding execute_outcome edge
execute_outcome-Holds r (text completed) d h ok = tt
execute_outcome-Holds r (text correction_required) d h ok = tt
execute_outcome-Holds r (text reauthentication_required) d h ok = ok
execute_outcome-Holds r (text blocked) d h ok = tt
execute_outcome-Holds r _ d h ok = tt

pub execute-Holds :
    (o : ToolReply ExecuteResult) (d : TransferData) (h : History)
    → IsApproved d h
    → After execute d h (execute_internal_transfer o d)
unfolding execute_internal_transfer edge
execute-Holds (failed_with m) d h ok = tt
execute-Holds (replied r) d h ok = execute_outcome-Holds r r.outcome d h ok
