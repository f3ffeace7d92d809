-- ===== src/Agent/InternalTransfer/Routes/Decisions.antt =====
-- internal_transfer.py: the routes of the steps that follow the accounts.
use kdt_ai_2_hands_on_experi.Common.{refl, arith}
use kdt_ai_2_hands_on_experi.Agent.Values.{
  ToolReply, Value, text, integer, failed_with, replied, selected, cancelled, submitted,
  ready_for_confirmation, correction_required, blocked, approved, change_requested, from_account,
  to_account, amount, authentication_required, verified, failed, expired, retry, completed,
  reauthentication_required,
}
use kdt_ai_2_hands_on_experi.Agent.InternalTransfer.{TransferData}
use kdt_ai_2_hands_on_experi.Agent.InternalTransfer.Amount.{
  PrepareResult, amount_entered, check_integer, check_value, prepare_internal_transfer,
  prepare_outcome,
}
use kdt_ai_2_hands_on_experi.Agent.InternalTransfer.Approval.{
  approval_given, change_to, correct_target, correction_chosen,
}
use kdt_ai_2_hands_on_experi.Agent.InternalTransfer.Authentication.{
  AuthResult, ExecuteResult, auth_outcome, authentication_done, create_internal_auth_context,
  execute_internal_transfer, execute_outcome, retry_chosen,
}
use kdt_ai_2_hands_on_experi.Agent.InternalTransfer.Graph.{
  edge, check_amount, request_amount, prepare, request_approval, request_correction, create_auth,
  request_auth, request_retry, execute,
}
use kdt_ai_2_hands_on_experi.Agent.InternalTransfer.Routes.{Leads}

pub check_value-Leads : (v : Value) (d : TransferData) → Leads check_amount (check_value v d)
unfolding check_value check_integer edge
check_value-Leads (integer n) d = ground arith
check_value-Leads _ d = refl

pub amount_entered-Leads :
    (v : Value) (resumed d : TransferData) → Leads request_amount (amount_entered v resumed d)
unfolding amount_entered edge
amount_entered-Leads (text submitted) resumed d = ground arith
amount_entered-Leads (text cancelled) resumed d = ground arith
amount_entered-Leads _ resumed d = refl

prepare_outcome-Leads :
    (r : PrepareResult) (v : Value) (d : TransferData) → Leads prepare (prepare_outcome r v d)
unfolding prepare_outcome edge
prepare_outcome-Leads r (text ready_for_confirmation) d = refl
prepare_outcome-Leads r (text correction_required) d = refl
prepare_outcome-Leads r (text blocked) d = refl
prepare_outcome-Leads r _ d = refl

pub prepare-Leads :
    (o : ToolReply PrepareResult) (d : TransferData) → Leads prepare (prepare_internal_transfer o d)
unfolding prepare_internal_transfer edge
prepare-Leads (failed_with m) d = refl
prepare-Leads (replied r) d = prepare_outcome-Leads r r.outcome d

change_to-Leads :
    (v : Value) (resumed d : TransferData) → Leads request_approval (change_to v resumed d)
unfolding change_to edge
change_to-Leads (text from_account) resumed d = refl
change_to-Leads (text to_account) resumed d = refl
change_to-Leads (text amount) resumed d = refl
change_to-Leads (text w) resumed d = refl
change_to-Leads _ resumed d = refl

pub approval_given-Leads :
    (v : Value) (resumed d : TransferData) → Leads request_approval (approval_given v resumed d)
unfolding approval_given edge
approval_given-Leads (text approved) resumed d = refl
approval_given-Leads (text change_requested) resumed d =
    change_to-Leads resumed.change_target resumed d
approval_given-Leads (text cancelled) resumed d = refl
approval_given-Leads _ resumed d = refl

correct_target-Leads :
    (v : Value) (resumed d : TransferData) → Leads request_correction (correct_target v resumed d)
unfolding correct_target edge
correct_target-Leads (text from_account) resumed d = ground arith
correct_target-Leads (text to_account) resumed d = ground arith
correct_target-Leads (text amount) resumed d = ground arith
correct_target-Leads (text w) resumed d = refl
correct_target-Leads _ resumed d = refl

pub correction_chosen-Leads :
    (v : Value) (resumed d : TransferData)
    → Leads request_correction (correction_chosen v resumed d)
unfolding correction_chosen edge
correction_chosen-Leads (text selected) resumed d =
    correct_target-Leads resumed.change_target resumed d
correction_chosen-Leads (text cancelled) resumed d = refl
correction_chosen-Leads _ resumed d = refl

auth_outcome-Leads :
    (r : AuthResult) (v : Value) (d : TransferData) → Leads create_auth (auth_outcome r v d)
unfolding auth_outcome edge
auth_outcome-Leads r (text authentication_required) d = refl
auth_outcome-Leads r (text blocked) d = refl
auth_outcome-Leads r _ d = refl

pub create_auth-Leads :
    (o : ToolReply AuthResult) (d : TransferData)
    → Leads create_auth (create_internal_auth_context o d)
unfolding create_internal_auth_context edge
create_auth-Leads (failed_with m) d = refl
create_auth-Leads (replied r) d = auth_outcome-Leads r r.outcome d

pub authentication_done-Leads :
    (v : Value) (resumed d : TransferData) → Leads request_auth (authentication_done v resumed d)
unfolding authentication_done edge
authentication_done-Leads (text verified) resumed d = refl
authentication_done-Leads (text failed) resumed d = refl
authentication_done-Leads (text expired) resumed d = refl
authentication_done-Leads (text cancelled) resumed d = refl
authentication_done-Leads _ resumed d = refl

pub retry_chosen-Leads :
    (v : Value) (resumed d : TransferData) → Leads request_retry (retry_chosen v resumed d)
unfolding retry_chosen edge
retry_chosen-Leads (text retry) resumed d = refl
retry_chosen-Leads (text cancelled) resumed d = refl
retry_chosen-Leads _ resumed d = refl

execute_outcome-Leads :
    (r : ExecuteResult) (v : Value) (d : TransferData) → Leads execute (execute_outcome r v d)
unfolding execute_outcome edge
execute_outcome-Leads r (text completed) d = refl
execute_outcome-Leads r (text correction_required) d = refl
execute_outcome-Leads r (text reauthentication_required) d = refl
execute_outcome-Leads r (text blocked) d = refl
execute_outcome-Leads r _ d = refl

pub execute-Leads :
    (o : ToolReply ExecuteResult) (d : TransferData) → Leads execute (execute_internal_transfer o d)
unfolding execute_internal_transfer edge
execute-Leads (failed_with m) d = refl
execute-Leads (replied r) d = execute_outcome-Leads r r.outcome d
