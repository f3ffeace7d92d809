-- ===== src/Agent/InternalTransfer/Authentication.antt =====
-- internal_transfer.py: the authentication, its retry, and the execution.
use kdt_ai_2_hands_on_experi.Common.{ℕ, ◌+◌, Option, none, List, if◌then◌else◌}
use kdt_ai_2_hands_on_experi.Agent.Values.{
  ToolReply, Update, Value, always, authentication_required, blocked, cancelled, completed,
  completed_status, correction_required, ends, expired, failed, failed_with, goes, is_text, null,
  reauthentication_required, replied, retriable, retry, text, verified,
}
use kdt_ai_2_hands_on_experi.Agent.InternalTransfer.{TransferData, fails}

unfoldable pub start_internal_auth : TransferData → Update TransferData
start_internal_auth d = goes always (record d {
  auth_context_id = null;
  auth_request_view = null;
  auth_status = null;
  auth_retry_outcome = null;
  auth_attempt = d.auth_attempt + 1;
})

-- The reply of `create_auth_context`.
pub record AuthResult : Type 0 where
  pub outcome : Value
  pub auth_context_id : Value
  pub auth_request_view : Value
  pub blocked_view : Value

unfoldable pub auth_outcome : AuthResult → Value → TransferData → Update TransferData
auth_outcome r (text authentication_required) d =
    goes authentication_required
      (record d { auth_context_id = r.auth_context_id; auth_request_view = r.auth_request_view })
auth_outcome r (text blocked) d = goes blocked (record d { blocked_view = r.blocked_view })
auth_outcome r _ d = fails none d

unfoldable pub create_internal_auth_context :
    ToolReply AuthResult → TransferData → Update TransferData
unfolding auth_outcome
create_internal_auth_context (failed_with m) d = fails m d
create_internal_auth_context (replied r) d = auth_outcome r r.outcome d

unfoldable pub authentication_done : Value → (resumed d : TransferData) → Update TransferData
authentication_done (text verified) resumed d = goes verified resumed
authentication_done (text failed) resumed d = goes retriable resumed
authentication_done (text expired) resumed d = goes retriable resumed
authentication_done (text cancelled) resumed d = ends completed_status cancelled resumed
authentication_done _ resumed d = fails none d

-- The resumption gives `auth_status`.
unfoldable pub request_internal_authentication : Value → TransferData → Update TransferData
unfolding authentication_done
request_internal_authentication status d =
    if is_text d.auth_context_id
    then authentication_done status (record d { auth_status = status }) d
    else fails none d

unfoldable pub retry_chosen : Value → (resumed d : TransferData) → Update TransferData
retry_chosen (text retry) resumed d = goes retry (record resumed { input_request_id = null })
retry_chosen (text cancelled) resumed d =
    ends completed_status cancelled (record resumed { input_request_id = null })
retry_chosen _ resumed d = fails none d

-- The resumption gives `auth_retry_outcome`.
unfoldable pub request_internal_auth_retry : Value → TransferData → Update TransferData
unfolding retry_chosen
request_internal_auth_retry outcome d =
    retry_chosen outcome (record d { auth_retry_outcome = outcome }) d

-- What the step sends to `execute_internal_transfer`: the key is the confirmation and the attempt.
pub record ExecuteCall : Type 0 where
  pub confirmation_id : Value
  pub auth_context_id : Value
  pub idempotency_key : Value × ℕ

abbrev pub execute_call : TransferData → ExecuteCall
execute_call d = record {
  confirmation_id = d.confirmation_id;
  auth_context_id = d.auth_context_id;
  idempotency_key = (d.confirmation_id, d.auth_attempt);
}

pub record ExecuteResult : Type 0 where
  pub outcome : Value
  pub transaction_id : Value
  pub completed_at : Value
  pub correction_view : Option (List Value)
  pub blocked_view : Value

unfoldable pub execute_outcome : ExecuteResult → Value → TransferData → Update TransferData
execute_outcome r (text completed) d =
    goes completed (record d { transaction_id = r.transaction_id; completed_at = r.completed_at })
execute_outcome r (text correction_required) d = goes correction_required (record d {
  correction_view = r.correction_view;
  confirmation_id = null;
  auth_context_id = null;
})
execute_outcome r (text reauthentication_required) d = goes reauthentication_required (record d {
  auth_context_id = null;
  auth_request_view = null;
  auth_status = null;
  auth_retry_outcome = null;
})
execute_outcome r (text blocked) d = goes blocked (record d { blocked_view = r.blocked_view })
execute_outcome r _ d = fails none d

unfoldable pub execute_internal_transfer :
    ToolReply ExecuteResult → TransferData → Update TransferData
unfolding execute_outcome
execute_internal_transfer (failed_with m) d = fails m d
execute_internal_transfer (replied r) d = execute_outcome r r.outcome d
