-- ===== src/Agent/InternalTransfer/Amounts/Runs.antt =====
-- internal_transfer.py: the amount in every run.
use kdt_ai_2_hands_on_experi.Common.{ℕ, ◌≡◌, refl, true, not, ◌&&◌, arith, if_rule}
use kdt_ai_2_hands_on_experi.Agent.Values.{is_text}
use kdt_ai_2_hands_on_experi.Agent.InternalTransfer.{TransferData, new_data}
use kdt_ai_2_hands_on_experi.Agent.InternalTransfer.Accounts.{
  extract_internal_transfer_slots, request_from_account_selection, request_to_account_selection,
}
use kdt_ai_2_hands_on_experi.Agent.InternalTransfer.Amount.{
  check_internal_transfer_amount, prepare_call, request_internal_transfer_amount,
  start_internal_transfer_prepare,
}
use kdt_ai_2_hands_on_experi.Agent.InternalTransfer.Approval.{
  request_internal_transfer_correction, reset_internal_from_account, reset_internal_to_account,
  reset_internal_transfer_amount, route_internal_transfer_correction, targets_of, all_targets,
  is_empty,
}
use kdt_ai_2_hands_on_experi.Agent.InternalTransfer.Authentication.{
  request_internal_auth_retry, request_internal_authentication, start_internal_auth,
}
use kdt_ai_2_hands_on_experi.Agent.InternalTransfer.Graph.{
  Inputs, Next, Node, edge, run_node, step, to, extract_slots, resolve_from, request_from,
  emit_from_empty, resolve_to, request_to, emit_to_empty, check_amount, request_amount,
  start_prepare, prepare, request_approval, reset_from, reset_to, reset_amount, route_correction,
  request_correction, start_auth, create_auth, request_auth, request_retry, execute, emit_result,
  emit_blocked, emit_error,
}
use kdt_ai_2_hands_on_experi.Agent.InternalTransfer.Amounts.{
  is_fit, is_entered, fit-entered, Amounts, After,
}
use kdt_ai_2_hands_on_experi.Agent.InternalTransfer.Amounts.Choices.{
  resolve_from-Amounts, from_selected-Amounts, resolve_to-Amounts, to_selected-Amounts,
}
use kdt_ai_2_hands_on_experi.Agent.InternalTransfer.Amounts.Entry.{
  check_value-Amounts, amount_entered-Amounts,
}
use kdt_ai_2_hands_on_experi.Agent.InternalTransfer.Amounts.Kept.{
  preserved-Fits, amount-preserved, prepare-Amounts, request_approval-Amounts,
  correction_chosen-Amounts, create_auth-Amounts, authentication_done-Amounts, retry_chosen-Amounts,
  execute-Amounts,
}

step-Amounts :
    (n : Node) (i : Inputs) (d : TransferData)
    → is_entered i.slots.slot_amount ≡ true
    → Amounts (to n) d
    → Amounts (step n i d).0 (step n i d).1
unfolding step run_node extract_internal_transfer_slots request_from_account_selection
    request_to_account_selection check_internal_transfer_amount request_internal_transfer_amount
    start_internal_transfer_prepare reset_internal_from_account reset_internal_to_account
    reset_internal_transfer_amount route_internal_transfer_correction
    request_internal_transfer_correction start_internal_auth request_internal_authentication
    request_internal_auth_retry edge
step-Amounts extract_slots i d e h = (e, ground (arith, h.0), ground (arith, h.1))
step-Amounts resolve_from i d e h = resolve_from-Amounts i.accounts_reply i.input_request d h
step-Amounts request_from i d e h =
    if_rule (After request_from) (is_text d.input_request_id) _ _
      (λ _. from_selected-Amounts i.selection.account_selection_outcome _ d refl refl h) (λ _. tt)
step-Amounts emit_from_empty i d e h = tt
step-Amounts resolve_to i d e h = resolve_to-Amounts i.accounts_reply i.input_request d h
step-Amounts request_to i d e h =
    if_rule (After request_to) (is_text d.input_request_id) _ _
      (λ _. to_selected-Amounts i.selection.account_selection_outcome _ d refl h) (λ _. tt)
step-Amounts emit_to_empty i d e h = tt
step-Amounts check_amount i d e h = check_value-Amounts d.transfer_amount d refl h
step-Amounts request_amount i d e h =
    amount_entered-Amounts i.amount_entry.amount_input_outcome _ d h
step-Amounts start_prepare i d e h = h
step-Amounts prepare i d e h = prepare-Amounts i.prepare_reply d h
step-Amounts request_approval i d e h = request_approval-Amounts i.approval d h
step-Amounts reset_from i d e h = (
  fit-entered d.transfer_amount h,
  preserved-Fits d.confirmation_id d.from_account_id d h,
  ground (arith, h),
)
step-Amounts reset_to i d e h =
    (fit-entered d.transfer_amount h, preserved-Fits d.confirmation_id d.to_account_id d h)
step-Amounts reset_amount i d e h = amount-preserved d.confirmation_id d.transfer_amount h
step-Amounts route_correction i d e h =
    if_rule (After route_correction)
      (not (is_empty (targets_of d.correction_view)) && all_targets (targets_of d.correction_view))
      _ _ (λ _. h) (λ _. tt)
step-Amounts request_correction i d e h =
    correction_chosen-Amounts i.correction.correction_selection_outcome _ d h
step-Amounts start_auth i d e h = h
step-Amounts create_auth i d e h = create_auth-Amounts i.auth_reply d h
step-Amounts request_auth i d e h =
    if_rule (After request_auth) (is_text d.auth_context_id) _ _
      (λ _. authentication_done-Amounts i.auth_status _ d h) (λ _. tt)
step-Amounts request_retry i d e h = retry_chosen-Amounts i.auth_retry_outcome _ d h
step-Amounts execute i d e h = execute-Amounts i.execute_reply d h
step-Amounts emit_result i d e h = tt
step-Amounts emit_blocked i d e h = tt
step-Amounts emit_error i d e h = tt

-- The runs of the graph from the data of a new thread, where no amount is read from the request or a
-- positive one.
pub data Fresh : Next → TransferData → Type 0 where
  fresh : Fresh (to extract_slots) new_data
  goes_on :
      {n : Node} {d : TransferData} (i : Inputs)
      → is_entered i.slots.slot_amount ≡ true
      → Fresh (to n) d
      → Fresh (step n i d).0 (step n i d).1

Fresh-Amounts : {p : Next} {d : TransferData} → Fresh p d → Amounts p d
Fresh-Amounts fresh = (refl, refl)
Fresh-Amounts (goes_on {n = n} {d = d} i e run) = step-Amounts n i d e (Fresh-Amounts run)

-- In every run from a new thread, where the request gives no amount or a positive one and whatever tools
-- reply and users enter: the amount that is sent to a preparation is positive and at most the limit.
pub Fresh-prepare_call :
    {d : TransferData} (execution_context : ℕ)
    → Fresh (to prepare) d
    → is_fit (prepare_call execution_context d).call_amount ≡ true
Fresh-prepare_call execution_context run = Fresh-Amounts run
