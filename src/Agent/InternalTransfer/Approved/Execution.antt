-- ===== src/Agent/InternalTransfer/Approved/Execution.antt =====
-- internal_transfer.py: what is executed is what the user approved and proved.
use kdt_ai_2_hands_on_experi.Common.{◌≡◌, refl, sym, Bool, true, false}
use kdt_ai_2_hands_on_experi.Agent.Values.{
  Word, blocked, is_text, resolved, selected, joined, from_account, valid, submitted,
}
use kdt_ai_2_hands_on_experi.Agent.InternalTransfer.{TransferData}
use kdt_ai_2_hands_on_experi.Agent.InternalTransfer.Authentication.{
  execute_call, request_internal_auth_retry, start_internal_auth,
}
use kdt_ai_2_hands_on_experi.Agent.InternalTransfer.Graph.{
  Inputs, Next, Node, edge, run_node, step, to, extract_slots, resolve_from, request_from,
  emit_from_empty, resolve_to, request_to, emit_to_empty, check_amount, request_amount,
  start_prepare, prepare, request_approval, reset_from, reset_to, reset_amount, route_correction,
  request_correction, start_auth, create_auth, request_auth, request_retry, execute, emit_result,
  emit_blocked, emit_error,
}
use kdt_ai_2_hands_on_experi.Agent.InternalTransfer.Approved.{
  History, remember, Runs, start, next, Holds,
}
use kdt_ai_2_hands_on_experi.Agent.InternalTransfer.Approved.Steps.{
  request_approval-Holds, create_auth-Holds, request_auth-Holds, retry_chosen-Holds, execute-Holds,
}

-- A node that no approval is needed for.
abbrev is_quiet : Node → Bool
is_quiet request_approval = false
is_quiet start_auth = false
is_quiet create_auth = false
is_quiet request_auth = false
is_quiet request_retry = false
is_quiet execute = false
is_quiet _ = true

-- The other nodes lead to none of those.
elsewhere :
    (n : Node) (w : Word) (d : TransferData) (h : History)
    → is_quiet n ≡ true
    → Holds (edge n w) d h
unfolding edge
elsewhere request_approval w d h q = cc
elsewhere start_auth w d h q = cc
elsewhere create_auth w d h q = cc
elsewhere request_auth w d h q = cc
elsewhere request_retry w d h q = cc
elsewhere execute w d h q = cc
elsewhere extract_slots w d h q = tt
elsewhere emit_from_empty w d h q = tt
elsewhere emit_to_empty w d h q = tt
elsewhere start_prepare w d h q = tt
elsewhere reset_from w d h q = tt
elsewhere reset_to w d h q = tt
elsewhere reset_amount w d h q = tt
elsewhere emit_result w d h q = tt
elsewhere emit_blocked w d h q = tt
elsewhere emit_error w d h q = tt
elsewhere resolve_from resolved d h q = tt
elsewhere resolve_from _ d h q = tt
elsewhere request_from selected d h q = tt
elsewhere request_from _ d h q = tt
elsewhere resolve_to resolved d h q = tt
elsewhere resolve_to _ d h q = tt
elsewhere request_to selected d h q = tt
elsewhere request_to _ d h q = tt
elsewhere check_amount valid d h q = tt
elsewhere check_amount _ d h q = tt
elsewhere request_amount submitted d h q = tt
elsewhere request_amount _ d h q = tt
elsewhere prepare blocked d h q = tt
elsewhere prepare _ d h q = tt
elsewhere route_correction valid d h q = tt
elsewhere route_correction _ d h q = tt
elsewhere request_correction (joined selected from_account) d h q = tt
elsewhere request_correction (joined selected _) d h q = tt
elsewhere request_correction (joined _ _) d h q = tt
elsewhere request_correction _ d h q = tt

step-Holds :
    (n : Node) (i : Inputs) (d : TransferData) (h : History)
    → Holds (to n) d h
    → Holds (step n i d).0 (step n i d).1 (remember n (run_node n i d).route_key d h)
unfolding step run_node start_internal_auth request_internal_auth_retry edge
step-Holds request_approval i d h ok = request_approval-Holds i.approval d h
step-Holds start_auth i d h ok = ok
step-Holds create_auth i d h ok = create_auth-Holds i.auth_reply d h ok
step-Holds request_auth i d h ok = request_auth-Holds i.auth_status d h ok
step-Holds request_retry i d h ok =
    retry_chosen-Holds i.auth_retry_outcome (record d { auth_retry_outcome = i.auth_retry_outcome })
      d h ok
step-Holds execute i d h ok = execute-Holds i.execute_reply d h ok.0
step-Holds extract_slots i d h ok = tt
step-Holds emit_from_empty i d h ok = tt
step-Holds emit_to_empty i d h ok = tt
step-Holds start_prepare i d h ok = tt
step-Holds reset_from i d h ok = tt
step-Holds reset_to i d h ok = tt
step-Holds reset_amount i d h ok = tt
step-Holds emit_result i d h ok = tt
step-Holds emit_blocked i d h ok = tt
step-Holds emit_error i d h ok = tt
step-Holds resolve_from i d h ok = elsewhere resolve_from _ _ h refl
step-Holds request_from i d h ok = elsewhere request_from _ _ h refl
step-Holds resolve_to i d h ok = elsewhere resolve_to _ _ h refl
step-Holds request_to i d h ok = elsewhere request_to _ _ h refl
step-Holds check_amount i d h ok = elsewhere check_amount _ _ h refl
step-Holds request_amount i d h ok = elsewhere request_amount _ _ h refl
step-Holds prepare i d h ok = elsewhere prepare _ _ h refl
step-Holds route_correction i d h ok = elsewhere route_correction _ _ h refl
step-Holds request_correction i d h ok = elsewhere request_correction _ _ h refl

Runs-Holds : {p : Next} {d : TransferData} {h : History} → Runs p d h → Holds p d h
Runs-Holds (start d) = tt
Runs-Holds (next {n = n} {d = d} {h = h} i run) = step-Holds n i d h (Runs-Holds run)

-- In every run of the graph, from any data and whatever tools reply and users enter: where the transfer
-- is executed, the confirmation that is sent is the one that the user approved last, and the
-- authentication that is sent is the one that was verified last.
pub Runs-execute_call :
    {d : TransferData} {h : History}
    → Runs (to execute) d h
    → let call = execute_call d in
      (call.confirmation_id ≡ h.approved_id)
      × (call.auth_context_id ≡ h.verified_id)
      × (is_text call.confirmation_id ≡ true)
      × (is_text call.auth_context_id ≡ true)
Runs-execute_call run =
    let (ok, proved) = Runs-Holds run in (sym ok.0, sym proved.0, ok.1, proved.1)
