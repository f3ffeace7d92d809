-- ===== src/Agent/InternalTransfer/Tests.antt =====
-- internal_transfer.py: runs of the graph on concrete requests.
use kdt_ai_2_hands_on_experi.Common.{◌≡◌, refl, true, none, some, [], ◌∷◌}
use kdt_ai_2_hands_on_experi.Common.Int.{pos}
use kdt_ai_2_hands_on_experi.Agent.Values.{
  another, approved, authentication_required, completed, integer, is_text, null,
  ready_for_confirmation, replied, resolved, retry, selected, submitted, text, verified, amount,
}
use kdt_ai_2_hands_on_experi.Agent.InternalTransfer.{TransferData, new_data}
use kdt_ai_2_hands_on_experi.Agent.InternalTransfer.Accounts.{
  extract_internal_transfer_slots, from_outcome, from_resolved, resolve_internal_from_account,
  resolve_internal_to_account, to_outcome, to_resolved,
}
use kdt_ai_2_hands_on_experi.Agent.InternalTransfer.Amount.{
  amount_entered, check_integer, check_internal_transfer_amount, check_value, prepare_call,
  prepare_internal_transfer, prepare_outcome, request_internal_transfer_amount,
  start_internal_transfer_prepare,
}
use kdt_ai_2_hands_on_experi.Agent.InternalTransfer.Approval.{
  approval_given, request_internal_transfer_approval,
}
use kdt_ai_2_hands_on_experi.Agent.InternalTransfer.Authentication.{
  auth_outcome, authentication_done, create_internal_auth_context, execute_call,
  request_internal_authentication, start_internal_auth,
}
use kdt_ai_2_hands_on_experi.Agent.InternalTransfer.Graph.{
  Inputs, edge, run_node, step, to, extract_slots, resolve_from, request_amount, resolve_to,
  check_amount, start_prepare, prepare, request_approval, start_auth, create_auth, request_auth,
  execute,
}
use kdt_ai_2_hands_on_experi.Agent.InternalTransfer.Routes.{has_edge}
use kdt_ai_2_hands_on_experi.Agent.InternalTransfer.Routes.Nodes.{run_node-has_edge}
use kdt_ai_2_hands_on_experi.Agent.InternalTransfer.Approved.{Runs, next, start}
use kdt_ai_2_hands_on_experi.Agent.InternalTransfer.Approved.Execution.{Runs-execute_call}
use kdt_ai_2_hands_on_experi.Agent.InternalTransfer.Amounts.{is_fit}
use kdt_ai_2_hands_on_experi.Agent.InternalTransfer.Amounts.Runs.{
  Fresh, Fresh-prepare_call, fresh, goes_on,
}
use kdt_ai_2_hands_on_experi.Common.{leb}
use kdt_ai_2_hands_on_experi.Agent.InternalTransfer.Waits.{
  rank, rests, run_until_asked, run_until_asked-rests,
}
use kdt_ai_2_hands_on_experi.Agent.InternalTransfer.Cancelled.{cancels}

-- The user asks for 30,000 won and approves; account 1 is the default, account 2 is found.
abbrev inputs : Inputs
inputs = record {
  slots = record {
    from_account_hint = null;
    to_account_hint = text (another 2);
    slot_amount = integer (pos 30_000);
  };
  accounts_reply = replied (record {
    account_resolution_outcome = text resolved;
    account_ids = text (another 1) ∷ [];
    accounts = record { account_id = text (another 1); is_default = true } ∷ [];
  });
  input_request = 7;
  selection = record {
    account_selection_outcome = text selected;
    selected_account = some (text (another 2));
  };
  amount_entry = record {
    amount_input_outcome = text submitted;
    resumed_amount = some (integer (pos 20_000));
  };
  prepare_reply = replied (record {
    outcome = text ready_for_confirmation;
    confirmation_id = text (another 40);
    confirmation_view = null;
    correction_view = none;
    blocked_view = null;
  });
  approval = record { approval_outcome = text approved; change_target = none };
  correction = record {
    correction_selection_outcome = text selected;
    change_target = some (text amount);
  };
  auth_reply = replied (record {
    outcome = text authentication_required;
    auth_context_id = text (another 50);
    auth_request_view = null;
    blocked_view = null;
  });
  auth_status = text verified;
  auth_retry_outcome = text retry;
  execute_reply = replied (record {
    outcome = text completed;
    transaction_id = text (another 60);
    completed_at = null;
    correction_view = none;
    blocked_view = null;
  });
}

run_node-has_edge_example :
    has_edge (edge request_approval (run_node request_approval inputs new_data).route_key) ≡ true
run_node-has_edge_example = run_node-has_edge request_approval inputs new_data

-- From the data of a transfer, the run reaches its approval, its authentication and its execution.
abbrev prepared : TransferData
prepared = record new_data {
  from_account_id = text (another 1);
  to_account_id = text (another 2);
  transfer_amount = integer (pos 30_000);
}

abbrev executing : TransferData
executing = record prepared {
  from_account_hint = null;
  to_account_hint = text (another 2);
  account_resolution_outcome = text resolved;
  accounts = record { account_id = text (another 1); is_default = true } ∷ [];
  to_account_id = text (another 1);
  prepare_attempt = 1;
  confirmation_id = text (another 40);
  approval_outcome = text approved;
  auth_context_id = text (another 50);
  auth_status = text verified;
  auth_attempt = 1;
}

-- The run of that request up to its execution.
executes :
    Runs
      (to execute)
      executing
      (record { approved_id = text (another 40); verified_id = text (another 50) })
unfolding step run_node edge extract_internal_transfer_slots resolve_internal_from_account
    from_outcome from_resolved resolve_internal_to_account to_outcome to_resolved
    check_internal_transfer_amount check_value check_integer start_internal_transfer_prepare
    prepare_internal_transfer prepare_outcome request_internal_transfer_approval approval_given
    start_internal_auth create_internal_auth_context auth_outcome request_internal_authentication
    authentication_done
executes = next {n = request_auth} inputs (
    next {n = create_auth} inputs (
      next {n = start_auth} inputs (
        next {n = request_approval} inputs (
          next {n = prepare} inputs (
            next {n = start_prepare} inputs (
              next {n = check_amount} inputs (
                next {n = resolve_to} inputs (
                  next {n = resolve_from} inputs
                    (next {n = extract_slots} inputs (start new_data))))))))))

Runs-execute_call_example :
    ((execute_call executing).confirmation_id ≡ text (another 40))
    × ((execute_call executing).auth_context_id ≡ text (another 50))
    × (is_text (execute_call executing).confirmation_id ≡ true)
    × (is_text (execute_call executing).auth_context_id ≡ true)
Runs-execute_call_example = Runs-execute_call executes

-- The run of that request up to its preparation.
abbrev preparing : TransferData
preparing = record new_data {
  from_account_hint = null;
  to_account_hint = text (another 2);
  account_resolution_outcome = text resolved;
  accounts = record { account_id = text (another 1); is_default = true } ∷ [];
  from_account_id = text (another 1);
  to_account_id = text (another 1);
  transfer_amount = integer (pos 30_000);
  prepare_attempt = 1;
}

prepares : Fresh (to prepare) preparing
unfolding step run_node edge extract_internal_transfer_slots resolve_internal_from_account
    from_outcome from_resolved resolve_internal_to_account to_outcome to_resolved
    check_internal_transfer_amount check_value check_integer start_internal_transfer_prepare
prepares = goes_on {n = start_prepare} inputs refl (
    goes_on {n = check_amount} inputs refl (
      goes_on {n = resolve_to} inputs refl
        (goes_on {n = resolve_from} inputs refl (goes_on {n = extract_slots} inputs refl fresh))))

Fresh-prepare_call_example : is_fit (prepare_call 3 preparing).call_amount ≡ true
Fresh-prepare_call_example = Fresh-prepare_call 3 prepares

-- The user changes the amount of the transfer, and cancels.
abbrev changing : TransferData
changing = record prepared { input_request_id = text (another 7) }

-- An amount of zero is asked for again; where that is cancelled, it goes on with zero.
cancelled_zero :
    (step request_amount
      (cancels inputs none)
      (record prepared { transfer_amount = integer (pos 0) })).0
    ≡ to start_prepare
unfolding step run_node request_internal_transfer_amount amount_entered edge
cancelled_zero = refl

run_until_asked-rests_example :
    (rests (run_until_asked (rank extract_slots) (λ _. inputs) (to extract_slots, new_data)).0
      ≡ true)
    × (leb (rank extract_slots) 8 ≡ true)
run_until_asked-rests_example = run_until_asked-rests extract_slots (λ _. inputs) new_data
