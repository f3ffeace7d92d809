-- ===== src/Gateway/PendingInput/Tests.antt =====
-- A session that is asked twice and answers the second question.
use kdt_ai_2_hands_on_experi.Common.{◌≡◌, ◌≤◌, ◌<◌, refl, none, some, List, []}
use kdt_ai_2_hands_on_experi.Gateway.PendingInput.{
  InputError, InputReply, InputRequest, PendingInput, cancel_active_pending_inputs, consume_input,
  consume_found, consume_pending_input, mark_pending_input_consumed, new_input,
  register_pending_input, register_pending_input_from_event, register_read,
}
use kdt_ai_2_hands_on_experi.Gateway.PendingInput.Activity.{
  InputCall, IsOpen, ReachableInputs, ReachableInputs-active_count, active_count,
  consume_pending_input-once, run_call,
}

abbrev first_request : InputRequest
first_request = record {
  input_request_id = 10;
  ui_contract_id = 1;
  ui_type = 1;
  execution_context_id = some 5;
  agent_thread_id = none;
  ttl_seconds = none;
}

abbrev asked_once : List PendingInput
asked_once = run_call (InputCall.register_call 7 first_request 1000 1) []

-- The second question comes with an event.
abbrev asked_twice : List PendingInput
asked_twice =
    run_call
      (InputCall.event_call 7
        (record { input_request_id = some 11; ui_contract_id = some 1; ui_type = some 2 }) (some 5)
        1010 2)
      asked_once

abbrev second_input : PendingInput
second_input =
    new_input 7
      (record {
        input_request_id = 11;
        ui_contract_id = 1;
        ui_type = 2;
        execution_context_id = some 5;
        agent_thread_id = none;
        ttl_seconds = none;
      })
      1010 2

asked_twice-runs :
    ((consume_pending_input 7 10 1020 asked_twice).0 ≡ InputReply.refused InputError.conflict)
    × ((consume_pending_input 8 11 1020 asked_twice).0 ≡ InputReply.refused InputError.not_found)
    × ((consume_pending_input 7 11 1610 asked_twice).0 ≡ InputReply.refused InputError.gone)
unfolding run_call register_pending_input register_pending_input_from_event register_read
    cancel_active_pending_inputs consume_pending_input consume_found
asked_twice-runs = (refl, refl, refl)

second-answered :
    (consume_pending_input 7 11 1020 asked_twice).0
    ≡ InputReply.answered (consume_input 1020 second_input)
unfolding run_call register_pending_input register_pending_input_from_event register_read
    cancel_active_pending_inputs consume_pending_input consume_found mark_pending_input_consumed
second-answered = refl

ReachableInputs-active_count_example : active_count 7 asked_twice ≤ 1
ReachableInputs-active_count_example =
    ReachableInputs-active_count
      (ReachableInputs.step
        (InputCall.event_call 7
          (record { input_request_id = some 11; ui_contract_id = some 1; ui_type = some 2 })
          (some 5) 1010 2)
        (ReachableInputs.step (InputCall.register_call 7 first_request 1000 1)
          ReachableInputs.start))
      7

consume_pending_input-once_example :
    let answered = (consume_pending_input 7 11 1020 asked_twice).1 in
    ((p : PendingInput) × IsOpen 7 11 1020 asked_twice p
      × (consume_input 1020 second_input ≡ consume_input 1020 p))
    × (1030 < (consume_input 1020 second_input).expires_at
        → consume_pending_input 7 11 1030 answered
          ≡ (InputReply.refused InputError.conflict, answered))
consume_pending_input-once_example =
    consume_pending_input-once 7 11 1020 1030 asked_twice (consume_input 1020 second_input)
      second-answered
