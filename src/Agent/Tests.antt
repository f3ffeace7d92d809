-- ===== src/Agent/Tests.antt =====
-- guardrail_engine.py and resume_validation.py: rules and answers that run.
use kdt_ai_2_hands_on_experi.Common.{ℕ, ◌≡◌, refl, Bool, true, ◌==◌, none, some, [], ◌∷◌}
use kdt_ai_2_hands_on_experi.Agent.Guardrail.{
  Action, Expression, Rule, action_priority, ask_clarification, block, conjunction, disjunction,
  evaluate_expression, pick_decision, values_of, warn,
}
use kdt_ai_2_hands_on_experi.Agent.Guardrail.Laws.{
  IsIn, IsSeverest, evaluate_expression-value_of, pick_decision-IsSeverest, value_of,
}
use kdt_ai_2_hands_on_experi.Agent.Resume.{
  Binding, Envelope, Place, ResumeRequest, ValidatedResume, accepted, approval, approval_resume,
  is_envelope, need_approval, pending_interaction_from_event, validate, validate_identifier,
  validate_pending, waits_for,
}
use kdt_ai_2_hands_on_experi.Agent.Resume.Laws.{Answers, validate-Answers}

-- `1 == 1 OR 2 == 1 AND 1 == 1`, with a clause as the number that it compares with 1
abbrev expression : Expression ℕ
expression = record { first = 1; others = (disjunction, 2) ∷ (conjunction, 1) ∷ [] }

abbrev is_one : ℕ → Bool
is_one n = n == 1

evaluate_expression-value_of_example :
    evaluate_expression is_one (some expression)
    ≡ value_of (is_one 1) (values_of is_one ((disjunction, 2) ∷ (conjunction, 1) ∷ []))
evaluate_expression-value_of_example = evaluate_expression-value_of is_one expression

abbrev rule : ℕ → Action → Rule ℕ
rule k action = record {
  rule_id = k;
  applies_to_scope = [];
  enabled = true;
  applies_to_ids = (b'*' ∷ []) ∷ [];
  condition = record { contains_any = []; expression = some expression };
  action = action;
}

pick_decision-IsSeverest_example :
    (r : Rule ℕ) × (pick_decision (rule 1 warn ∷ rule 2 block ∷ rule 3 ask_clarification ∷ [])
      ≡ some r)
    × IsIn r (rule 1 warn ∷ rule 2 block ∷ rule 3 ask_clarification ∷ [])
    × IsSeverest action_priority r (rule 1 warn ∷ rule 2 block ∷ rule 3 ask_clarification ∷ [])
pick_decision-IsSeverest_example =
    pick_decision-IsSeverest (rule 1 warn) (rule 2 block ∷ rule 3 ask_clarification ∷ [])

-- The user approves the confirmation "7" that the run shows.
abbrev place : Place
place = record { workflow_id = 1; step_id = 2; ui_contract_id = 3 }

abbrev envelope : Envelope
envelope = record {
  chat_session_id = 5;
  webhook_event = need_approval place (some (b'7' ∷ []));
  pending_interaction = waits_for approval place none (some (b'7' ∷ [])) none;
}

abbrev binding : Binding
binding = record { agent_thread_id = 4; chat_session_id = 5; execution_context_id = 6 }

abbrev resume_request : ResumeRequest
resume_request = record {
  request_id = 9;
  chat_session_id = 5;
  execution_context_id = 6;
  resume = approval_resume (b'7' ∷ []) 0 none;
}

abbrev validated : ValidatedResume
validated = record {
  request_id = 9;
  agent_thread_id = 4;
  pending_interaction = waits_for approval place none (some (b'7' ∷ [])) none;
  resume = approval_resume (b'7' ∷ []) 0 none;
}

resume-accepted : validate 4 resume_request binding envelope ≡ accepted validated
unfolding validate validate_pending is_envelope validate_identifier pending_interaction_from_event
resume-accepted = refl

validate-Answers_example : Answers 4 resume_request binding envelope validated
validate-Answers_example =
    validate-Answers 4 resume_request binding envelope validated resume-accepted
