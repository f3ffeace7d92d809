-- ===== src/Agent/Resume.antt =====
-- agent/src/agent/runtime/hitl.py, interaction_pause.py and resume_validation.py: what a run waits for,
-- and whether an answer belongs to it.
pub mod Laws
use kdt_ai_2_hands_on_experi.Common.{
  ℕ, ◌+◌, Bool, true, false, ◌&&◌, not, ◌==◌, Option, none, some, [], ◌∷◌, if◌then◌else◌,
}
use kdt_ai_2_hands_on_experi.Common.Texts.{Text, text_eq}

pub data InteractionType : Type 0 where
  input approval authentication : InteractionType

abbrev pub type_eq : InteractionType → InteractionType → Bool
type_eq input input = true
type_eq approval approval = true
type_eq authentication authentication = true
type_eq a b = false

-- The metadata that says where a run waits.
pub record Place : Type 0 where
  pub workflow_id : ℕ
  pub step_id : ℕ
  pub ui_contract_id : ℕ

pub record PendingInteraction : Type 0 where
  pub interaction_type : InteractionType
  pub place : Place
  pub input_request_id : Option Text
  pub confirmation_id : Option Text
  pub auth_context_id : Option Text

abbrev pub identifier : InteractionType → PendingInteraction → Option Text
identifier input p = p.input_request_id
identifier approval p = p.confirmation_id
identifier authentication p = p.auth_context_id

abbrev pub is_filled : Option Text → Bool
is_filled none = false
is_filled (some []) = false
is_filled (some (c ∷ t)) = true

abbrev pub count : Option Text → ℕ
count none = 0
count (some t) = 1

-- The identifier of the type is there, and no other one.
unfoldable pub validate_identifier : PendingInteraction → Bool
validate_identifier p =
    is_filled (identifier p.interaction_type p)
    && (count p.input_request_id + count p.confirmation_id + count p.auth_context_id) == 1

-- A webhook event, with what is read of its metadata.
pub data Event : Type 0 where
  need_input : Place → (input_request_id : Text) → Event
  need_approval : Place → (confirmation_id : Option Text) → Event
  authentication_required : Place → (auth_context_id : Text) → Event
  other_event : ℕ → Event

abbrev pub checked : PendingInteraction → Option PendingInteraction
checked p = if validate_identifier p then some p else none

abbrev pub waits_for :
    InteractionType → Place → (input_id confirmation auth : Option Text) → PendingInteraction
waits_for t place input_id confirmation auth = record {
  interaction_type = t;
  place = place;
  input_request_id = input_id;
  confirmation_id = confirmation;
  auth_context_id = auth;
}

-- `none` where it raises.
unfoldable pub pending_interaction_from_event : Event → Option PendingInteraction
unfolding validate_identifier
pending_interaction_from_event (need_input place k) =
    checked (waits_for input place (some k) none none)
pending_interaction_from_event (need_approval place none) = none
pending_interaction_from_event (need_approval place (some k)) =
    checked (waits_for approval place none (some k) none)
pending_interaction_from_event (authentication_required place k) =
    checked (waits_for authentication place none none (some k))
pending_interaction_from_event (other_event n) = none

abbrev pub text_option_eq : Option Text → Option Text → Bool
text_option_eq none none = true
text_option_eq (some s) (some t) = text_eq s t
text_option_eq s t = false

abbrev pub pending_eq : PendingInteraction → PendingInteraction → Bool
pending_eq p q =
    type_eq p.interaction_type q.interaction_type
    && p.place.workflow_id == q.place.workflow_id
    && p.place.step_id == q.place.step_id
    && p.place.ui_contract_id == q.place.ui_contract_id
    && text_option_eq p.input_request_id q.input_request_id
    && text_option_eq p.confirmation_id q.confirmation_id
    && text_option_eq p.auth_context_id q.auth_context_id

-- The payload of an interrupt, before it is validated.
pub record Envelope : Type 0 where
  pub chat_session_id : ℕ
  pub webhook_event : Event
  pub pending_interaction : PendingInteraction

abbrev pub matches_event : PendingInteraction → Option PendingInteraction → Bool
matches_event p none = false
matches_event p (some expected) = pending_eq p expected

-- `model_validate`, with the validator of the envelope
unfoldable pub is_envelope : Envelope → Bool
unfolding validate_identifier pending_interaction_from_event
is_envelope e =
    validate_identifier e.pending_interaction
    && matches_event e.pending_interaction (pending_interaction_from_event e.webhook_event)

-- `value`, an outcome and a target, or a status: only passed on.
pub data ResumePayload : Type 0 where
  input_resume : (input_request_id : Text) → (value : ℕ) → ResumePayload
  approval_resume : (confirmation_id : Text) → (outcome : ℕ) → Option ℕ → ResumePayload
  authentication_resume : (auth_context_id : Text) → (auth_status : ℕ) → ResumePayload

abbrev pub resume_type : ResumePayload → InteractionType
resume_type (input_resume k value) = input
resume_type (approval_resume k outcome target) = approval
resume_type (authentication_resume k auth_status) = authentication

abbrev pub resume_id : ResumePayload → Text
resume_id (input_resume k value) = k
resume_id (approval_resume k outcome target) = k
resume_id (authentication_resume k auth_status) = k

-- `_identifier_matches`
abbrev pub identifier_matches : ResumePayload → PendingInteraction → Bool
identifier_matches (input_resume k value) p = text_option_eq (some k) p.input_request_id
identifier_matches (approval_resume k outcome target) p = text_option_eq (some k) p.confirmation_id
identifier_matches (authentication_resume k auth_status) p =
    text_option_eq (some k) p.auth_context_id

pub record Binding : Type 0 where
  pub agent_thread_id : ℕ
  pub chat_session_id : ℕ
  pub execution_context_id : ℕ

pub record ResumeRequest : Type 0 where
  pub request_id : ℕ
  pub chat_session_id : ℕ
  pub execution_context_id : ℕ
  pub resume : ResumePayload

pub data ResumeErrorCode : Type 0 where
  agent_thread_mismatch chat_session_mismatch execution_context_mismatch : ResumeErrorCode
  pending_chat_session_mismatch resume_type_mismatch pending_identifier_mismatch : ResumeErrorCode

pub record ValidatedResume : Type 0 where
  pub request_id : ℕ
  pub agent_thread_id : ℕ
  pub pending_interaction : PendingInteraction
  pub resume : ResumePayload

-- `invalid_envelope` is the error of `model_validate`.
pub data Validation : Type 0 where
  rejected : ResumeErrorCode → Validation
  invalid_envelope : Validation
  accepted : ValidatedResume → Validation

unfoldable pub validate_pending : (thread : ℕ) → ResumeRequest → Binding → Envelope → Validation
validate_pending thread request binding e =
    if not (e.chat_session_id == binding.chat_session_id)
    then rejected pending_chat_session_mismatch
    else if not (type_eq (resume_type request.resume) e.pending_interaction.interaction_type)
    then rejected resume_type_mismatch
    else if not (identifier_matches request.resume e.pending_interaction)
    then rejected pending_identifier_mismatch
    else accepted (record {
      request_id = request.request_id;
      agent_thread_id = thread;
      pending_interaction = e.pending_interaction;
      resume = request.resume;
    })

unfoldable pub validate : (thread : ℕ) → ResumeRequest → Binding → Envelope → Validation
unfolding validate_pending is_envelope
validate thread request binding e =
    if not (thread == binding.agent_thread_id)
    then rejected agent_thread_mismatch
    else if not (request.chat_session_id == binding.chat_session_id)
    then rejected chat_session_mismatch
    else if not (request.execution_context_id == binding.execution_context_id)
    then rejected execution_context_mismatch
    else if not (is_envelope e)
    then invalid_envelope
    else validate_pending thread request binding e
