-- ===== src/Agent/Resume/Laws.antt =====
-- resume_validation.py: an accepted answer is the answer to what was asked.
use kdt_ai_2_hands_on_experi.Common.{ℕ, ◌≡◌, refl, ap, ◌∙◌, true, Option, none, some, arith}
use kdt_ai_2_hands_on_experi.Common.Texts.{Text, text_eq→eq}
use kdt_ai_2_hands_on_experi.Agent.Resume.{
  Binding, Envelope, Event, InteractionType, PendingInteraction, ResumePayload, ResumeRequest,
  ValidatedResume, accepted, approval, approval_resume, authentication, authentication_required,
  authentication_resume, identifier_matches, input, input_resume, is_envelope, matches_event,
  need_approval, need_input, other_event, pending_eq, pending_interaction_from_event, resume_id,
  resume_type, text_option_eq, identifier, waits_for, type_eq, validate, validate_pending, checked,
}

abbrev pub question : InteractionType → Text → Option (InteractionType × Text)
question t k = some (t, k)

-- What the user was asked, and under which identifier.
abbrev pub asked : Event → Option (InteractionType × Text)
asked (need_input place k) = some (input, k)
asked (need_approval place none) = none
asked (need_approval place (some k)) = some (approval, k)
asked (authentication_required place k) = some (authentication, k)
asked (other_event n) = none

type_eq→eq : (a b : InteractionType) → type_eq a b ≡ true → a ≡ b
type_eq→eq input input h = refl
type_eq→eq approval approval h = refl
type_eq→eq authentication authentication h = refl
type_eq→eq input approval h = cc
type_eq→eq input authentication h = cc
type_eq→eq approval input h = cc
type_eq→eq approval authentication h = cc
type_eq→eq authentication input h = cc
type_eq→eq authentication approval h = cc

text_option_eq→eq : (s t : Option Text) → text_option_eq s t ≡ true → s ≡ t
text_option_eq→eq none none h = refl
text_option_eq→eq (some s) (some t) h = ap some (text_eq→eq s t h)
text_option_eq→eq none (some t) h = cc
text_option_eq→eq (some s) none h = cc

identifier_matches→eq :
    (r : ResumePayload) (p : PendingInteraction)
    → identifier_matches r p ≡ true
    → some (resume_id r) ≡ identifier (resume_type r) p
identifier_matches→eq (input_resume k value) p h = text_option_eq→eq (some k) p.input_request_id h
identifier_matches→eq (approval_resume k outcome target) p h =
    text_option_eq→eq (some k) p.confirmation_id h
identifier_matches→eq (authentication_resume k auth_status) p h =
    text_option_eq→eq (some k) p.auth_context_id h

-- Equal interactions have the same type and the same identifiers.
pending_eq-parts :
    (p q : PendingInteraction)
    → pending_eq p q ≡ true
    → (p.interaction_type ≡ q.interaction_type)
      × ((t : InteractionType) → identifier t p ≡ identifier t q)
pending_eq-parts p q h =
    (type_eq→eq p.interaction_type q.interaction_type (ground (arith, h)), λ t. same t)
  where
    same : (t : InteractionType) → identifier t p ≡ identifier t q
    same input = text_option_eq→eq p.input_request_id q.input_request_id (ground (arith, h))
    same approval = text_option_eq→eq p.confirmation_id q.confirmation_id (ground (arith, h))
    same authentication = text_option_eq→eq p.auth_context_id q.auth_context_id (ground (arith, h))

matches-checked :
    (p q : PendingInteraction) → matches_event p (checked q) ≡ true → pending_eq p q ≡ true
matches-checked p q h = ground (arith, h)

-- The type and the identifier of an answer are those of the interaction that the event made.
answers :
    (r : ResumePayload) (p q : PendingInteraction)
    → matches_event p (checked q) ≡ true
    → type_eq (resume_type r) p.interaction_type ≡ true
    → identifier_matches r p ≡ true
    → (resume_type r ≡ q.interaction_type) × (some (resume_id r) ≡ identifier q.interaction_type q)
answers r p q m t h =
    let (same_type, same_id) = pending_eq-parts p q (matches-checked p q m) in
    let of_type = type_eq→eq (resume_type r) p.interaction_type t ∙ same_type in
    (
      of_type,
      identifier_matches→eq r p h ∙ same_id (resume_type r) ∙ ap (λ x. identifier x q) of_type,
    )

-- What an answer has to be, for a question of a type under an identifier.
asked_of :
    (r : ResumePayload) (t : InteractionType) (k : Text)
    → (resume_type r ≡ t) × (some (resume_id r) ≡ some k)
    → question t k ≡ question (resume_type r) (resume_id r)
asked_of r t k (e, f) = cc

-- The payload matches what the event asks for.
matches-asked :
    (r : ResumePayload) (p : PendingInteraction) (event : Event)
    → matches_event p (pending_interaction_from_event event) ≡ true
    → type_eq (resume_type r) p.interaction_type ≡ true
    → identifier_matches r p ≡ true
    → asked event ≡ question (resume_type r) (resume_id r)
unfolding pending_interaction_from_event
matches-asked r p (need_input place k) m t h =
    asked_of r input k (answers r p (waits_for input place (some k) none none) m t h)
matches-asked r p (need_approval place none) m t h = cc
matches-asked r p (need_approval place (some k)) m t h =
    asked_of r approval k (answers r p (waits_for approval place none (some k) none) m t h)
matches-asked r p (authentication_required place k) m t h =
    asked_of r authentication k
      (answers r p (waits_for authentication place none none (some k)) m t h)
matches-asked r p (other_event n) m t h = cc

-- What an accepted answer is.
pub record Answers (thread : ℕ) (request : ResumeRequest) (binding : Binding) (e : Envelope)
    (v : ValidatedResume) : Type 0 where
  pub same_thread : thread ≡ binding.agent_thread_id
  pub same_session : request.chat_session_id ≡ binding.chat_session_id
  pub same_context : request.execution_context_id ≡ binding.execution_context_id
  pub shown_there : e.chat_session_id ≡ binding.chat_session_id
  pub to_the_question : asked e.webhook_event ≡ question (resume_type v.resume) (resume_id v.resume)
  pub unchanged : v.resume ≡ request.resume

-- Where an answer is accepted, it came for the thread, the session and the execution context that the run
-- is bound to, and it answers the very question that the run's event showed in that session: it has the
-- question's type and its identifier.
pub validate-Answers :
    (thread : ℕ) (request : ResumeRequest) (binding : Binding) (e : Envelope) (v : ValidatedResume)
    → validate thread request binding e ≡ accepted v
    → Answers thread request binding e v
unfolding validate validate_pending is_envelope
validate-Answers thread request binding e v h =
    let p = e.pending_interaction in
    let m : matches_event p (pending_interaction_from_event e.webhook_event) ≡ true =
      ground (arith, h) in
    let t : type_eq (resume_type request.resume) p.interaction_type ≡ true = ground (arith, h) in
    let i : identifier_matches request.resume p ≡ true = ground (arith, h) in
    let same : v.resume ≡ request.resume = ground (arith, h) in
    record {
      same_thread = ground (arith, h);
      same_session = ground (arith, h);
      same_context = ground (arith, h);
      shown_there = ground (arith, h);
      to_the_question = rw same (matches-asked request.resume p e.webhook_event m t i);
      unchanged = same;
    }
