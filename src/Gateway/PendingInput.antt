-- ===== src/Gateway/PendingInput.antt =====
-- services/pending_input_service.py, repository/pending_input_repository.py and
-- models/pending_input.py: the question that a chat session waits to have answered.
pub mod Activity
mod Tests
use kdt_ai_2_hands_on_experi.Common.{
  ℕ, ◌+◌, Bool, true, false, not, Option, none, some, List, [], ◌∷◌, ◌&&◌, ◌==◌, ◌>>=◌,
  if◌then◌else◌, leb,
}

pub data InputStatus : Type 0 where
  active consumed cancelled : InputStatus

pub record PendingInput : Type 0 where
  pub id : ℕ
  pub input_request_id : ℕ
  pub chat_session_id : ℕ
  pub execution_context_id : Option ℕ
  pub agent_thread_id : Option ℕ
  pub ui_contract_id : ℕ
  pub ui_type : ℕ
  pub status : InputStatus
  pub expires_at : ℕ
  pub consumed_at : Option ℕ

-- The HTTP errors 404, 410 and 409.
pub data InputError : Type 0 where
  not_found gone conflict : InputError

pub data InputReply : Type 0 where
  answered : PendingInput → InputReply
  refused : InputError → InputReply

abbrev pub is_active : PendingInput → Bool
is_active p = elim p.status [ InputStatus.active ↦ true | _ ↦ false ]

-- The WHERE clauses of the two conditional updates.
abbrev pub is_active_in : (session : ℕ) → PendingInput → Bool
is_active_in session p = p.chat_session_id == session && is_active p

abbrev pub is_active_row : (id : ℕ) → PendingInput → Bool
is_active_row id p = p.id == id && is_active p

-- UPDATE with a WHERE clause, and its rowcount as a truth value.
abbrev pub update_where :
    (PendingInput → Bool) → (PendingInput → PendingInput) → List PendingInput → List PendingInput
update_where test f [] = []
update_where test f (p ∷ ps) = (if test p then f p else p) ∷ update_where test f ps

abbrev pub any_where : (PendingInput → Bool) → List PendingInput → Bool
any_where test [] = false
any_where test (p ∷ ps) = if test p then true else any_where test ps

abbrev pub cancel_input : PendingInput → PendingInput
cancel_input p = record p { status = InputStatus.cancelled }

abbrev pub consume_input : (now : ℕ) → PendingInput → PendingInput
consume_input now p = record p { status = InputStatus.consumed; consumed_at = some now }

-- The newest row stands first, as ORDER BY created_at DESC has it.
abbrev pub get_pending_input_by_request_id : ℕ → List PendingInput → Option PendingInput
get_pending_input_by_request_id k [] = none
get_pending_input_by_request_id k (p ∷ ps) =
    if p.input_request_id == k then some p else get_pending_input_by_request_id k ps

unfoldable pub cancel_active_pending_inputs : ℕ → List PendingInput → List PendingInput
cancel_active_pending_inputs session rows = update_where (is_active_in session) cancel_input rows

unfoldable pub mark_pending_input_consumed :
    PendingInput → (now : ℕ) → List PendingInput → Bool × List PendingInput
mark_pending_input_consumed p now rows = (
  any_where (is_active_row p.id) rows,
  update_where (is_active_row p.id) (consume_input now) rows,
)

-- The arguments of a registration.
pub record InputRequest : Type 0 where
  pub input_request_id : ℕ
  pub ui_contract_id : ℕ
  pub ui_type : ℕ
  pub execution_context_id : Option ℕ
  pub agent_thread_id : Option ℕ
  pub ttl_seconds : Option ℕ

abbrev pub pending_input_ttl_seconds : ℕ
pending_input_ttl_seconds = 600

abbrev pub or_default : Option ℕ → ℕ
or_default none = pending_input_ttl_seconds
or_default (some n) = n

abbrev pub new_input : (session : ℕ) → InputRequest → (now id : ℕ) → PendingInput
new_input session req now id = record {
  id = id;
  input_request_id = req.input_request_id;
  chat_session_id = session;
  execution_context_id = req.execution_context_id;
  agent_thread_id = req.agent_thread_id;
  ui_contract_id = req.ui_contract_id;
  ui_type = req.ui_type;
  status = InputStatus.active;
  expires_at = now + or_default req.ttl_seconds;
  consumed_at = none;
}

-- `id` is what the database draws for the new row.
unfoldable pub register_pending_input :
    (session : ℕ)
    → InputRequest
    → (now id : ℕ) → List PendingInput
    → PendingInput × List PendingInput
register_pending_input session req now id rows =
    let row = new_input session req now id in (row, row ∷ cancel_active_pending_inputs session rows)

-- What an event carries. A missing field and an empty one are both `none`.
pub record InputMetadata : Type 0 where
  pub input_request_id : Option ℕ
  pub ui_contract_id : Option ℕ
  pub ui_type : Option ℕ

-- The registration that an event asks for, when no required field is missing; no thread and no time
-- to live are passed on.
abbrev pub event_request : InputMetadata → Option ℕ → Option InputRequest
event_request metadata context = do
  request ← metadata.input_request_id
  contract ← metadata.ui_contract_id
  type ← metadata.ui_type
  some (record {
    input_request_id = request;
    ui_contract_id = contract;
    ui_type = type;
    execution_context_id = context;
    agent_thread_id = none;
    ttl_seconds = none;
  })

unfoldable pub register_read :
    (session : ℕ)
    → Option InputRequest
    → (now id : ℕ) → List PendingInput
    → Option PendingInput × List PendingInput
register_read session none now id rows = (none, rows)
register_read session (some req) now id rows =
    let result = register_pending_input session req now id rows in (some result.0, result.1)

unfoldable pub register_pending_input_from_event :
    (session : ℕ)
    → InputMetadata
    → Option ℕ
    → (now id : ℕ) → List PendingInput
    → Option PendingInput × List PendingInput
register_pending_input_from_event session metadata context now id rows =
    register_read session (event_request metadata context) now id rows

unfoldable pub consume_found :
    (session now : ℕ) → Option PendingInput → List PendingInput → InputReply × List PendingInput
consume_found session now none rows = (InputReply.refused InputError.not_found, rows)
consume_found session now (some p) rows =
    if not (p.chat_session_id == session)
    then (InputReply.refused InputError.not_found, rows)
    else if leb p.expires_at now
    then (InputReply.refused InputError.gone, rows)
    else if not (is_active p)
    then (InputReply.refused InputError.conflict, rows)
    else let marked = mark_pending_input_consumed p now rows in
      if marked.0
      then (InputReply.answered (consume_input now p), marked.1)
      else (InputReply.refused InputError.conflict, marked.1)

unfoldable pub consume_pending_input :
    (session k now : ℕ) → List PendingInput → InputReply × List PendingInput
consume_pending_input session k now rows =
    consume_found session now (get_pending_input_by_request_id k rows) rows
