-- ===== src/Gateway/Idempotency.antt =====
-- services/idempotency_service.py, repository/idempotency_repository.py and
-- api/agent_tools/idempotent_runner.py.
pub mod Laws
use kdt_ai_2_hands_on_experi.Common.{
  ℕ, ◌+◌, Bool, not, Option, none, some, List, [], ◌∷◌, ◌&&◌, ◌==◌, if◌then◌else◌,
}
use kdt_ai_2_hands_on_experi.Gateway.Service.{Error, Result, ok, err, idempotency_ttl_seconds}

pub data IdempotencyStatus : Type 0 where
  in_progress completed : IdempotencyStatus

-- The columns of the unique constraint.
pub record Scope : Type 0 where
  pub execution_context_id : ℕ
  pub operation : ℕ
  pub idempotency_key : ℕ

abbrev pub scope_eq : Scope → Scope → Bool
scope_eq a b =
    a.execution_context_id == b.execution_context_id
    && a.operation == b.operation
    && a.idempotency_key == b.idempotency_key

-- A row of `idempotency_keys`; bodies are of any type.
pub record IdempotencyKey (Body : Type 0) : Type 0 where
  pub scope : Scope
  pub request_hash : ℕ
  pub status : IdempotencyStatus
  pub response_status : Option ℕ
  pub response_body : Option Body
  pub expires_at : ℕ

-- `get_idempotency_record`
abbrev pub get_record : {B : Type 0} → Scope → List (IdempotencyKey B) → Option (IdempotencyKey B)
get_record k [] = none
get_record k (r ∷ rest) = if scope_eq k r.scope then some r else get_record k rest

-- `complete_idempotency`
abbrev complete_row : {B : Type 0} → ℕ → B → IdempotencyKey B → IdempotencyKey B
complete_row status body r = record r {
  status = IdempotencyStatus.completed;
  response_status = some status;
  response_body = some body;
}

abbrev pub complete :
    {B : Type 0} → Scope → ℕ → B → List (IdempotencyKey B) → List (IdempotencyKey B)
complete k status body [] = []
complete k status body (r ∷ rest) =
    if scope_eq k r.scope
    then complete_row status body r ∷ rest
    else r ∷ complete k status body rest

-- `response_status or 200`
abbrev pub or_200 : Option ℕ → ℕ
or_200 none = 200
or_200 (some n) = if n == 0 then 200 else n

abbrev pub or_body : {B : Type 0} → B → Option B → B
or_body empty none = empty
or_body empty (some b) = b

-- What `begin` found: the first response, nothing, in which case the key is now taken, or an error.
pub data Begun (B : Type 0) : Type 0 where
  replay : ℕ → B → Begun B
  started : Begun B
  refused : Error → Begun B

-- `create_in_progress`
abbrev pub in_progress_row : {B : Type 0} → Scope → (hash now : ℕ) → IdempotencyKey B
in_progress_row k hash now = record {
  scope = k;
  request_hash = hash;
  status = IdempotencyStatus.in_progress;
  response_status = none;
  response_body = none;
  expires_at = now + idempotency_ttl_seconds;
}

begin_found :
    {B : Type 0}
    → B
    → Scope
    → (hash now : ℕ) → List (IdempotencyKey B)
    → Option (IdempotencyKey B)
    → Begun B × List (IdempotencyKey B)
begin_found empty k hash now rows none = (Begun.started, in_progress_row k hash now ∷ rows)
begin_found empty k hash now rows (some r) =
    if not (r.request_hash == hash)
    then (Begun.refused Error.idempotency_key_conflict, rows)
    else elim r.status [
      | IdempotencyStatus.completed ↦
          (Begun.replay (or_200 r.response_status) (or_body empty r.response_body), rows)
      | IdempotencyStatus.in_progress ↦ (Begun.refused Error.idempotency_request_in_progress, rows)
    ]

-- `begin`; `empty` is the body `{}`.
unfoldable pub begin :
    {B : Type 0}
    → B
    → Scope
    → (hash now : ℕ) → List (IdempotencyKey B)
    → Begun B × List (IdempotencyKey B)
unfolding begin_found
begin empty k hash now rows = begin_found empty k hash now rows (get_record k rows)

-- After `await handler()`: what it raises is raised, and `complete` is then not reached.
run_handled :
    {B S : Type 0}
    → Scope
    → ℕ
    → List (IdempotencyKey B)
    → Result B × S
    → Result (ℕ × B) × List (IdempotencyKey B) × S
run_handled k success rows (err e, s) = (err e, rows, s)
run_handled k success rows (ok body, s) = (ok (success, body), complete k success body rows, s)

run_begun :
    {B S : Type 0}
    → Scope
    → ℕ
    → (S → Result B × S)
    → S
    → Begun B × List (IdempotencyKey B)
    → Result (ℕ × B) × List (IdempotencyKey B) × S
unfolding run_handled
run_begun k success handler s (Begun.replay status body, rows) = (ok (status, body), rows, s)
run_begun k success handler s (Begun.refused e, rows) = (err e, rows, s)
run_begun k success handler s (Begun.started, rows) = run_handled k success rows (handler s)

-- `run_idempotent`; `S` is the state that the handler works on, and a blank key is `none`.
unfoldable pub run_idempotent :
    {B S : Type 0}
    → B
    → ℕ
    → ℕ
    → Option ℕ
    → (hash success now : ℕ) → (S → Result B × S)
    → List (IdempotencyKey B)
    → S
    → Result (ℕ × B) × List (IdempotencyKey B) × S
unfolding run_begun begin
run_idempotent empty context operation none hash success now handler rows s =
    (err Error.missing_idempotency_key, rows, s)
run_idempotent empty context operation (some key) hash success now handler rows s =
    let k : Scope = record {
      execution_context_id = context;
      operation = operation;
      idempotency_key = key;
    } in
    run_begun k success handler s (begin empty k hash now rows)
