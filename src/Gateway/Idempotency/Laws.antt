-- ===== src/Gateway/Idempotency/Laws.antt =====
-- Requests under one key, finished and failed.
use kdt_ai_2_hands_on_experi.Common.{
  ℕ, ◌≡◌, ◌≢◌, refl, true, Option, none, some, List, [], ◌∷◌, arith,
}
use kdt_ai_2_hands_on_experi.Gateway.Service.{Error, Result, ok, err}
use kdt_ai_2_hands_on_experi.Gateway.Idempotency.{
  Begun, IdempotencyKey, IdempotencyStatus, Scope, begin, begin_found, complete, in_progress_row,
  get_record, or_200, or_body, run_begun, run_handled, run_idempotent, scope_eq,
}

scope_eq_refl : (k : Scope) → scope_eq k k ≡ true
scope_eq_refl k = ground arith

-- What the row of a finished request holds.
abbrev Finished : {B : Type 0} → B → Scope → ℕ → ℕ → B → List (IdempotencyKey B) → Type 0
Finished {B = B} empty k hash status body rows =
    (r : IdempotencyKey B) × (get_record k rows ≡ some r)
    × (r.request_hash ≡ hash)
    × (r.status ≡ IdempotencyStatus.completed)
    × (or_200 r.response_status ≡ status)
    × (or_body empty r.response_body ≡ body)

get_record-complete :
    {B : Type 0} (k : Scope) (status : ℕ) (body : B) (r : IdempotencyKey B)
    (rows : List (IdempotencyKey B))
    → get_record k rows ≡ some r
    → get_record k (complete k status body rows)
      ≡ some (record r {
        status = IdempotencyStatus.completed;
        response_status = some status;
        response_body = some body;
      })
get_record-complete k status body r [] h = cc
get_record-complete k status body r (x ∷ rows) h =
    ground (arith, get_record-complete k status body r rows)

module _ {B : Type 0} (empty : B) (k : Scope) (hash now : ℕ) where
  begin-Finished :
      (rows : List (IdempotencyKey B)) (status : ℕ) (body : B)
      → Finished empty k hash status body rows
      → begin empty k hash now rows ≡ (Begun.replay status body, rows)
  unfolding begin begin_found
  begin-Finished rows status body (r, found, same, done, same_status, same_body) =
      rw (found, done) (ground (arith, same, same_status, same_body))

module _ {B S : Type 0} (empty : B) (k : Scope) (hash success now : ℕ) where
  run_handled-Finished :
      (r : IdempotencyKey B) (rows : List (IdempotencyKey B)) (result : Result B × S) (status : ℕ)
      (body : B)
      → success ≢ 0
      → get_record k rows ≡ some r
      → r.request_hash ≡ hash
      → (run_handled k success rows result).0 ≡ ok (status, body)
      → Finished empty k hash status body (run_handled k success rows result).1
  unfolding run_handled
  run_handled-Finished r rows (err e, s) status body positive found same h = cc
  run_handled-Finished r rows (ok b, s) status body positive found same h = (
    _,
    get_record-complete k success b r rows found,
    same,
    refl,
    ground (arith, h, positive),
    ground (arith, h),
  )

  run_begun-Finished :
      (handler : S → Result B × S) (s : S) (rows : List (IdempotencyKey B))
      (o : Option (IdempotencyKey B)) (status : ℕ) (body : B)
      → success ≢ 0
      → get_record k rows ≡ o
      → (run_begun k success handler s (begin_found empty k hash now rows o)).0 ≡ ok (status, body)
      → Finished empty k hash status body
          (run_begun k success handler s (begin_found empty k hash now rows o)).1
  unfolding run_begun begin_found
  run_begun-Finished handler s rows none status body positive found h =
      run_handled-Finished (in_progress_row k hash now) (in_progress_row k hash now ∷ rows)
        (handler s) status body positive (ground (arith, scope_eq_refl k)) refl h
  run_begun-Finished handler s rows (some r) status body positive found h = (
    r,
    ground (arith, found, h),
    ground (arith, h),
    ground (arith, h),
    ground (arith, h),
    ground (arith, h),
  )

abbrev scope_of : (context operation key : ℕ) → Scope
scope_of context operation key = record {
  execution_context_id = context;
  operation = operation;
  idempotency_key = key;
}

-- After a call that replied, the same request under the same key is given the same reply, with the
-- first status, whatever its handler, its status and the time are: the handler does not run, and
-- neither the rows nor the state change.
pub run_idempotent-replay :
    {B S : Type 0} (empty : B) (context operation key hash success success' now now' : ℕ)
    (handler handler' : S → Result B × S) (rows : List (IdempotencyKey B)) (s later : S)
    (status : ℕ) (body : B)
    → success ≢ 0
    → (run_idempotent empty context operation (some key) hash success now handler rows s).0
      ≡ ok (status, body)
    → let rows' =
        (run_idempotent empty context operation (some key) hash success now handler rows s).1 in
      run_idempotent empty context operation (some key) hash success' now' handler' rows' later
      ≡ (ok (status, body), rows', later)
unfolding run_idempotent run_begun begin
run_idempotent-replay empty context operation key hash success success' now now' handler handler'
      rows s later status body positive h =
    let k = scope_of context operation key in
    let finished =
      run_begun-Finished empty k hash success now handler s rows (get_record k rows) status body
        positive refl h in
    rw (begin-Finished empty k hash now' _ status body finished) refl

-- A first call whose handler raises raises the same error and leaves its key in progress: from then on
-- the same request under that key is refused as in progress, at any time, also after the key's expiry,
-- and whatever its handler would now do.
pub run_idempotent-stuck :
    {B S : Type 0} (empty : B) (context operation key hash success success' now now' : ℕ)
    (handler handler' : S → Result B × S) (rows : List (IdempotencyKey B)) (s later : S) (e : Error)
    → get_record
        (record { execution_context_id = context; operation = operation; idempotency_key = key })
        rows
      ≡ none
    → (handler s).0 ≡ err e
    → let result =
        run_idempotent empty context operation (some key) hash success now handler rows s in
      (result.0 ≡ err e)
      × (run_idempotent empty context operation
            (some key)
            hash
            success'
            now'
            handler'
            result.1
            later
          ≡ (err Error.idempotency_request_in_progress, result.1, later))
unfolding run_idempotent run_begun begin begin_found run_handled
run_idempotent-stuck empty context operation key hash success success' now now' handler handler'
      rows s later e fresh raises =
    let k = scope_of context operation key in rw (fresh, raises) (ground (arith, scope_eq_refl k))
