-- ===== src/Gateway/PendingInput/Activity.antt =====
-- A chat session waits for one answer at most, and an answer is taken once.
use kdt_ai_2_hands_on_experi.Common.{
  ℕ, suc, ◌≤◌, ◌<◌, ◌≡◌, refl, true, Option, none, some, List, [], ◌∷◌, if◌then◌else◌, arith, subst,
}
use kdt_ai_2_hands_on_experi.Gateway.PendingInput.{
  event_request, register_read, InputError, InputMetadata, InputReply, InputRequest, PendingInput,
  any_where, cancel_input, cancel_active_pending_inputs, consume_input, consume_found,
  consume_pending_input, get_pending_input_by_request_id, is_active, is_active_in, is_active_row,
  mark_pending_input_consumed, register_pending_input, register_pending_input_from_event,
  update_where,
}

-- How many questions of a session wait for an answer.
abbrev pub active_count : (session : ℕ) → List PendingInput → ℕ
active_count session [] = 0
active_count session (p ∷ ps) =
    let rest = active_count session ps in if is_active_in session p then suc rest else rest

active_count-cancel :
    (session : ℕ) (rows : List PendingInput)
    → active_count session (update_where (is_active_in session) cancel_input rows) ≡ 0
active_count-cancel session [] = refl
active_count-cancel session (p ∷ ps) = ground (arith, active_count-cancel session ps)

active_count-cancel_le :
    (j session : ℕ) (rows : List PendingInput)
    → active_count j (update_where (is_active_in session) cancel_input rows) ≤ active_count j rows
active_count-cancel_le j session [] = omega arith
active_count-cancel_le j session (p ∷ ps) = ground (arith, active_count-cancel_le j session ps)

active_count-consume_le :
    (j id now : ℕ) (rows : List PendingInput)
    → active_count j (update_where (is_active_row id) (consume_input now) rows)
      ≤ active_count j rows
active_count-consume_le j id now [] = omega arith
active_count-consume_le j id now (p ∷ ps) = ground (arith, active_count-consume_le j id now ps)

abbrev IsSingle : List PendingInput → Type 0
IsSingle rows = (session : ℕ) → active_count session rows ≤ 1

register_pending_input-IsSingle :
    (session : ℕ) (req : InputRequest) (now id : ℕ) (rows : List PendingInput)
    → IsSingle rows
    → IsSingle (register_pending_input session req now id rows).1
unfolding register_pending_input cancel_active_pending_inputs
register_pending_input-IsSingle session req now id rows h j =
    ground (arith, h j, active_count-cancel session rows, active_count-cancel_le j session rows)

mark_pending_input_consumed-IsSingle :
    (p : PendingInput) (now : ℕ) (rows : List PendingInput)
    → IsSingle rows
    → IsSingle (mark_pending_input_consumed p now rows).1
unfolding mark_pending_input_consumed
mark_pending_input_consumed-IsSingle p now rows h j =
    ground (arith, h j, active_count-consume_le j p.id now rows)

register_read-IsSingle :
    (session : ℕ) (o : Option InputRequest) (now id : ℕ) (rows : List PendingInput)
    → IsSingle rows
    → IsSingle (register_read session o now id rows).1
unfolding register_read
register_read-IsSingle session none now id rows h = h
register_read-IsSingle session (some req) now id rows h =
    register_pending_input-IsSingle session req now id rows h

consume_found-IsSingle :
    (session now : ℕ) (o : Option PendingInput) (rows : List PendingInput)
    → IsSingle rows
    → IsSingle (consume_found session now o rows).1
unfolding consume_found
consume_found-IsSingle session now none rows h j = h j
consume_found-IsSingle session now (some p) rows h j =
    ground (arith, h j, mark_pending_input_consumed-IsSingle p now rows h j)

-- The calls that write the table, with what the clock and the database draw for them.
pub data InputCall : Type 0 where
  register_call : (session : ℕ) → InputRequest → (now id : ℕ) → InputCall
  event_call : (session : ℕ) → InputMetadata → Option ℕ → (now id : ℕ) → InputCall
  consume_call : (session k now : ℕ) → InputCall

unfoldable pub run_call : InputCall → List PendingInput → List PendingInput
run_call (register_call session req now id) rows =
    (register_pending_input session req now id rows).1
run_call (event_call session metadata context now id) rows =
    (register_pending_input_from_event session metadata context now id rows).1
run_call (consume_call session k now) rows = (consume_pending_input session k now rows).1

pub data ReachableInputs : List PendingInput → Type 0 where
  start : ReachableInputs []
  step :
      {rows : List PendingInput} (call : InputCall)
      → ReachableInputs rows
      → ReachableInputs (run_call call rows)

-- Whatever registrations, events and submissions come in, in any order, at most one question of a chat
-- session waits for an answer.
pub ReachableInputs-active_count :
    {rows : List PendingInput}
    → ReachableInputs rows
    → (session : ℕ) → active_count session rows ≤ 1
unfolding run_call register_pending_input_from_event consume_pending_input
ReachableInputs-active_count start session = omega arith
ReachableInputs-active_count (step {rows = rows} (register_call j req now id) h) session =
    register_pending_input-IsSingle j req now id rows (ReachableInputs-active_count h) session
ReachableInputs-active_count (step {rows = rows} (event_call j metadata context now id) h) session =
    register_read-IsSingle j (event_request metadata context) now id rows
      (ReachableInputs-active_count h) session
ReachableInputs-active_count (step {rows = rows} (consume_call j k now) h) session =
    consume_found-IsSingle j now (get_pending_input_by_request_id k rows) rows
      (ReachableInputs-active_count h) session

any_where-get :
    (k : ℕ) (p : PendingInput) (rows : List PendingInput)
    → get_pending_input_by_request_id k rows ≡ some p
    → is_active p ≡ true
    → any_where (is_active_row p.id) rows ≡ true
any_where-get k p [] h active = cc
any_where-get k p (q ∷ rows) h active = ground (arith, any_where-get k p rows)

get-consume :
    (k now : ℕ) (p : PendingInput) (rows : List PendingInput)
    → get_pending_input_by_request_id k rows ≡ some p
    → is_active p ≡ true
    → get_pending_input_by_request_id k (update_where (is_active_row p.id) (consume_input now) rows)
      ≡ some (consume_input now p)
get-consume k now p [] h active = cc
get-consume k now p (q ∷ rows) h active = ground (arith, get-consume k now p rows)

-- The newest row of the request is the session's, waits for an answer and has not expired.
pub record IsOpen (session k now : ℕ) (rows : List PendingInput) (p : PendingInput) : Type 0 where
  pub stored : get_pending_input_by_request_id k rows ≡ some p
  pub same_session : p.chat_session_id ≡ session
  pub alive : now < p.expires_at
  pub waiting : is_active p ≡ true

consume_found-IsOpen :
    (session k now : ℕ) (rows : List PendingInput) (a : PendingInput) (o : Option PendingInput)
    → get_pending_input_by_request_id k rows ≡ o
    → (consume_found session now o rows).0 ≡ InputReply.answered a
    → (p : PendingInput) × IsOpen session k now rows p × (a ≡ consume_input now p)
unfolding consume_found mark_pending_input_consumed
consume_found-IsOpen session k now rows a none found h = cc
consume_found-IsOpen session k now rows a (some p) found h = (
  p,
  record {
    stored = found;
    same_session = ground (arith, h);
    alive = ground (arith, h);
    waiting = ground (arith, h);
  },
  ground (arith, h),
)

consume_found-open :
    (session k now : ℕ) (rows : List PendingInput) (p : PendingInput)
    → IsOpen session k now rows p
    → consume_found session now (some p) rows ≡ (
      InputReply.answered (consume_input now p),
      update_where (is_active_row p.id) (consume_input now) rows,
    )
unfolding consume_found mark_pending_input_consumed
consume_found-open session k now rows p h =
    ground (arith, h.same_session, h.alive, h.waiting, any_where-get k p rows h.stored h.waiting)

consume_found-conflict :
    (session now later : ℕ) (p : PendingInput) (rows : List PendingInput)
    → later < p.expires_at
    → p.chat_session_id ≡ session
    → consume_found session later (some (consume_input now p)) rows
      ≡ (InputReply.refused InputError.conflict, rows)
unfolding consume_found
consume_found-conflict session now later p rows alive same = ground (arith, alive, same)

-- A submission that is answered takes the newest question of the request, which was the session's,
-- open and not expired; and a second submission of the same request is refused with a conflict for as
-- long as it would have been alive, and changes nothing.
pub consume_pending_input-once :
    (session k now later : ℕ) (rows : List PendingInput) (a : PendingInput)
    → (consume_pending_input session k now rows).0 ≡ InputReply.answered a
    → let rows' = (consume_pending_input session k now rows).1 in
      ((p : PendingInput) × IsOpen session k now rows p × (a ≡ consume_input now p))
      × (later < a.expires_at
          → consume_pending_input session k later rows'
            ≡ (InputReply.refused InputError.conflict, rows'))
unfolding consume_pending_input
consume_pending_input-once session k now later rows a h =
    let (p, opened, equal) =
      consume_found-IsOpen session k now rows a (get_pending_input_by_request_id k rows) refl h in
    (
      (p, opened, equal),
      λ alive.
          rw
            (
              opened.stored,
              consume_found-open session k now rows p opened,
              get-consume k now p rows opened.stored opened.waiting,
            )
            (consume_found-conflict session now later p
              (update_where (is_active_row p.id) (consume_input now) rows)
              (subst (λ b. later < b.expires_at) equal alive) opened.same_session),
    )
