-- ===== src/Gateway/Confirmation.antt =====
-- services/confirmation_service.py, repository/confirmation_repository.py, and the approval of
-- services/chat_service.py.
pub mod Laws
pub mod Decisions
use kdt_ai_2_hands_on_experi.Common.{
  ℕ, ◌+◌, Bool, true, false, not, Option, none, some, List, [], ◌∷◌, ◌&&◌, ◌||◌, ◌==◌, leb,
  if◌then◌else◌,
}
use kdt_ai_2_hands_on_experi.Common.Int.{ℤ, pos, ◌+ℤ◌}
use kdt_ai_2_hands_on_experi.Gateway.Rows.{
  Confirmation, ConfirmationOperation, ConfirmationStatus, ExecutionContext, FixedData, Store,
  status_eq, operation_eq,
}
use kdt_ai_2_hands_on_experi.Gateway.Service.{Error, Result, ok, err, confirmation_ttl_seconds}

-- `get_confirmation_by_id`
abbrev pub get_confirmation : ℕ → List Confirmation → Option Confirmation
get_confirmation k [] = none
get_confirmation k (c ∷ rest) = if k == c.id then some c else get_confirmation k rest

-- `UPDATE confirmations SET … WHERE id = k`
abbrev pub update_confirmation :
    ℕ → (Confirmation → Confirmation) → List Confirmation → List Confirmation
update_confirmation k f [] = []
update_confirmation k f (c ∷ rest) = (if k == c.id then f c else c) ∷ update_confirmation k f rest

abbrev with_confirmations : (List Confirmation → List Confirmation) → Store → Store
with_confirmations f s = record s { confirmations = f s.confirmations }

-- `create_pending`, with the id that the database draws
unfoldable pub create_pending :
    ExecutionContext → ConfirmationOperation → FixedData → ℕ → ℕ → Store → Confirmation × Store
create_pending ctx operation fixed now id s =
    let c : Confirmation = record {
      id = id;
      execution_context_id = ctx.execution_context_id;
      user_id = ctx.user_id;
      operation = operation;
      status = ConfirmationStatus.pending;
      fixed_data = fixed;
      expires_at = now + confirmation_ttl_seconds;
      approved_at = none;
      executed_at = none;
    } in
    (c, with_confirmations (λ cs. c ∷ cs) s)

abbrev contains_operation : ConfirmationOperation → List ConfirmationOperation → Bool
contains_operation o [] = false
contains_operation o (p ∷ rest) = operation_eq o p || contains_operation o rest

check_approved :
    ExecutionContext → List ConfirmationOperation → ℕ → Option Confirmation → Result Confirmation
check_approved ctx allowed now none = err Error.confirmation_mismatch
check_approved ctx allowed now (some c) =
    if not (c.user_id == ctx.user_id)
    then err Error.confirmation_mismatch
    else if not (contains_operation c.operation allowed)
    then err Error.confirmation_mismatch
    else if status_eq c.status ConfirmationStatus.expired
    then err Error.confirmation_expired
    else if leb c.expires_at now
    then err Error.confirmation_expired
    else if status_eq c.status ConfirmationStatus.pending
    then err Error.confirmation_required
    else if not (status_eq c.status ConfirmationStatus.approved)
    then err Error.confirmation_mismatch
    else ok c

-- `_load_approved`. An id is what `UUID(raw)` gave, `none` where it raised.
unfoldable pub load_approved :
    ExecutionContext → Option ℕ → List ConfirmationOperation → ℕ → Store → Result Confirmation
unfolding check_approved
load_approved ctx none allowed now s = err Error.confirmation_mismatch
load_approved ctx (some k) allowed now s =
    check_approved ctx allowed now (get_confirmation k s.confirmations)

unfoldable pub load_for_execute :
    ExecutionContext → Option ℕ → ConfirmationOperation → ℕ → Store → Result Confirmation
unfolding load_approved
load_for_execute ctx k operation now s = load_approved ctx k (operation ∷ []) now s

-- `_AUTH_ELIGIBLE_OPERATIONS`
abbrev auth_eligible_operations : List ConfirmationOperation
auth_eligible_operations =
    ConfirmationOperation.internal_transfer ∷ ConfirmationOperation.external_transfer ∷ []

unfoldable pub load_for_auth : ExecutionContext → Option ℕ → ℕ → Store → Result Confirmation
unfolding load_approved
load_for_auth ctx k now s = load_approved ctx k auth_eligible_operations now s

-- `set_confirmation_status` by `approve`
unfoldable pub approve : ℕ → Confirmation → Store → Store
approve now c = with_confirmations (
    update_confirmation c.id
      (λ d. record d { status = ConfirmationStatus.approved; approved_at = some now }))

-- `set_confirmation_status` by `invalidate`
unfoldable pub invalidate : Confirmation → Store → Store
invalidate c =
    with_confirmations
      (update_confirmation c.id (λ d. record d { status = ConfirmationStatus.invalidated }))

abbrev pub execute_approved : ℕ → Confirmation → Confirmation
execute_approved now d =
    if status_eq d.status ConfirmationStatus.approved
    then record d { status = ConfirmationStatus.executed; executed_at = some now }
    else d

abbrev pub is_approved : Option Confirmation → Bool
is_approved none = false
is_approved (some c) = status_eq c.status ConfirmationStatus.approved

-- `mark_executed`: a conditional UPDATE; the flag says whether a row was changed.
unfoldable pub mark_executed : ℕ → Confirmation → Store → Bool × Store
mark_executed now c s = (
  is_approved (get_confirmation c.id s.confirmations),
  with_confirmations (update_confirmation c.id (execute_approved now)) s,
)

-- `int(fixed_data.get("amount", 0))`
abbrev pub amount_of : FixedData → ℤ
amount_of (FixedData.internal_data f t amount) = amount
amount_of (FixedData.external_data f r name amount) = amount
amount_of (FixedData.default_account_data k) = pos 0
amount_of (FixedData.account_alias_data k alias) = pos 0

abbrev since_or_never : ℕ → Option ℕ → Bool
since_or_never since none = false
since_or_never since (some t) = leb since t

-- The WHERE clause of `get_executed_transfers_since`
abbrev is_executed_since : ℕ → ℕ → Confirmation → Bool
is_executed_since user since c =
    c.user_id == user
    && status_eq c.status ConfirmationStatus.executed
    && contains_operation c.operation auth_eligible_operations
    && since_or_never since c.executed_at

-- `_daily_transferred_amount`: the sum over those rows
abbrev pub executed_amount : ℕ → ℕ → List Confirmation → ℤ
executed_amount user since [] = pos 0
executed_amount user since (c ∷ rest) =
    (if is_executed_since user since c then amount_of c.fixed_data else pos 0)
    +ℤ executed_amount user since rest

-- `_load_owned_confirmation` of chat_service.py; an HTTP status for each refusal
pub data Decision : Type 0 where
  not_found gone conflict : Decision
  applied : Decision

-- `_apply_confirmation_decision` on the loaded row: approve, or anything else invalidates
decide_found : ℕ → ℕ → Bool → Store → Option Confirmation → Decision × Store
unfolding approve invalidate
decide_found user now approves s none = (Decision.not_found, s)
decide_found user now approves s (some c) =
    if not (c.user_id == user)
    then (Decision.not_found, s)
    else if status_eq c.status ConfirmationStatus.expired || leb c.expires_at now
    then (Decision.gone, s)
    else if not (status_eq c.status ConfirmationStatus.pending)
    then (Decision.conflict, s)
    else (Decision.applied, if approves then approve now c s else invalidate c s)

unfoldable pub decide : ℕ → Option ℕ → ℕ → Bool → Store → Decision × Store
unfolding decide_found
decide user none now approves s = (Decision.not_found, s)
decide user (some k) now approves s =
    decide_found user now approves s (get_confirmation k s.confirmations)

-- The component of a confirm card: those of `_CONFIRMATION_COMPONENTS`, and any other or none.
pub data Component : Type 0 where
  account_alias default_account external_transfer internal_transfer other : Component

abbrev is_confirmation_component : Component → Bool
is_confirmation_component Component.other = false
is_confirmation_component _ = true

-- The row is loaded and checked in any case; only for a confirmation's component the decision is applied.
unfoldable pub resume_after_approval :
    Component → ℕ → Option ℕ → ℕ → Bool → Store → Decision × Store
unfolding decide
resume_after_approval component user k now approves s =
    let result = decide user k now approves s in
    (result.0, if is_confirmation_component component then result.1 else s)
