-- ===== src/Gateway/AuthContext.antt =====
-- services/auth_context_service.py, repository/auth_context_repository.py, auth_tool_service.py and
-- the password check of chat_service.py.
pub mod Laws
pub mod Attempts
use kdt_ai_2_hands_on_experi.Common.{
  ℕ, ◌+◌, Bool, not, Option, none, some, List, [], ◌∷◌, ◌&&◌, ◌||◌, ◌==◌, leb, ltb, if◌then◌else◌,
}
use kdt_ai_2_hands_on_experi.Gateway.Rows.{
  AuditEvent, AuthContext, AuthContextStatus, Confirmation, ExecutionContext, FinancialAuditLog,
  Store, auth_status_eq,
}
use kdt_ai_2_hands_on_experi.Gateway.Service.{Error, Result, ok, err, auth_context_ttl_seconds}
use kdt_ai_2_hands_on_experi.Gateway.Confirmation.{load_for_auth}

-- `get_auth_context_by_id`
abbrev pub get_auth_context : ℕ → List AuthContext → Option AuthContext
get_auth_context k [] = none
get_auth_context k (a ∷ rest) = if k == a.id then some a else get_auth_context k rest

-- `get_active_auth_context`: a pending, unexpired attempt for the confirmation
abbrev pub get_active_auth_context : ℕ → ℕ → List AuthContext → Option AuthContext
get_active_auth_context k now [] = none
get_active_auth_context k now (a ∷ rest) =
    if a.confirmation_id == k
      && auth_status_eq a.status AuthContextStatus.pending
      && ltb now a.expires_at
    then some a
    else get_active_auth_context k now rest

abbrev pub update_auth_context :
    ℕ → (AuthContext → AuthContext) → List AuthContext → List AuthContext
update_auth_context k f [] = []
update_auth_context k f (a ∷ rest) = (if k == a.id then f a else a) ∷ update_auth_context k f rest

abbrev with_auth_contexts : (List AuthContext → List AuthContext) → Store → Store
with_auth_contexts f s = record s { auth_contexts = f s.auth_contexts }

reuse_or_create :
    ExecutionContext → Confirmation → ℕ → ℕ → Store → Option AuthContext → AuthContext × Store
reuse_or_create ctx c now id s (some a) = (a, s)
reuse_or_create ctx c now id s none =
    let a : AuthContext = record {
      id = id;
      confirmation_id = c.id;
      user_id = ctx.user_id;
      status = AuthContextStatus.pending;
      expires_at = now + auth_context_ttl_seconds;
      verified_at = none;
    } in
    (a, with_auth_contexts (λ rows. a ∷ rows) s)

-- `create_for_confirmation`, with the id that the database draws
unfoldable pub create_for_confirmation :
    ExecutionContext → Confirmation → ℕ → ℕ → Store → AuthContext × Store
unfolding reuse_or_create
create_for_confirmation ctx c now id s =
    reuse_or_create ctx c now id s (get_active_auth_context c.id now s.auth_contexts)

check_verified :
    ExecutionContext → Confirmation → ℕ → Option AuthContext → Result (Option AuthContext)
check_verified ctx c now none = err Error.auth_required
check_verified ctx c now (some a) =
    if not (a.user_id == ctx.user_id)
    then err Error.auth_required
    else if not (a.confirmation_id == c.id)
    then err Error.auth_required
    else if auth_status_eq a.status AuthContextStatus.expired
    then ok none
    else if leb a.expires_at now
    then ok none
    else if not (auth_status_eq a.status AuthContextStatus.verified)
    then err Error.auth_required
    else ok (some a)

-- `load_verified`: `none` asks for a new authentication
unfoldable pub load_verified :
    ExecutionContext → Option ℕ → Confirmation → ℕ → Store → Result (Option AuthContext)
unfolding check_verified
load_verified ctx none c now s = err Error.auth_required
load_verified ctx (some k) c now s = check_verified ctx c now (get_auth_context k s.auth_contexts)

unfoldable pub mark_verified : ℕ → AuthContext → Store → Store
mark_verified now a = with_auth_contexts (
    update_auth_context a.id
      (λ b. record b { status = AuthContextStatus.verified; verified_at = some now }))

abbrev set_status : AuthContextStatus → AuthContext → Store → Store
set_status status a =
    with_auth_contexts (update_auth_context a.id (λ b. record b { status = status }))

-- `invalidate`
unfoldable pub invalidate : AuthContext → Store → Store
invalidate a = set_status AuthContextStatus.expired a

abbrev pub record_audit : FinancialAuditLog → Store → Store
record_audit log s = record s { audit_logs = log ∷ s.audit_logs }

create_for_loaded :
    ExecutionContext → ℕ → ℕ → Store → Result Confirmation → Result AuthContext × Store
unfolding create_for_confirmation
create_for_loaded ctx now id s (err e) = (err e, s)
create_for_loaded ctx now id s (ok c) =
    let (a, s') = create_for_confirmation ctx c now id s in
    (
      ok a,
      record_audit
          (record {
            user_id = ctx.user_id;
            event_type = AuditEvent.auth_context_created;
            operation = c.operation;
            confirmation_id = c.id;
            auth_context_id = some a.id;
            transaction_id = none;
          })
          s',
    )

-- `create_auth_context` of auth_tool_service.py
unfoldable pub create_auth_context :
    ExecutionContext → Option ℕ → ℕ → ℕ → Store → Result AuthContext × Store
unfolding create_for_loaded
create_auth_context ctx k now id s = create_for_loaded ctx now id s (load_for_auth ctx k now s)

-- What the user sent: a cancellation, or a password, with the verdict of the password hash.
pub data Attempt : Type 0 where
  cancel : Attempt
  password : Bool → Attempt

pub data AuthReply : Type 0 where
  not_found gone conflict : AuthReply
  replied : AuthContextStatus → AuthReply

apply_attempt : ℕ → AuthContext → Store → Attempt → AuthReply × Store
unfolding mark_verified
apply_attempt now a s cancel =
    (AuthReply.replied AuthContextStatus.cancelled, set_status AuthContextStatus.cancelled a s)
apply_attempt now a s (password matches) =
    if matches
    then (AuthReply.replied AuthContextStatus.verified, mark_verified now a s)
    else (AuthReply.replied AuthContextStatus.failed, set_status AuthContextStatus.failed a s)

authenticate_found : ℕ → ℕ → Attempt → Store → Option AuthContext → AuthReply × Store
unfolding apply_attempt
authenticate_found user now attempt s none = (AuthReply.not_found, s)
authenticate_found user now attempt s (some a) =
    if not (a.user_id == user)
    then (AuthReply.not_found, s)
    else if auth_status_eq a.status AuthContextStatus.expired || leb a.expires_at now
    then (AuthReply.gone, s)
    else if not (auth_status_eq a.status AuthContextStatus.pending)
    then (AuthReply.conflict, s)
    else apply_attempt now a s attempt

-- `authenticate_and_resume`, up to the resumption of the agent
unfoldable pub authenticate : ℕ → Option ℕ → ℕ → Attempt → Store → AuthReply × Store
unfolding authenticate_found
authenticate user none now attempt s = (AuthReply.not_found, s)
authenticate user (some k) now attempt s =
    authenticate_found user now attempt s (get_auth_context k s.auth_contexts)
