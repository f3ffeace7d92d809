-- ===== src/Gateway/AuthContext/Attempts.antt =====
-- services/chat_service.py: what a user's attempt does to an authentication.
use kdt_ai_2_hands_on_experi.Common.{
  ℕ, ◌<◌, ◌≡◌, ◌≢◌, refl, sym, ◌∙◌, subst, true, false, Option, none, some, arith,
}
use kdt_ai_2_hands_on_experi.Gateway.Rows.{
  AuthContext, AuthContextStatus, Confirmation, ExecutionContext, Store,
}
use kdt_ai_2_hands_on_experi.Gateway.Service.{Result, ok, err}
use kdt_ai_2_hands_on_experi.Gateway.Confirmation.{load_for_auth}
use kdt_ai_2_hands_on_experi.Gateway.AuthContext.{
  Attempt, AuthReply, create_auth_context, create_for_confirmation, create_for_loaded,
  get_active_auth_context, reuse_or_create, apply_attempt, authenticate, authenticate_found, cancel,
  get_auth_context, mark_verified, password, update_auth_context,
}
use kdt_ai_2_hands_on_experi.Gateway.AuthContext.Laws.{
  auth_status_eq→eq, get_auth_context-id, get_auth_context-update_self, get_auth_context-update_ne,
}

-- The status that an attempt earns.
abbrev pub verdict : Attempt → AuthContextStatus
verdict cancel = AuthContextStatus.cancelled
verdict (password true) = AuthContextStatus.verified
verdict (password false) = AuthContextStatus.failed

pub record Attempts (user : ℕ) (k : ℕ) (now : ℕ) (attempt : Attempt) (s s' : Store)
    (a : AuthContext) : Type 0 where
  pub stored : get_auth_context k s.auth_contexts ≡ some a
  pub owner : a.user_id ≡ user
  pub status : a.status ≡ AuthContextStatus.pending
  pub alive : now < a.expires_at
  pub written :
      (a' : AuthContext) × (get_auth_context k s'.auth_contexts ≡ some a')
      × (a'.status ≡ verdict attempt)
  pub others :
      (j : ℕ) → j ≢ k → get_auth_context j s'.auth_contexts ≡ get_auth_context j s.auth_contexts
  pub same_confirmations : s'.confirmations ≡ s.confirmations

update-Attempts :
    (user k now : ℕ) (attempt : Attempt) (s : Store) (a : AuthContext)
    (f : AuthContext → AuthContext)
    → ((b : AuthContext) → (f b).id ≡ b.id)
    → (f a).status ≡ verdict attempt
    → get_auth_context k s.auth_contexts ≡ some a
    → a.user_id ≡ user
    → a.status ≡ AuthContextStatus.pending
    → now < a.expires_at
    → Attempts user k now attempt s
        (record s { auth_contexts = update_auth_context a.id f s.auth_contexts })
        a
update-Attempts user k now attempt s a f keeps earned stored owner status alive =
    let same = get_auth_context-id k a s.auth_contexts stored in
    record {
      stored = stored;
      owner = owner;
      status = status;
      alive = alive;
      written = (
        f a,
        subst (λ j. get_auth_context k (update_auth_context j f s.auth_contexts) ≡ some (f a))
            (sym same) (get_auth_context-update_self k f a s.auth_contexts keeps stored),
        earned,
      );
      others =
          λ j ne. get_auth_context-update_ne j a.id f s.auth_contexts keeps (λ e. ne (e ∙ same));
      same_confirmations = refl;
    }

apply_attempt-Attempts :
    (user k now : ℕ) (attempt : Attempt) (s : Store) (a : AuthContext)
    → get_auth_context k s.auth_contexts ≡ some a
    → a.user_id ≡ user
    → a.status ≡ AuthContextStatus.pending
    → now < a.expires_at
    → Attempts user k now attempt s (apply_attempt now a s attempt).1 a
unfolding apply_attempt mark_verified
apply_attempt-Attempts user k now cancel s a =
    update-Attempts user k now cancel s a _ (λ b. refl) refl
apply_attempt-Attempts user k now (password true) s a =
    update-Attempts user k now (password true) s a _ (λ b. refl) refl
apply_attempt-Attempts user k now (password false) s a =
    update-Attempts user k now (password false) s a _ (λ b. refl) refl

authenticate_found-Attempts :
    (user k now : ℕ) (attempt : Attempt) (s : Store) (o : Option AuthContext)
    (status : AuthContextStatus)
    → get_auth_context k s.auth_contexts ≡ o
    → (authenticate_found user now attempt s o).0 ≡ AuthReply.replied status
    → (a : AuthContext) × Attempts user k now attempt s
        (authenticate_found user now attempt s o).1
        a
unfolding authenticate_found
authenticate_found-Attempts user k now attempt s none status found h = cc
authenticate_found-Attempts user k now attempt s (some a) status found h =
    let written : (authenticate_found user now attempt s (some a)).1
        ≡ (apply_attempt now a s attempt).1 =
      ground (arith, h) in
    (
      a,
      subst (λ s'. Attempts user k now attempt s s' a) (sym written)
          (apply_attempt-Attempts user k now attempt s a found (ground (arith, h))
            (ground (arith, h, auth_status_eq→eq a.status AuthContextStatus.pending))
            (ground (arith, h))),
    )

-- An attempt that is answered with a status was on a pending, unexpired authentication of the user.
-- It leaves that row verified exactly for the right password, failed for a wrong one and cancelled for
-- a cancellation, and it changes no other authentication and no confirmation.
pub authenticate-Attempts :
    (user k now : ℕ) (attempt : Attempt) (s : Store) (status : AuthContextStatus)
    → (authenticate user (some k) now attempt s).0 ≡ AuthReply.replied status
    → (a : AuthContext) × Attempts user k now attempt s
        (authenticate user (some k) now attempt s).1
        a
unfolding authenticate
authenticate-Attempts user k now attempt s status h =
    authenticate_found-Attempts user k now attempt s (get_auth_context k s.auth_contexts) status
      refl h

-- No operation on authentications touches a confirmation.
apply_attempt-rows :
    (now : ℕ) (a : AuthContext) (s : Store) (attempt : Attempt)
    → ((apply_attempt now a s attempt).1.confirmations ≡ s.confirmations)
      × ((apply_attempt now a s attempt).1.accounts ≡ s.accounts)
unfolding apply_attempt mark_verified
apply_attempt-rows now a s cancel = (refl, refl)
apply_attempt-rows now a s (password true) = (refl, refl)
apply_attempt-rows now a s (password false) = (refl, refl)

authenticate_found-rows :
    (user now : ℕ) (attempt : Attempt) (s : Store) (o : Option AuthContext)
    → ((authenticate_found user now attempt s o).1.confirmations ≡ s.confirmations)
      × ((authenticate_found user now attempt s o).1.accounts ≡ s.accounts)
unfolding authenticate_found
authenticate_found-rows user now attempt s none = (refl, refl)
authenticate_found-rows user now attempt s (some a) =
    ground (arith, apply_attempt-rows now a s attempt)

pub authenticate-rows :
    (user : ℕ) (k : Option ℕ) (now : ℕ) (attempt : Attempt) (s : Store)
    → ((authenticate user k now attempt s).1.confirmations ≡ s.confirmations)
      × ((authenticate user k now attempt s).1.accounts ≡ s.accounts)
unfolding authenticate
authenticate-rows user none now attempt s = (refl, refl)
authenticate-rows user (some k) now attempt s =
    authenticate_found-rows user now attempt s (get_auth_context k s.auth_contexts)

reuse_or_create-rows :
    (ctx : ExecutionContext) (c : Confirmation) (now id : ℕ) (s : Store) (o : Option AuthContext)
    → ((reuse_or_create ctx c now id s o).1.confirmations ≡ s.confirmations)
      × ((reuse_or_create ctx c now id s o).1.accounts ≡ s.accounts)
unfolding reuse_or_create
reuse_or_create-rows ctx c now id s none = (refl, refl)
reuse_or_create-rows ctx c now id s (some a) = (refl, refl)

create_for_loaded-rows :
    (ctx : ExecutionContext) (now id : ℕ) (s : Store) (o : Result Confirmation)
    → ((create_for_loaded ctx now id s o).1.confirmations ≡ s.confirmations)
      × ((create_for_loaded ctx now id s o).1.accounts ≡ s.accounts)
unfolding create_for_loaded create_for_confirmation
create_for_loaded-rows ctx now id s (err e) = (refl, refl)
create_for_loaded-rows ctx now id s (ok c) =
    reuse_or_create-rows ctx c now id s (get_active_auth_context c.id now s.auth_contexts)

pub create_auth_context-rows :
    (ctx : ExecutionContext) (k : Option ℕ) (now id : ℕ) (s : Store)
    → ((create_auth_context ctx k now id s).1.confirmations ≡ s.confirmations)
      × ((create_auth_context ctx k now id s).1.accounts ≡ s.accounts)
unfolding create_auth_context
create_auth_context-rows ctx k now id s =
    create_for_loaded-rows ctx now id s (load_for_auth ctx k now s)
