-- ===== src/Gateway/AuthContext/Laws.antt =====
-- When an authentication counts for a confirmation, and what an attempt does to it.
use kdt_ai_2_hands_on_experi.Common.{
  ℕ, ◌<◌, ◌≡◌, ◌≢◌, ◌↔◌, refl, sym, subst, true, Option, none, some, List, [], ◌∷◌, arith,
}
use kdt_ai_2_hands_on_experi.Gateway.Rows.{
  AuthContext, AuthContextStatus, Confirmation, ExecutionContext, Store, auth_status_eq,
}
use kdt_ai_2_hands_on_experi.Gateway.Service.{ok}
use kdt_ai_2_hands_on_experi.Gateway.AuthContext.{
  check_verified, get_auth_context, load_verified, update_auth_context,
}

pub auth_status_eq→eq : (a b : AuthContextStatus) → auth_status_eq a b ≡ true → a ≡ b
auth_status_eq→eq a b h = ground arith

pub get_auth_context-id :
    (k : ℕ) (a : AuthContext) (rows : List AuthContext)
    → get_auth_context k rows ≡ some a
    → a.id ≡ k
get_auth_context-id k a [] h = cc
get_auth_context-id k a (b ∷ rows) h = ground (arith, get_auth_context-id k a rows)

-- The authentication `a` that the id names is the user's, for the confirmation, verified and alive.
pub record IsVerified (ctx : ExecutionContext) (k : Option ℕ) (c : Confirmation) (now : ℕ)
    (s : Store) (a : AuthContext) : Type 0 where
  pub id : k ≡ some a.id
  pub stored : get_auth_context a.id s.auth_contexts ≡ some a
  pub owner : a.user_id ≡ ctx.user_id
  pub confirmation : a.confirmation_id ≡ c.id
  pub status : a.status ≡ AuthContextStatus.verified
  pub alive : now < a.expires_at

check_verified_sound :
    (ctx : ExecutionContext) (c : Confirmation) (now : ℕ) (o : Option AuthContext) (a : AuthContext)
    → check_verified ctx c now o ≡ ok (some a)
    → (o ≡ some a)
      × (a.user_id ≡ ctx.user_id)
      × (a.confirmation_id ≡ c.id)
      × (a.status ≡ AuthContextStatus.verified)
      × (now < a.expires_at)
unfolding check_verified
check_verified_sound ctx c now none a h = cc
check_verified_sound ctx c now (some b) a h =
    ground (arith, auth_status_eq→eq b.status AuthContextStatus.verified)

load_verified_sound :
    (ctx : ExecutionContext) (k : Option ℕ) (c : Confirmation) (now : ℕ) (s : Store)
    (a : AuthContext)
    → load_verified ctx k c now s ≡ ok (some a)
    → IsVerified ctx k c now s a
unfolding load_verified
load_verified_sound ctx none c now s a h = cc
load_verified_sound ctx (some k) c now s a h =
    let (found, owner, confirmation, status, alive) =
      check_verified_sound ctx c now (get_auth_context k s.auth_contexts) a h in
    let same_id = get_auth_context-id k a s.auth_contexts found in
    record {
      id = ground (arith, same_id);
      stored = subst (λ j. get_auth_context j s.auth_contexts ≡ some a) (sym same_id) found;
      owner = owner;
      confirmation = confirmation;
      status = status;
      alive = alive;
    }

load_verified_complete :
    (ctx : ExecutionContext) (k : Option ℕ) (c : Confirmation) (now : ℕ) (s : Store)
    (a : AuthContext)
    → IsVerified ctx k c now s a
    → load_verified ctx k c now s ≡ ok (some a)
unfolding load_verified check_verified
load_verified_complete ctx k c now s a h =
    rw (h.id, h.stored) (ground (arith, h.owner, h.confirmation, h.status, h.alive))

-- The check before an execution passes an authentication exactly when the id names a stored row of
-- the user, for this very confirmation, verified and not yet expired.
pub load_verified_iff :
    (ctx : ExecutionContext) (k : Option ℕ) (c : Confirmation) (now : ℕ) (s : Store)
    (a : AuthContext)
    → (load_verified ctx k c now s ≡ ok (some a)) ↔ IsVerified ctx k c now s a
load_verified_iff ctx k c now s a =
    (load_verified_sound ctx k c now s a, load_verified_complete ctx k c now s a)

pub get_auth_context-update_self :
    (k : ℕ) (f : AuthContext → AuthContext) (a : AuthContext) (rows : List AuthContext)
    → ((b : AuthContext) → (f b).id ≡ b.id)
    → get_auth_context k rows ≡ some a
    → get_auth_context k (update_auth_context k f rows) ≡ some (f a)
get_auth_context-update_self k f a [] keeps h = cc
get_auth_context-update_self k f a (b ∷ rows) keeps h =
    ground (arith, keeps b, get_auth_context-update_self k f a rows keeps)

pub get_auth_context-update_ne :
    (k j : ℕ) (f : AuthContext → AuthContext) (rows : List AuthContext)
    → ((b : AuthContext) → (f b).id ≡ b.id)
    → k ≢ j
    → get_auth_context k (update_auth_context j f rows) ≡ get_auth_context k rows
get_auth_context-update_ne k j f [] keeps ne = refl
get_auth_context-update_ne k j f (b ∷ rows) keeps ne =
    ground (arith, keeps b, get_auth_context-update_ne k j f rows keeps ne)
