-- ===== src/Gateway/Confirmation/Laws.antt =====
-- When a confirmation can be executed.
use kdt_ai_2_hands_on_experi.Common.{
  ℕ, ◌<◌, ◌≡◌, ◌≢◌, refl, sym, subst, if◌then◌else◌, true, Option, none, some, List, [], ◌∷◌, arith,
  leb, ◌↔◌, ◌⊎◌,
}
use kdt_ai_2_hands_on_experi.Gateway.Rows.{
  Confirmation, ConfirmationOperation, ConfirmationStatus, ExecutionContext, Store, status_eq,
  operation_eq,
}
use kdt_ai_2_hands_on_experi.Gateway.Service.{Error, ok, err}
use kdt_ai_2_hands_on_experi.Gateway.Confirmation.{
  get_confirmation, update_confirmation, check_approved, load_approved, load_for_execute,
  execute_approved,
}

pub status_eq→eq : (a b : ConfirmationStatus) → status_eq a b ≡ true → a ≡ b
status_eq→eq a b h = ground arith

pub operation_eq→eq : (a b : ConfirmationOperation) → operation_eq a b ≡ true → a ≡ b
operation_eq→eq a b h = ground arith

-- The confirmation `c` that the id names is the user's, for the operation, approved and alive.
pub record IsExecutable (ctx : ExecutionContext) (k : Option ℕ) (operation : ConfirmationOperation)
    (now : ℕ) (s : Store) (c : Confirmation) : Type 0 where
  pub id : k ≡ some c.id
  pub stored : get_confirmation c.id s.confirmations ≡ some c
  pub owner : c.user_id ≡ ctx.user_id
  pub same_operation : c.operation ≡ operation
  pub status : c.status ≡ ConfirmationStatus.approved
  pub alive : now < c.expires_at

pub get_confirmation-id :
    (k : ℕ) (c : Confirmation) (cs : List Confirmation) → get_confirmation k cs ≡ some c → c.id ≡ k
get_confirmation-id k c [] h = cc
get_confirmation-id k c (d ∷ cs) h = ground (arith, get_confirmation-id k c cs)

check_approved-IsExecutable :
    (ctx : ExecutionContext) (operation : ConfirmationOperation) (now : ℕ) (o : Option Confirmation)
    (c : Confirmation)
    → check_approved ctx (operation ∷ []) now o ≡ ok c
    → (o ≡ some c)
      × (c.user_id ≡ ctx.user_id)
      × (c.operation ≡ operation)
      × (c.status ≡ ConfirmationStatus.approved)
      × (now < c.expires_at)
unfolding check_approved
check_approved-IsExecutable ctx operation now none c h = cc
check_approved-IsExecutable ctx operation now (some d) c h = ground (
  arith,
  operation_eq→eq d.operation operation,
  status_eq→eq d.status ConfirmationStatus.approved,
)

load_for_execute_sound :
    (ctx : ExecutionContext) (k : Option ℕ) (operation : ConfirmationOperation) (now : ℕ)
    (s : Store) (c : Confirmation)
    → load_for_execute ctx k operation now s ≡ ok c
    → IsExecutable ctx k operation now s c
unfolding load_for_execute
load_for_execute_sound ctx none operation now s c h = cc
load_for_execute_sound ctx (some k) operation now s c h =
    let (found, owner, same_operation, status, alive) =
      check_approved-IsExecutable ctx operation now (get_confirmation k s.confirmations) c h in
    let same_id = get_confirmation-id k c s.confirmations found in
    record {
      id = ground (arith, same_id);
      stored = subst (λ j. get_confirmation j s.confirmations ≡ some c) (sym same_id) found;
      owner = owner;
      same_operation = same_operation;
      status = status;
      alive = alive;
    }

operation_eq_refl : (o : ConfirmationOperation) → operation_eq o o ≡ true
operation_eq_refl o = ground arith

load_for_execute_complete :
    (ctx : ExecutionContext) (k : Option ℕ) (operation : ConfirmationOperation) (now : ℕ)
    (s : Store) (c : Confirmation)
    → IsExecutable ctx k operation now s c
    → load_for_execute ctx k operation now s ≡ ok c
unfolding load_for_execute
load_for_execute_complete ctx k operation now s c h =
    rw (h.id, h.stored)
      (ground (arith, h.owner, h.same_operation, h.status, h.alive, operation_eq_refl operation))

-- The check before an execution passes a confirmation exactly when the id names a stored row of the
-- user, for the requested operation, approved and not yet expired.
pub load_for_execute_iff :
    (ctx : ExecutionContext) (k : Option ℕ) (operation : ConfirmationOperation) (now : ℕ)
    (s : Store) (c : Confirmation)
    → (load_for_execute ctx k operation now s ≡ ok c) ↔ IsExecutable ctx k operation now s c
load_for_execute_iff ctx k operation now s c = (
  load_for_execute_sound ctx k operation now s c,
  load_for_execute_complete ctx k operation now s c,
)

-- Why a confirmation that was executed is refused.
abbrev pub executed_error : Confirmation → ℕ → Error
executed_error c now =
    if leb c.expires_at now then Error.confirmation_expired else Error.confirmation_mismatch

pub load_for_execute-executed :
    (ctx : ExecutionContext) (k : Option ℕ) (now t : ℕ) (operation : ConfirmationOperation)
    (s : Store) (c : Confirmation)
    → k ≡ some c.id
    → get_confirmation c.id s.confirmations
      ≡ some (record c { status = ConfirmationStatus.executed; executed_at = some t })
    → c.user_id ≡ ctx.user_id
    → c.operation ≡ operation
    → load_for_execute ctx k operation now s ≡ err (executed_error c now)
unfolding load_for_execute load_approved check_approved
load_for_execute-executed ctx k now t operation s c names stored owner same =
    rw (names, stored) (ground (arith, owner, same))

pub executed_error-cases :
    (c : Confirmation) (now : ℕ)
    → (executed_error c now ≡ Error.confirmation_expired)
      ⊎ (executed_error c now ≡ Error.confirmation_mismatch)
executed_error-cases c now = ground arith

pub get_confirmation-update_self :
    (k : ℕ) (f : Confirmation → Confirmation) (c : Confirmation) (cs : List Confirmation)
    → ((d : Confirmation) → (f d).id ≡ d.id)
    → get_confirmation k cs ≡ some c
    → get_confirmation k (update_confirmation k f cs) ≡ some (f c)
get_confirmation-update_self k f c [] keeps h = cc
get_confirmation-update_self k f c (d ∷ cs) keeps h =
    ground (arith, keeps d, get_confirmation-update_self k f c cs keeps)

pub get_confirmation-update_ne :
    (k j : ℕ) (f : Confirmation → Confirmation) (cs : List Confirmation)
    → ((d : Confirmation) → (f d).id ≡ d.id)
    → k ≢ j
    → get_confirmation k (update_confirmation j f cs) ≡ get_confirmation k cs
get_confirmation-update_ne k j f [] keeps ne = refl
get_confirmation-update_ne k j f (d ∷ cs) keeps ne =
    ground (arith, keeps d, get_confirmation-update_ne k j f cs keeps ne)

pub execute_approved-id : (now : ℕ) (d : Confirmation) → (execute_approved now d).id ≡ d.id
execute_approved-id now d = ground arith
