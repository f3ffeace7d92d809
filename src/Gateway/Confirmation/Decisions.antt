-- ===== src/Gateway/Confirmation/Decisions.antt =====
-- services/chat_service.py: what the user's decision on a confirmation does.
use kdt_ai_2_hands_on_experi.Common.{
  ℕ, ◌<◌, ◌≡◌, ◌≢◌, refl, sym, subst, ◌∙◌, if◌then◌else◌, Bool, true, false, Option, none, some,
  arith, not, ◌||◌, leb, ◌==◌, if_rule,
}
use kdt_ai_2_hands_on_experi.Gateway.Rows.{status_eq, Confirmation, ConfirmationStatus, Store}
use kdt_ai_2_hands_on_experi.Gateway.Confirmation.{
  get_confirmation, update_confirmation, approve, invalidate, decide, decide_found, Component,
  Decision, is_confirmation_component, resume_after_approval,
}
use kdt_ai_2_hands_on_experi.Gateway.Confirmation.Laws.{
  get_confirmation-id, get_confirmation-update_self, get_confirmation-update_ne, status_eq→eq,
}

-- What the user's decision does to the confirmation that it names.
pub record Decides (user : ℕ) (k : ℕ) (now : ℕ) (approves : Bool) (s s' : Store) (c : Confirmation)
    : Type 0 where
  pub stored : get_confirmation k s.confirmations ≡ some c
  pub owner : c.user_id ≡ user
  pub status : c.status ≡ ConfirmationStatus.pending
  pub alive : now < c.expires_at
  pub written :
      get_confirmation k s'.confirmations
      ≡ some (
          if approves
          then record c { status = ConfirmationStatus.approved; approved_at = some now }
          else record c { status = ConfirmationStatus.invalidated })
  pub others :
      (j : ℕ) → j ≢ k → get_confirmation j s'.confirmations ≡ get_confirmation j s.confirmations

approve-Decides :
    (user k now : ℕ) (approves : Bool) (s : Store) (c : Confirmation)
    → get_confirmation k s.confirmations ≡ some c
    → c.user_id ≡ user
    → c.status ≡ ConfirmationStatus.pending
    → now < c.expires_at
    → Decides user k now approves s (if approves then approve now c s else invalidate c s) c
unfolding approve invalidate
approve-Decides user k now true s c stored owner status alive =
    let same = get_confirmation-id k c s.confirmations stored in
    let f : Confirmation → Confirmation =
      λ d. record d { status = ConfirmationStatus.approved; approved_at = some now } in
    record {
      stored = stored;
      owner = owner;
      status = status;
      alive = alive;
      written =
          subst (λ j. get_confirmation k (update_confirmation j f s.confirmations) ≡ some (f c))
            (sym same) (get_confirmation-update_self k f c s.confirmations (λ d. refl) stored);
      others = λ j ne.
          get_confirmation-update_ne j c.id f s.confirmations (λ d. refl) (λ e. ne (e ∙ same));
    }
approve-Decides user k now false s c stored owner status alive =
    let same = get_confirmation-id k c s.confirmations stored in
    let f : Confirmation → Confirmation =
      λ d. record d { status = ConfirmationStatus.invalidated } in
    record {
      stored = stored;
      owner = owner;
      status = status;
      alive = alive;
      written =
          subst (λ j. get_confirmation k (update_confirmation j f s.confirmations) ≡ some (f c))
            (sym same) (get_confirmation-update_self k f c s.confirmations (λ d. refl) stored);
      others = λ j ne.
          get_confirmation-update_ne j c.id f s.confirmations (λ d. refl) (λ e. ne (e ∙ same));
    }

decide_found-Decides :
    (user k now : ℕ) (approves : Bool) (s : Store) (o : Option Confirmation)
    → get_confirmation k s.confirmations ≡ o
    → (decide_found user now approves s o).0 ≡ Decision.applied
    → (c : Confirmation) × Decides user k now approves s (decide_found user now approves s o).1 c
unfolding decide_found
decide_found-Decides user k now approves s none found h = cc
decide_found-Decides user k now approves s (some c) found h =
    let owner : c.user_id ≡ user = ground (arith, h) in
    let status : c.status ≡ ConfirmationStatus.pending =
      ground (arith, h, status_eq→eq c.status ConfirmationStatus.pending) in
    let alive : now < c.expires_at = ground (arith, h) in
    let written : (decide_found user now approves s (some c)).1
        ≡ (if approves then approve now c s else invalidate c s) =
      ground (arith, h) in
    (
      c,
      subst (λ s'. Decides user k now approves s s' c) (sym written)
          (approve-Decides user k now approves s c found owner status alive),
    )

-- A decision that is applied was on a pending, unexpired confirmation of the user: approval makes that
-- row approved at the present time, anything else makes it invalidated, and no other row changes.
pub decide-Decides :
    (user k now : ℕ) (approves : Bool) (s : Store)
    → (decide user (some k) now approves s).0 ≡ Decision.applied
    → (c : Confirmation) × Decides user k now approves s (decide user (some k) now approves s).1 c
unfolding decide
decide-Decides user k now approves s h =
    decide_found-Decides user k now approves s (get_confirmation k s.confirmations) refl h

module _ (now : ℕ) (s : Store) (Q : Store → Type 0) (same : Q s)
    (approved : (c : Confirmation) → Q (approve now c s))
    (invalidated : (c : Confirmation) → Q (invalidate c s)) where
  decide_found-cases :
      (user : ℕ) (approves : Bool) (o : Option Confirmation)
      → Q (decide_found user now approves s o).1
  unfolding decide_found
  decide_found-cases user approves none = same
  decide_found-cases user true (some c) =
      if_rule (λ (r : Decision × Store). Q r.1) (not (c.user_id == user)) _ _ (λ _. same)
        (λ _.
          if_rule (λ (r : Decision × Store). Q r.1)
            (status_eq c.status ConfirmationStatus.expired || leb c.expires_at now) _ _ (λ _. same)
            (λ _.
              if_rule (λ (r : Decision × Store). Q r.1)
                (not (status_eq c.status ConfirmationStatus.pending)) _ _ (λ _. same)
                (λ _. approved c)))
  decide_found-cases user false (some c) =
      if_rule (λ (r : Decision × Store). Q r.1) (not (c.user_id == user)) _ _ (λ _. same)
        (λ _.
          if_rule (λ (r : Decision × Store). Q r.1)
            (status_eq c.status ConfirmationStatus.expired || leb c.expires_at now) _ _ (λ _. same)
            (λ _.
              if_rule (λ (r : Decision × Store). Q r.1)
                (not (status_eq c.status ConfirmationStatus.pending)) _ _ (λ _. same)
                (λ _. invalidated c)))

  -- A property of the store as it is and of the two ways to change it is a property after a decision.
  decide-cases : (user : ℕ) (k : Option ℕ) (approves : Bool) → Q (decide user k now approves s).1
  unfolding decide
  decide-cases user none approves = same
  decide-cases user (some k) approves =
      decide_found-cases user approves (get_confirmation k s.confirmations)

  pub resume_after_approval-cases :
      (component : Component) (user : ℕ) (k : Option ℕ) (approves : Bool)
      → Q (resume_after_approval component user k now approves s).1
  unfolding resume_after_approval
  resume_after_approval-cases component user k approves =
      if_rule Q (is_confirmation_component component) _ _ (λ _. decide-cases user k approves)
        (λ _. same)
