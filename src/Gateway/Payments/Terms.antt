-- ===== src/Gateway/Payments/Terms.antt =====
-- What confirmations fix, as a log that only grows.
use kdt_ai_2_hands_on_experi.Common.{
  ℕ, ◌≡◌, refl, sym, ap, ◌∙◌, List, [], ◌∷◌, ◌++◌, arith, if_rule, ◌==◌, Option, none, some,
}
use kdt_ai_2_hands_on_experi.Common.Texts.{Text}
use kdt_ai_2_hands_on_experi.Gateway.Rows.{
  Account, AuthContext, Confirmation, ConfirmationOperation, ExecutionContext, FixedData, Store,
}
use kdt_ai_2_hands_on_experi.Gateway.Confirmation
use kdt_ai_2_hands_on_experi.Gateway.Confirmation.{
  approve, execute_approved, mark_executed, update_confirmation,
}
use kdt_ai_2_hands_on_experi.Gateway.Confirmation.Decisions.{resume_after_approval-cases}
use kdt_ai_2_hands_on_experi.Gateway.AuthContext
use kdt_ai_2_hands_on_experi.Gateway.AuthContext.{authenticate, create_auth_context}
use kdt_ai_2_hands_on_experi.Gateway.AuthContext.Attempts.{
  authenticate-rows, create_auth_context-rows,
}
use kdt_ai_2_hands_on_experi.Gateway.Bank.{Bank}
use kdt_ai_2_hands_on_experi.Gateway.Transfer.Internal.{
  complete_execution, execute_moved, invalidate_pair,
}
use kdt_ai_2_hands_on_experi.Gateway.Transfer.Internal.Preparation.{prepare_internal_transfer-cases}
use kdt_ai_2_hands_on_experi.Gateway.Transfer.Internal.Cases.{execute_internal_transfer-cases}
use kdt_ai_2_hands_on_experi.Gateway.Transfer.External.Preparation.{prepare_external_transfer-cases}
use kdt_ai_2_hands_on_experi.Gateway.Transfer.ExternalExecution.Cases.{
  execute_external_transfer-cases,
}
use kdt_ai_2_hands_on_experi.Gateway.Setting.{
  complete_setting, set_account_alias, set_default_account,
}
use kdt_ai_2_hands_on_experi.Gateway.Setting.Cases.{
  execute_account_alias-cases, execute_default_account-cases, prepare_account_alias-cases,
  prepare_default_account-cases,
}
use kdt_ai_2_hands_on_experi.Gateway.Payments.{
  Request, serve, prepare_internal_request, prepare_external_request, decide_request, auth_request,
  attempt_request, execute_internal_request, execute_external_request, bank_request,
  prepare_default_request, prepare_alias_request, execute_default_request, execute_alias_request,
}
use kdt_ai_2_hands_on_experi.Gateway.Payments.Settings.{complete_setting-rows}

-- What a confirmation says, without how far it has come.
pub record Terms : Type 0 where
  pub id : ℕ
  pub execution_context_id : ℕ
  pub user_id : ℕ
  pub operation : ConfirmationOperation
  pub fixed_data : FixedData
  pub expires_at : ℕ

abbrev pub terms_of : Confirmation → Terms
terms_of c = record {
  id = c.id;
  execution_context_id = c.execution_context_id;
  user_id = c.user_id;
  operation = c.operation;
  fixed_data = c.fixed_data;
  expires_at = c.expires_at;
}

abbrev pub terms : List Confirmation → List Terms
terms [] = []
terms (c ∷ cs) = terms_of c ∷ terms cs

-- The newest terms stand first.
abbrev pub Grows : (old new : List Terms) → Type 0
Grows old new = (added : List Terms) × (new ≡ added ++ old)

append_assoc : (xs ys zs : List Terms) → (xs ++ ys) ++ zs ≡ xs ++ (ys ++ zs)
append_assoc [] ys zs = refl
append_assoc (x ∷ xs) ys zs = ap (λ l. x ∷ l) (append_assoc xs ys zs)

Grows-trans : (a b c : List Terms) → Grows a b → Grows b c → Grows a c
Grows-trans a b c (x, e) (y, f) = (y ++ x, f ∙ ap (λ l. y ++ l) e ∙ sym (append_assoc y x a))

terms-update :
    (k : ℕ) (f : Confirmation → Confirmation) (cs : List Confirmation)
    → ((d : Confirmation) → terms_of (f d) ≡ terms_of d)
    → terms (update_confirmation k f cs) ≡ terms cs
terms-update k f [] keeps = refl
terms-update k f (c ∷ cs) keeps =
    if_rule (λ d. terms_of d ∷ terms (update_confirmation k f cs) ≡ terms_of c ∷ terms cs)
      (k == c.id) _ _ (λ _. rw (keeps c) (ap (λ l. terms_of c ∷ l) (terms-update k f cs keeps)))
      (λ _. ap (λ l. terms_of c ∷ l) (terms-update k f cs keeps))

execute_approved-terms :
    (now : ℕ) (d : Confirmation) → terms_of (execute_approved now d) ≡ terms_of d
execute_approved-terms now d = ground arith

complete_execution-confirmations :
    (ctx : ExecutionContext) (now : ℕ) (c : Confirmation) (a : AuthContext) (t : ℕ) (s : Store)
    → (complete_execution ctx now c a t s).confirmations
      ≡ update_confirmation c.id (execute_approved now) s.confirmations
unfolding complete_execution mark_executed
complete_execution-confirmations ctx now c a t s = ground arith

module _ (s : Store) where
  abbrev Kept : Store → Type 0
  Kept x = Grows (terms s.confirmations) (terms x.confirmations)

  same-Kept : (x : Store) → x.confirmations ≡ s.confirmations → Kept x
  same-Kept x e = ([], ap terms e)

  added-Kept : (c : Confirmation) (x : Store) → x.confirmations ≡ c ∷ s.confirmations → Kept x
  added-Kept c x e = (terms_of c ∷ [], ap terms e)

  approve-Kept : (now : ℕ) (c : Confirmation) → Kept (approve now c s)
  unfolding approve
  approve-Kept now c = ([], terms-update c.id _ s.confirmations (λ d. refl))

  invalidate-Kept : (c : Confirmation) → Kept (Confirmation.invalidate c s)
  unfolding Confirmation.invalidate
  invalidate-Kept c = ([], terms-update c.id _ s.confirmations (λ d. refl))

  invalidate_pair-Kept : (c : Confirmation) (a : AuthContext) → Kept (invalidate_pair c a s)
  unfolding Confirmation.invalidate AuthContext.invalidate
  invalidate_pair-Kept c a = ([], terms-update c.id _ s.confirmations (λ d. refl))

  executed-Kept :
      (k now : ℕ) (x : Store)
      → x.confirmations ≡ update_confirmation k (execute_approved now) s.confirmations
      → Kept x
  executed-Kept k now x e = (
    [],
    ap terms e ∙ terms-update k (execute_approved now) s.confirmations (execute_approved-terms now),
  )

  set_default-Kept :
      (ctx : ExecutionContext) (now : ℕ) (c : Confirmation) (a : Account)
      → Kept (complete_setting ctx now c (set_default_account ctx.user_id a s))
  unfolding set_default_account
  set_default-Kept ctx now c a =
      let x = set_default_account ctx.user_id a s in
      executed-Kept c.id now (complete_setting ctx now c x) ((complete_setting-rows ctx now c x).1)

  set_alias-Kept :
      (ctx : ExecutionContext) (now : ℕ) (c : Confirmation) (a : Account) (alias : Text)
      → Kept (complete_setting ctx now c (set_account_alias a alias s))
  unfolding set_account_alias
  set_alias-Kept ctx now c a alias =
      let x = set_account_alias a alias s in
      executed-Kept c.id now (complete_setting ctx now c x) ((complete_setting-rows ctx now c x).1)

  execute_moved-Kept :
      (bank : Bank) (ctx : ExecutionContext) (now : ℕ) (c : Confirmation) (a : AuthContext)
      (o : Option ℕ × bank.State)
      → Kept (execute_moved bank ctx now c a s o).1
  unfolding execute_moved
  execute_moved-Kept bank ctx now c a (none, st') = ([], refl)
  execute_moved-Kept bank ctx now c a (some t, st') =
      executed-Kept c.id now (complete_execution ctx now c a t s)
        (complete_execution-confirmations ctx now c a t s)

module _ (bank : Bank) (lower : Text → Text) where
  serve-Grows : (r : Request) (s : Store) (st : bank.State) → Kept s (serve bank lower r (s, st)).0
  unfolding serve
  serve-Grows (prepare_internal_request ctx req clock id) s st =
      prepare_internal_transfer-cases bank ctx req clock id s st (Kept s)
        (λ x e kept. same-Kept s x e) (λ c x pending e kept. added-Kept s c x e)
  serve-Grows (prepare_external_request ctx req clock id) s st =
      prepare_external_transfer-cases bank ctx req clock id s st (Kept s)
        (λ x e kept. same-Kept s x e) (λ c x pending e kept. added-Kept s c x e)
  serve-Grows (decide_request component user k now approves) s st =
      resume_after_approval-cases now s (Kept s) ([], refl) (λ c. approve-Kept s now c)
        (λ c. invalidate-Kept s c) component user k approves
  serve-Grows (auth_request ctx k now id) s st =
      same-Kept s (create_auth_context ctx k now id s).1
        ((create_auth_context-rows ctx k now id s).0)
  serve-Grows (attempt_request user k now attempt) s st =
      same-Kept s (authenticate user k now attempt s).1 ((authenticate-rows user k now attempt s).0)
  serve-Grows (execute_internal_request ctx req clock) s st =
      execute_internal_transfer-cases bank ctx clock s st (λ r. Kept s r.1) (λ reply. ([], refl))
        (λ reply c a. invalidate_pair-Kept s c a)
        (λ now c a r. execute_moved-Kept s bank ctx now c a (bank.transfer st r)) req
  serve-Grows (execute_external_request ctx req clock) s st =
      execute_external_transfer-cases bank ctx clock s st (λ r. Kept s r.1) (λ reply. ([], refl))
        (λ reply c a. invalidate_pair-Kept s c a)
        (λ now c a r. execute_moved-Kept s bank ctx now c a (bank.transfer st r)) req
  serve-Grows (prepare_default_request ctx k now id) s st =
      prepare_default_account-cases ctx now id s (Kept s) ([], refl)
        (λ c x pending e kept. added-Kept s c x e) k
  serve-Grows (prepare_alias_request ctx k raw now id) s st =
      prepare_account_alias-cases ctx now id s (Kept s) ([], refl)
        (λ c x pending e kept. added-Kept s c x e) lower k raw
  serve-Grows (execute_default_request ctx k checked_at now) s st =
      execute_default_account-cases ctx k checked_at now s (Kept s) ([], refl)
        (λ c. invalidate-Kept s c) (λ c j a h owned. set_default-Kept s ctx now c a)
  serve-Grows (execute_alias_request ctx k checked_at now) s st =
      execute_account_alias-cases ctx k checked_at now s (Kept s) ([], refl)
        (λ c. invalidate-Kept s c) lower
        (λ c j a alias h owned allowed. set_alias-Kept s ctx now c a alias)
  serve-Grows (bank_request r) s st = ([], refl)

  -- The requests one after another.
  unfoldable pub serve_all : List Request → Store × bank.State → Store × bank.State
  unfolding serve
  serve_all [] w = w
  serve_all (r ∷ rs) w = serve_all rs (serve bank lower r w)

  -- However many requests the gateway serves, in any order: seen without the progress of its
  -- confirmations, its table of them is a log that only grows. No confirmation that exists is deleted,
  -- and what it fixes, whose it is, what it is for and when it expires stays as it was created.
  pub serve_all-Grows :
      (rs : List Request) (w : Store × bank.State)
      → Grows (terms w.0.confirmations) (terms (serve_all rs w).0.confirmations)
  unfolding serve_all
  serve_all-Grows [] w = ([], refl)
  serve_all-Grows (r ∷ rs) w =
      Grows-trans _ _ _ (serve-Grows r w.0 w.1) (serve_all-Grows rs (serve bank lower r w))
