-- ===== src/Gateway/Payments/Served.antt =====
-- Every step of the gateway keeps what is executed paid.
use kdt_ai_2_hands_on_experi.Gateway.Rows.{Store}
use kdt_ai_2_hands_on_experi.Gateway.Confirmation.Decisions.{resume_after_approval-cases}
use kdt_ai_2_hands_on_experi.Gateway.AuthContext.{authenticate, create_auth_context}
use kdt_ai_2_hands_on_experi.Gateway.AuthContext.Attempts.{
  authenticate-rows, create_auth_context-rows,
}
use kdt_ai_2_hands_on_experi.Gateway.Bank.{Bank}
use kdt_ai_2_hands_on_experi.Gateway.Transfer.Internal.Preparation.{prepare_internal_transfer-cases}
use kdt_ai_2_hands_on_experi.Gateway.Transfer.External.Preparation.{prepare_external_transfer-cases}
use kdt_ai_2_hands_on_experi.Gateway.Payments.{
  Request, serve, prepare_internal_request, prepare_external_request, decide_request, auth_request,
  attempt_request, execute_internal_request, execute_external_request, bank_request,
}
use kdt_ai_2_hands_on_experi.Gateway.Payments.Paid.{IsPaid, transfer-IsPaid}
use kdt_ai_2_hands_on_experi.Gateway.Payments.Steps.{
  prepared-IsPaid, same-IsPaid, invalidate-IsPaid, approve-IsPaid, execute_internal-IsPaid,
  execute_external-IsPaid,
}
use kdt_ai_2_hands_on_experi.Common.Texts.{Text}
use kdt_ai_2_hands_on_experi.Gateway.Setting.Cases.{
  prepare_account_alias-cases, prepare_default_account-cases,
}
use kdt_ai_2_hands_on_experi.Gateway.Payments.{
  prepare_default_request, prepare_alias_request, execute_default_request, execute_alias_request,
}
use kdt_ai_2_hands_on_experi.Gateway.Payments.Settings.{
  execute_alias-IsPaid, execute_default-IsPaid,
}

module _ (bank : Bank) (lower : Text → Text) where
  pub serve-IsPaid :
      (r : Request) (s : Store) (st : bank.State)
      → IsPaid bank st s.confirmations
      → let (s', st') = serve bank lower r (s, st) in IsPaid bank st' s'.confirmations
  unfolding serve
  serve-IsPaid (prepare_internal_request ctx req clock id) s st paid =
      prepare_internal_transfer-cases bank ctx req clock id s st
        (λ x. IsPaid bank st x.confirmations) (λ s' e kept. same-IsPaid bank st s s' e paid)
        (λ c s' pending e kept. prepared-IsPaid bank st s c s' pending e paid)
  serve-IsPaid (prepare_external_request ctx req clock id) s st paid =
      prepare_external_transfer-cases bank ctx req clock id s st
        (λ x. IsPaid bank st x.confirmations) (λ s' e kept. same-IsPaid bank st s s' e paid)
        (λ c s' pending e kept. prepared-IsPaid bank st s c s' pending e paid)
  serve-IsPaid (decide_request component user k now approves) s st paid =
      resume_after_approval-cases now s (λ x. IsPaid bank st x.confirmations) paid
        (λ c. approve-IsPaid bank st now c s paid) (λ c. invalidate-IsPaid bank st c s paid)
        component user k approves
  serve-IsPaid (auth_request ctx k now id) s st paid =
      same-IsPaid bank st s (create_auth_context ctx k now id s).1
        (create_auth_context-rows ctx k now id s).0 paid
  serve-IsPaid (attempt_request user k now attempt) s st paid =
      same-IsPaid bank st s (authenticate user k now attempt s).1
        (authenticate-rows user k now attempt s).0 paid
  serve-IsPaid (execute_internal_request ctx req clock) s st paid =
      execute_internal-IsPaid bank ctx req clock s st paid
  serve-IsPaid (execute_external_request ctx req clock) s st paid =
      execute_external-IsPaid bank ctx req clock s st paid
  serve-IsPaid (prepare_default_request ctx k now id) s st paid =
      prepare_default_account-cases ctx now id s (λ x. IsPaid bank st x.confirmations) paid
        (λ c s' pending e kept. prepared-IsPaid bank st s c s' pending e paid) k
  serve-IsPaid (prepare_alias_request ctx k raw now id) s st paid =
      prepare_account_alias-cases ctx now id s (λ x. IsPaid bank st x.confirmations) paid
        (λ c s' pending e kept. prepared-IsPaid bank st s c s' pending e paid) lower k raw
  serve-IsPaid (execute_default_request ctx k checked_at now) s st paid =
      execute_default-IsPaid bank st ctx k checked_at now s paid
  serve-IsPaid (execute_alias_request ctx k checked_at now) s st paid =
      execute_alias-IsPaid bank st ctx k checked_at now s paid lower
  serve-IsPaid (bank_request r) s st paid = transfer-IsPaid bank st r s.confirmations paid
