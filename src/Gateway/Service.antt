-- ===== src/Gateway/Service.antt =====
-- core/agent_exceptions.py and services/agent_tools/policy_constants.py: the errors that a service
-- raises, its results, and the policy constants.
use kdt_ai_2_hands_on_experi.Common.{ℕ}
use kdt_ai_2_hands_on_experi.Common.Int.{ℤ, pos}

-- The factories of `AgentToolError` that the services use, the unhandled `FinancialServiceError`
-- that the API turns into a 503, and `key_error` for a `fixed_data` without the expected keys.
pub data Error : Type 0 where
  invalid_request account_access_denied account_not_found backend_temporary_error : Error
  confirmation_mismatch confirmation_expired confirmation_required auth_required : Error
  recipient_not_found recipient_candidate_expired : Error
  idempotency_key_conflict idempotency_request_in_progress missing_idempotency_key : Error
  financial_service_unavailable key_error : Error

pub data Result {ℓ} (A : Type ℓ) : Type ℓ where
  ok : A → Result A
  err : Error → Result A

abbrev pub confirmation_ttl_seconds : ℕ
confirmation_ttl_seconds = 300

abbrev pub idempotency_ttl_seconds : ℕ
idempotency_ttl_seconds = 86_400

abbrev pub auth_context_ttl_seconds : ℕ
auth_context_ttl_seconds = 180

abbrev pub default_bank_name : ℕ
default_bank_name = 0

abbrev pub transfer_fee_krw : ℤ
transfer_fee_krw = pos 0

abbrev pub max_single_transfer_krw : ℤ
max_single_transfer_krw = pos 5_000_000

abbrev pub max_daily_transfer_krw : ℤ
max_daily_transfer_krw = pos 10_000_000
