-- ===== src/Gateway/Bank.antt =====
-- services/financial/financial_client.py as the services see it: the bank behind an interface of
-- operations and laws, which the client modules take as a parameter.
use kdt_ai_2_hands_on_experi.Common.{ℕ, ◌≡◌, Option, some}
use kdt_ai_2_hands_on_experi.Common.Int.{ℤ}

-- The deterministic keys "internal_transfer_execute:{id}" and "external_transfer_execute:{id}".
pub data LedgerKey : Type 0 where
  internal_key external_key : ℕ → LedgerKey

-- The arguments of `FinancialServiceClient.transfer`
pub record LedgerRequest : Type 0 where
  pub sender_account_number : ℕ
  pub receiver_bank_name : ℕ
  pub receiver_account_number : ℕ
  pub amount : ℤ
  pub idempotency_key : LedgerKey

-- The body of a balance query, `None` on a 404, or `FinancialServiceError`
pub data BalanceReply : Type 0 where
  balance : ℤ → BalanceReply
  missing unavailable : BalanceReply

-- A transfer replies with the id of its transaction, or `none` for `FinancialServiceError`; a call
-- that fails may have moved the state. `Recorded s r t` says that the bank has stored `r` under its key
-- with the id `t`: it is so after a reply `t`, it stays so, and then `r` is replayed without effect.
pub record Bank : Type 1 where
  pub State : Type 0
  pub get_balance : State → ℕ → BalanceReply
  pub transfer : State → LedgerRequest → Option ℕ × State
  pub Recorded : State → LedgerRequest → ℕ → Type 0
  pub recorded :
      (s : State) (r : LedgerRequest) (t : ℕ)
      → (transfer s r).0 ≡ some t
      → Recorded (transfer s r).1 r t
  pub kept :
      (s : State) (r other : LedgerRequest) (t : ℕ)
      → Recorded s r t
      → Recorded (transfer s other).1 r t
  pub replayed :
      (s : State) (r : LedgerRequest) (t : ℕ) → Recorded s r t → transfer s r ≡ (some t, s)
