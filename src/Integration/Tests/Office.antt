-- ===== src/Integration/Tests/Office.antt =====
-- A user with two accounts at the test bank, and the states of one transfer.
use kdt_ai_2_hands_on_experi.Common.{ℕ, ◌≡◌, refl, true, false, none, some, [], ◌∷◌}
use kdt_ai_2_hands_on_experi.Common.Int.{pos, ◌+ℤ◌, ◌-ℤ◌}
use kdt_ai_2_hands_on_experi.Financial.Rows.{Db}
use kdt_ai_2_hands_on_experi.Financial.Account.{create_account}
use kdt_ai_2_hands_on_experi.Financial.Transfer.{transfer}
use kdt_ai_2_hands_on_experi.Financial.Cards.{charge_card, create_card}
use kdt_ai_2_hands_on_experi.Financial.Bank.{handle}
use kdt_ai_2_hands_on_experi.Financial.Tests.Town.{engine, town}
use kdt_ai_2_hands_on_experi.Gateway.Rows.{
  Account, AuthContext, AuthContextStatus, Confirmation, ConfirmationOperation, ConfirmationStatus,
  ExecutionContext, FixedData, Store,
}
use kdt_ai_2_hands_on_experi.Gateway.Service.{ok}
use kdt_ai_2_hands_on_experi.Gateway.Bank.{Bank}
use kdt_ai_2_hands_on_experi.Gateway.Confirmation.{
  Decision, decide, get_confirmation, load_for_auth,
}
use kdt_ai_2_hands_on_experi.Gateway.AuthContext.{
  AuthReply, authenticate, create_auth_context, get_auth_context, password,
}
use kdt_ai_2_hands_on_experi.Gateway.Transfer.{
  Clock, ExecuteReply, PrepareReply, TransferExecuteRequest,
}
use kdt_ai_2_hands_on_experi.Gateway.Transfer.Internal.{
  InternalTransferPrepareRequest, execute_internal_transfer, prepare_internal_transfer,
}
use kdt_ai_2_hands_on_experi.Integration.{client_balance, client_transfer, financial_bank}

abbrev pub draw : Db → ℕ
draw db = 77

abbrev pub bank : Bank
bank = financial_bank engine draw

abbrev pub from_account : Account
from_account = record {
  id = 11;
  user_id = 1;
  account_number = 51;
  active = true;
  bank_name = some 9;
  external_account_id = some 1;
  is_default = true;
  alias = none;
}

abbrev pub to_account : Account
to_account = record from_account { id = 12; account_number = 52; external_account_id = some 2 }

abbrev pub office : Store
office = record {
  accounts = from_account ∷ to_account ∷ [];
  confirmations = [];
  auth_contexts = [];
  candidates = [];
  audit_logs = [];
}

abbrev pub ctx : ExecutionContext
ctx = record { execution_context_id = 3; user_id = 1 }

abbrev pub clock : ℕ → Clock
clock now = record { confirmation_at = now; auth_at = now; day_start = 0; executed_at = now }

abbrev pub order : InternalTransferPrepareRequest
order = record { from_account_id = some 11; to_account_id = some 12; amount = pos 600 }

abbrev pub pending : Confirmation
pending = record {
  id = 21;
  execution_context_id = 3;
  user_id = 1;
  operation = ConfirmationOperation.internal_transfer;
  status = ConfirmationStatus.pending;
  fixed_data = FixedData.internal_data 11 12 (pos 600);
  expires_at = 400;
  approved_at = none;
  executed_at = none;
}

abbrev pub approved : Confirmation
approved = record pending { status = ConfirmationStatus.approved; approved_at = some 110 }

abbrev pub verified : AuthContext
verified = record {
  id = 31;
  confirmation_id = 21;
  user_id = 1;
  status = AuthContextStatus.verified;
  expires_at = 300;
  verified_at = some 130;
}

abbrev pub prepared : Store
prepared = (prepare_internal_transfer bank ctx order (clock 100) 21 office town).1

abbrev pub decided : Store
decided = (decide 1 (some 21) 110 true prepared).1

abbrev pub requested : Store
requested = (create_auth_context ctx (some 21) 120 31 decided).1

abbrev pub authenticated : Store
authenticated = (authenticate 1 (some 31) 130 (password true) requested).1

abbrev pub request : TransferExecuteRequest
request = record { confirmation_id = some 21; auth_context_id = some 31 }

pub prepared-ready :
    (prepare_internal_transfer bank ctx order (clock 100) 21 office town).0
    ≡ ok (PrepareReply.ready_for_confirmation pending false)
unfolding prepare_internal_transfer client_balance handle charge_card create_card create_account
    ◌+ℤ◌
prepared-ready = refl

pub decided-applied : (decide 1 (some 21) 110 true prepared).0 ≡ Decision.applied
unfolding prepare_internal_transfer client_balance handle charge_card create_card create_account
    ◌+ℤ◌ decide
decided-applied = refl

pub authenticated-replied :
    (authenticate 1 (some 31) 130 (password true) requested).0
    ≡ AuthReply.replied AuthContextStatus.verified
unfolding prepare_internal_transfer client_balance handle charge_card create_card create_account
    ◌+ℤ◌ decide create_auth_context authenticate load_for_auth
authenticated-replied = refl

pub executed-completed :
    (execute_internal_transfer bank ctx request (clock 140) authenticated town).0
    ≡ ok (ExecuteReply.completed 77)
unfolding prepare_internal_transfer client_balance handle charge_card create_card create_account
    ◌+ℤ◌ decide create_auth_context authenticate execute_internal_transfer client_transfer transfer
    load_for_auth ◌-ℤ◌
executed-completed = refl

authenticated-runs :
    (get_confirmation 21 authenticated.confirmations ≡ some approved)
    × (get_auth_context 31 authenticated.auth_contexts ≡ some verified)
    × (authenticated.accounts ≡ from_account ∷ to_account ∷ [])
unfolding prepare_internal_transfer client_balance handle charge_card create_card create_account
    ◌+ℤ◌ decide create_auth_context authenticate load_for_auth
authenticated-runs = (refl, refl, refl)
