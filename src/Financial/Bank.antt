-- ===== src/Financial/Bank.antt =====
-- The whole service: every operation that writes, as a step from tables to tables.
mod Frames
pub mod Reachable
use kdt_ai_2_hands_on_experi.Common.{ℕ, [], none, List}
use kdt_ai_2_hands_on_experi.Common.Int.{ℤ, pos, ◌<ℤ◌}
use kdt_ai_2_hands_on_experi.Financial.Rows.{
  AccountCreate, CardCreate, Db, Engine, IdempotencyKey, TransferRequest,
}
use kdt_ai_2_hands_on_experi.Financial.Account.{NewAccount, create_account}
use kdt_ai_2_hands_on_experi.Financial.Transfer.{transfer}
use kdt_ai_2_hands_on_experi.Financial.Cards.{create_card, charge_card, settle_card}
use kdt_ai_2_hands_on_experi.Financial.Closing.{run_daily_closing}

abbrev pub empty_db : Db
empty_db = record {
  accounts = [];
  transactions = [];
  ledger_entries = [];
  cards = [];
  card_ledger_entries = [];
  snapshots = [];
  audit_logs = [];
}

-- A request to the service, with the ids that are drawn for it. `CardCreate` admits a positive limit.
pub data Request : Type 0 where
  create_account_request : AccountCreate → NewAccount → Request
  transfer_request : TransferRequest → IdempotencyKey → ℕ → Request
  create_card_request : (payload : CardCreate) → ℕ → pos 0 <ℤ payload.limit → Request
  charge_request : ℕ → ℤ → IdempotencyKey → Request
  settle_request : ℕ → ℕ → Request
  closing_request : ℕ → Request

-- The tables after a request, however it ended.
unfoldable pub handle : Engine → Request → Db → Db
handle eng (create_account_request payload new) db = (create_account eng payload new db).1
handle eng (transfer_request p key id) db = (transfer eng p key id db).1
handle eng (create_card_request payload id limited) db = (create_card payload id db).1
handle eng (charge_request k amount key) db = (charge_card eng k amount key db).1
handle eng (settle_request k id) db = (settle_card eng k id db).1
handle eng (closing_request date) db = (run_daily_closing date db).1
