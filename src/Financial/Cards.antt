-- ===== src/Financial/Cards.antt =====
-- crud.py: `create_card`, `charge_card` and `settle_card`. A raise leaves the session uncommitted.
pub mod Payment
pub mod Settling
pub mod Soundness
pub mod Blocked
pub mod Charging
pub mod Usage
use kdt_ai_2_hands_on_experi.Common.{
  ℕ, Option, none, some, List, ◌∷◌, map, ◌||◌, leb, is_some, if◌then◌else◌,
}
use kdt_ai_2_hands_on_experi.Common.Int.{ℤ, pos, ◌+ℤ◌, ◌-ℤ◌, ltb_ℤ, eqb_ℤ}
use kdt_ai_2_hands_on_experi.Financial.Rows.{
  Account, Actor, AuditAction, AuditLog, Card, CardCreate, CardLedgerEntry, Db, EntryType,
  ErrorCode, IdempotencyKey, LedgerEntry, Settlement, Transaction, TransactionStatus, HashInput,
  Engine,
}
use kdt_ai_2_hands_on_experi.Financial.Queries.{
  get_account, get_card, get_card_watermark, get_charge, get_transaction, get_unsettled_usage,
  last_charge_rowid, set_balance,
}
use kdt_ai_2_hands_on_experi.Financial.Account.{Outcome, audit, append_audit, new_entry}

success_log : Actor → AuditAction → Option ℕ → AuditLog
success_log actor action txn = audit actor action TransactionStatus.success txn none

create_card_for : CardCreate → ℕ → Db → Option Account → Outcome Card × Db
unfolding success_log
create_card_for payload id db none = (Outcome.raised ErrorCode.account_not_found, db)
create_card_for payload id db (some acct) =
    let card : Card = record {
      card_id = id;
      account_id = payload.account_id;
      limit = payload.limit;
    } in
    if is_some (get_card id db.cards) then (Outcome.raised ErrorCode.integrity, db) else (
      Outcome.returned card,
      append_audit (success_log (Actor.named payload.account_id) AuditAction.card_create none)
          (record db { cards = card ∷ db.cards }),
    )

-- `id` is the `uuid4` of the new card.
unfoldable pub create_card : CardCreate → ℕ → Db → Outcome Card × Db
unfolding create_card_for
create_card payload id db =
    create_card_for payload id db (get_account payload.account_id db.accounts)

abbrev pub charge_rowids : List CardLedgerEntry → List ℕ
charge_rowids = map (λ e. e.rowid)

unfoldable charge_row : Engine → ℕ → ℤ → IdempotencyKey → Db → CardLedgerEntry
charge_row eng card amount key db = record {
  rowid = eng.next_rowid (charge_rowids db.card_ledger_entries);
  card_id = card;
  amount = amount;
  idempotency_key = key;
}

-- What the card still owes: the charges above its watermark.
abbrev pub unsettled : ℕ → Db → ℤ
unsettled k db = get_unsettled_usage k (get_card_watermark k db.transactions) db.card_ledger_entries

charge_new : Engine → Card → ℕ → ℤ → IdempotencyKey → Db → Outcome CardLedgerEntry × Db
unfolding charge_row success_log
charge_new eng card k amount key db =
    if ltb_ℤ card.limit (unsettled k db +ℤ amount)
    then (Outcome.raised ErrorCode.card_limit_exceeded, db)
    else (
      Outcome.returned (charge_row eng k amount key db),
      append_audit (success_log (Actor.named k) AuditAction.card_charge none) (record db {
        card_ledger_entries = charge_row eng k amount key db ∷ db.card_ledger_entries;
      }),
    )

-- A replay returns the stored charge.
charge_keyed :
    Engine
    → Card
    → ℕ
    → ℤ
    → IdempotencyKey
    → Db
    → Option CardLedgerEntry
    → Outcome CardLedgerEntry × Db
unfolding charge_new
charge_keyed eng card k amount key db none = charge_new eng card k amount key db
charge_keyed eng card k amount key db (some existing) = (Outcome.returned existing, db)

charge_found : Engine → ℕ → ℤ → IdempotencyKey → Db → Option Card → Outcome CardLedgerEntry × Db
unfolding charge_keyed
charge_found eng k amount key db none = (Outcome.raised ErrorCode.card_not_found, db)
charge_found eng k amount key db (some card) =
    charge_keyed eng card k amount key db (get_charge key db.card_ledger_entries)

unfoldable pub charge_card : Engine → ℕ → ℤ → IdempotencyKey → Db → Outcome CardLedgerEntry × Db
unfolding charge_found
charge_card eng k amount key db = charge_found eng k amount key db (get_card k db.cards)

unfoldable pub settlement_row : Engine → Card → ℕ → ℕ → ℤ → ℕ → Transaction
settlement_row eng card k w amount id = record {
  transaction_id = id;
  idempotency_key = IdempotencyKey.settle k w;
  payload_hash = eng.digest (HashInput.settle_payload k w amount);
  sender_account_id = card.account_id;
  receiver_account_id = card.account_id;
  amount = amount;
  status = TransactionStatus.success;
  settlement = Settlement.card_settlement k w;
}

-- The single debit row of a settlement.
abbrev pub settlement_debit : Engine → Card → ℤ → ℕ → Account → Db → LedgerEntry
settlement_debit eng card amount id account db =
    new_entry eng id card.account_id EntryType.debit amount (account.balance -ℤ amount)
      db.ledger_entries

-- The writes of a settlement, up to its commit.
unfoldable pub apply_settlement : Engine → Card → ℕ → ℕ → ℤ → ℕ → Account → Db → Db
unfolding settlement_row success_log
apply_settlement eng card k w amount id account db =
    let row = settlement_row eng card k w amount id in
    let debit = settlement_debit eng card amount id account db in
    let paid = set_balance account.account_id (account.balance -ℤ amount) db.accounts in
    append_audit (success_log (Actor.named card.account_id) AuditAction.card_settlement (some id))
      (record db {
        accounts = paid;
        transactions = row ∷ db.transactions;
        ledger_entries = debit ∷ db.ledger_entries;
      })

settle_from : Engine → Card → ℕ → ℕ → ℤ → ℕ → Db → Option Account → Outcome Transaction × Db
unfolding apply_settlement
settle_from eng card k w amount id db none = (Outcome.raised ErrorCode.account_not_found, db)
settle_from eng card k w amount id db (some account) =
    if ltb_ℤ account.balance amount
    then (Outcome.raised ErrorCode.insufficient_balance, db)
    else if is_some (get_transaction (IdempotencyKey.settle k w) db.transactions)
    then (Outcome.raised ErrorCode.integrity, db)
    else (
      Outcome.returned (settlement_row eng card k w amount id),
      apply_settlement eng card k w amount id account db,
    )

settle_up_to : Engine → Card → ℕ → ℕ → Db → Option ℕ → Outcome Transaction × Db
unfolding settle_from
settle_up_to eng card k id db none = (Outcome.raised ErrorCode.nothing_to_settle, db)
settle_up_to eng card k id db (some w) =
    if leb w (get_card_watermark k db.transactions) || eqb_ℤ (unsettled k db) (pos 0)
    then (Outcome.raised ErrorCode.nothing_to_settle, db)
    else settle_from eng card k w (unsettled k db) id db (get_account card.account_id db.accounts)

settle_found : Engine → ℕ → ℕ → Db → Option Card → Outcome Transaction × Db
unfolding settle_up_to
settle_found eng k id db none = (Outcome.raised ErrorCode.card_not_found, db)
settle_found eng k id db (some card) =
    settle_up_to eng card k id db (last_charge_rowid k db.card_ledger_entries)

-- `id` is the `uuid4` of the settlement's transaction.
unfoldable pub settle_card : Engine → ℕ → ℕ → Db → Outcome Transaction × Db
unfolding settle_found
settle_card eng k id db = settle_found eng k id db (get_card k db.cards)
