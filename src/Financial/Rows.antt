-- ===== src/Financial/Rows.antt =====
-- models.py and schemas.py: the tables as lists of rows, the newest row first, and the requests.
-- Ids, account numbers and texts that the code only stores or compares are numbers.
use kdt_ai_2_hands_on_experi.Common.{
  ℕ, ◌≡◌, ◌<◌, max, Bool, true, false, Option, List, [], ◌∷◌, ◌&&◌, ◌==◌, arith,
}
use kdt_ai_2_hands_on_experi.Common.Int.{ℤ}

-- A key is a text: `seed a` is "__seed__{a}", `settle c w` is "__settle__{c}__{w}", and `plain n`
-- any other. A client may send a text of any of these forms.
pub data IdempotencyKey : Type 0 where
  plain : ℕ → IdempotencyKey
  seed : ℕ → IdempotencyKey
  settle : ℕ → ℕ → IdempotencyKey

pub record Account : Type 0 where
  pub account_id : ℕ
  pub owner : ℕ
  pub bank_name : ℕ
  pub account_number : ℕ
  pub balance : ℤ

pub record Card : Type 0 where
  pub card_id : ℕ
  pub account_id : ℕ
  pub limit : ℤ

pub record CardLedgerEntry : Type 0 where
  pub rowid : ℕ
  pub card_id : ℕ
  pub amount : ℤ
  pub idempotency_key : IdempotencyKey

pub data TransactionStatus : Type 0 where
  success failure : TransactionStatus

-- settlement_type, settlement_card_id and settlement_watermark_rowid: null together, or
-- CARD_SETTLEMENT with both columns set.
pub data Settlement : Type 0 where
  normal : Settlement
  card_settlement : ℕ → ℕ → Settlement

pub record Transaction : Type 0 where
  pub transaction_id : ℕ
  pub idempotency_key : IdempotencyKey
  pub payload_hash : ℕ
  pub sender_account_id : ℕ
  pub receiver_account_id : ℕ
  pub amount : ℤ
  pub status : TransactionStatus
  pub settlement : Settlement

pub data EntryType : Type 0 where
  debit credit : EntryType

pub record LedgerEntry : Type 0 where
  pub rowid : ℕ
  pub transaction_id : ℕ
  pub account_id : ℕ
  pub entry_type : EntryType
  pub amount : ℤ
  pub running_balance : ℤ

pub record DailyClosingSnapshot : Type 0 where
  pub account_id : ℕ
  pub business_date : ℕ
  pub closing_balance : ℤ
  pub sum_credit : ℤ
  pub sum_debit : ℤ
  pub last_entry_rowid : Option ℕ

pub data Actor : Type 0 where
  named : ℕ → Actor
  system_batch : Actor

pub data AuditAction : Type 0 where
  account_create transfer transfer_failed daily_close : AuditAction
  card_create card_charge card_settlement : AuditAction

-- The codes of `ServiceError`; `integrity` is the database's refusal of a duplicate unique column.
pub data ErrorCode : Type 0 where
  idempotency_conflict self_transfer account_not_found receiver_bank_mismatch : ErrorCode
  invalid_amount insufficient_balance card_not_found card_limit_exceeded : ErrorCode
  nothing_to_settle integrity : ErrorCode

-- `error_code` stands for the code that a failure's reason and snapshot quote.
pub record AuditLog : Type 0 where
  pub transaction_id : Option ℕ
  pub actor : Actor
  pub action : AuditAction
  pub status : TransactionStatus
  pub error_code : Option ErrorCode

pub record Db : Type 0 where
  pub accounts : List Account
  pub transactions : List Transaction
  pub ledger_entries : List LedgerEntry
  pub cards : List Card
  pub card_ledger_entries : List CardLedgerEntry
  pub snapshots : List DailyClosingSnapshot
  pub audit_logs : List AuditLog

-- The dictionaries that `_payload_hash` is given.
pub data HashInput : Type 0 where
  transfer_payload : ℕ → ℕ → ℕ → ℤ → HashInput
  seed_payload : ℕ → ℤ → HashInput
  settle_payload : ℕ → ℕ → ℤ → HashInput

pub record AccountCreate : Type 0 where
  pub owner : ℕ
  pub initial_balance : ℤ
  pub bank_name : Option ℕ

pub record TransferRequest : Type 0 where
  pub sender_account_number : ℕ
  pub receiver_bank_name : ℕ
  pub receiver_account_number : ℕ
  pub amount : ℤ

pub record CardCreate : Type 0 where
  pub account_id : ℕ
  pub limit : ℤ

-- The largest rowid in use, 0 in an empty table.
abbrev pub max_rowid : List ℕ → ℕ
max_rowid [] = 0
max_rowid (r ∷ rest) = max r (max_rowid rest)

-- What the service calls and does not implement: SHA-256 over the canonical JSON, and SQLite's choice
-- of a new row's rowid, which is above 0 and above the rowids in the table.
pub record Engine : Type 0 where
  pub digest : HashInput → ℕ
  pub next_rowid : List ℕ → ℕ
  pub next_rowid_above : (rowids : List ℕ) → max_rowid rowids < next_rowid rowids

abbrev pub key_eq : IdempotencyKey → IdempotencyKey → Bool
key_eq (IdempotencyKey.plain a) (IdempotencyKey.plain b) = a == b
key_eq (IdempotencyKey.seed a) (IdempotencyKey.seed b) = a == b
key_eq (IdempotencyKey.settle a v) (IdempotencyKey.settle b w) = a == b && v == w
key_eq _ _ = false

pub key_eq_refl : (k : IdempotencyKey) → key_eq k k ≡ true
key_eq_refl (IdempotencyKey.plain a) = ground arith
key_eq_refl (IdempotencyKey.seed a) = ground arith
key_eq_refl (IdempotencyKey.settle a v) = ground arith
