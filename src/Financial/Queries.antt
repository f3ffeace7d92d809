-- ===== src/Financial/Queries.antt =====
-- The read queries of crud.py: lookups by a unique column, and sums and maxima over a table.
pub mod Laws
use kdt_ai_2_hands_on_experi.Common.{
  ℕ, max, Bool, true, false, Option, none, some, List, [], ◌∷◌, ◌&&◌, ◌==◌, ltb, if◌then◌else◌,
}
use kdt_ai_2_hands_on_experi.Common.Int.{ℤ, pos, ◌+ℤ◌, ◌-ℤ◌}
use kdt_ai_2_hands_on_experi.Financial.Rows.{
  Account, Card, CardLedgerEntry, Transaction, Settlement, LedgerEntry, EntryType,
  DailyClosingSnapshot, IdempotencyKey, key_eq,
}

-- `get_account`
abbrev pub get_account : ℕ → List Account → Option Account
get_account k [] = none
get_account k (a ∷ rest) = if k == a.account_id then some a else get_account k rest

-- `get_account_by_number`
abbrev pub get_account_by_number : ℕ → List Account → Option Account
get_account_by_number n [] = none
get_account_by_number n (a ∷ rest) =
    if n == a.account_number then some a else get_account_by_number n rest

abbrev pub get_transaction : IdempotencyKey → List Transaction → Option Transaction
get_transaction k [] = none
get_transaction k (t ∷ ts) = if key_eq k t.idempotency_key then some t else get_transaction k ts

abbrev pub get_card : ℕ → List Card → Option Card
get_card k [] = none
get_card k (c ∷ cs) = if k == c.card_id then some c else get_card k cs

abbrev pub get_charge : IdempotencyKey → List CardLedgerEntry → Option CardLedgerEntry
get_charge k [] = none
get_charge k (e ∷ es) = if key_eq k e.idempotency_key then some e else get_charge k es

abbrev same_type : EntryType → EntryType → Bool
same_type EntryType.debit EntryType.debit = true
same_type EntryType.credit EntryType.credit = true
same_type _ _ = false

-- COALESCE(SUM(amount), 0) over the rows of one account and one entry type
abbrev pub sum_entries : EntryType → ℕ → List LedgerEntry → ℤ
sum_entries t k [] = pos 0
sum_entries t k (e ∷ es) =
    (if e.account_id == k && same_type e.entry_type t then e.amount else pos 0)
    +ℤ sum_entries t k es

-- `_get_balance`
abbrev pub ledger_balance : ℕ → List LedgerEntry → ℤ
ledger_balance k es = sum_entries EntryType.credit k es -ℤ sum_entries EntryType.debit k es

-- `get_balance`
abbrev balance_or_zero : Option Account → ℤ
balance_or_zero none = pos 0
balance_or_zero (some a) = a.balance

unfoldable pub get_balance : ℕ → List Account → ℤ
get_balance k rest = balance_or_zero (get_account k rest)

-- MAX over rows, NULL on none
abbrev max_opt : ℕ → Option ℕ → Option ℕ
max_opt n none = some n
max_opt n (some m) = some (max n m)

abbrev pub last_entry_rowid : ℕ → List LedgerEntry → Option ℕ
last_entry_rowid k [] = none
last_entry_rowid k (e ∷ es) =
    let rest = last_entry_rowid k es in if e.account_id == k then max_opt e.rowid rest else rest

abbrev pub or_zero : Option ℕ → ℕ
or_zero none = 0
or_zero (some n) = n

abbrev settled_rowid : ℕ → Settlement → ℕ → ℕ
settled_rowid k Settlement.normal w = w
settled_rowid k (Settlement.card_settlement c v) w = if c == k then max v w else w

-- `_get_card_watermark`: the maximum over the settlements of the card, 0 if there is none
abbrev pub get_card_watermark : ℕ → List Transaction → ℕ
get_card_watermark k [] = 0
get_card_watermark k (t ∷ ts) = settled_rowid k t.settlement (get_card_watermark k ts)

-- `_get_unsettled_usage`
abbrev pub get_unsettled_usage : ℕ → ℕ → List CardLedgerEntry → ℤ
get_unsettled_usage k w [] = pos 0
get_unsettled_usage k w (e ∷ es) =
    (if e.card_id == k && ltb w e.rowid then e.amount else pos 0) +ℤ get_unsettled_usage k w es

abbrev pub last_charge_rowid : ℕ → List CardLedgerEntry → Option ℕ
last_charge_rowid k [] = none
last_charge_rowid k (e ∷ es) =
    let rest = last_charge_rowid k es in if e.card_id == k then max_opt e.rowid rest else rest

abbrev pub has_snapshot : ℕ → ℕ → List DailyClosingSnapshot → Bool
has_snapshot k d [] = false
has_snapshot k d (s ∷ ss) =
    if s.account_id == k && s.business_date == d then true else has_snapshot k d ss

-- `UPDATE accounts SET balance = v WHERE account_id = k`
abbrev pub set_balance : ℕ → ℤ → List Account → List Account
set_balance k v [] = []
set_balance k v (a ∷ rest) =
    (if k == a.account_id then record a { balance = v } else a) ∷ set_balance k v rest
