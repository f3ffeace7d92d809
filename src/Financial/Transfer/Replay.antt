-- ===== src/Financial/Transfer/Replay.antt =====
-- The idempotency key of `transfer`: replays, conflicts and failures.
use kdt_ai_2_hands_on_experi.Common.{
  ℕ, ◌≡◌, refl, Option, none, some, true, arith, inl, inr, Option-cases,
}
use kdt_ai_2_hands_on_experi.Financial.Rows.{
  Db, ErrorCode, IdempotencyKey, Transaction, TransferRequest, Engine, key_eq, key_eq_refl,
}
use kdt_ai_2_hands_on_experi.Financial.Queries.{get_transaction}
use kdt_ai_2_hands_on_experi.Financial.Account.{Outcome, append_audit}
use kdt_ai_2_hands_on_experi.Financial.Transfer.{
  Checked, check, payload_hash, failure_log, commit_transfer, transfer_keyed, transfer,
}

-- What is stored under the key after a call that returned `t`.
abbrev pub Stored : Engine → TransferRequest → IdempotencyKey → Transaction → Db → Type 0
Stored eng p key t db =
    (get_transaction key db.transactions ≡ some t) × (t.payload_hash ≡ payload_hash eng p)

key_eq→eq : (k j : IdempotencyKey) → key_eq k j ≡ true → k ≡ j
key_eq→eq (IdempotencyKey.plain a) (IdempotencyKey.plain b) h = ground (arith, h)
key_eq→eq (IdempotencyKey.seed a) (IdempotencyKey.seed b) h = ground (arith, h)
key_eq→eq (IdempotencyKey.settle a v) (IdempotencyKey.settle b w) h = ground (arith, h)
key_eq→eq (IdempotencyKey.plain a) (IdempotencyKey.seed b) h = cc
key_eq→eq (IdempotencyKey.plain a) (IdempotencyKey.settle b w) h = cc
key_eq→eq (IdempotencyKey.seed a) (IdempotencyKey.plain b) h = cc
key_eq→eq (IdempotencyKey.seed a) (IdempotencyKey.settle b w) h = cc
key_eq→eq (IdempotencyKey.settle a v) (IdempotencyKey.plain b) h = cc
key_eq→eq (IdempotencyKey.settle a v) (IdempotencyKey.seed b) h = cc

module _ (eng : Engine) (p : TransferRequest) (key : IdempotencyKey) (id : ℕ) (db : Db) where
  commit_transfer-Stored :
      (c : Checked) (t : Transaction)
      → (commit_transfer eng p key id db c).0 ≡ Outcome.returned t
      → Stored eng p key t (commit_transfer eng p key id db c).1
  unfolding commit_transfer
  commit_transfer-Stored (Checked.refused code) t h = cc
  commit_transfer-Stored (Checked.accepted s r) t h = ground (arith, key_eq_refl key)

  transfer_keyed-Stored :
      (o : Option Transaction) (t : Transaction)
      → get_transaction key db.transactions ≡ o
      → (transfer_keyed eng p key id db o).0 ≡ Outcome.returned t
      → Stored eng p key t (transfer_keyed eng p key id db o).1
  unfolding transfer_keyed
  transfer_keyed-Stored none t e h = commit_transfer-Stored (check p db) t h
  transfer_keyed-Stored (some t') t e h = ground arith

  pub transfer-Stored :
      (t : Transaction)
      → (transfer eng p key id db).0 ≡ Outcome.returned t
      → Stored eng p key t (transfer eng p key id db).1
  unfolding transfer
  transfer-Stored t h = transfer_keyed-Stored (get_transaction key db.transactions) t refl h

  -- A stored row with the hash of the request is returned, and nothing is written.
  pub transfer-of_Stored :
      (t : Transaction)
      → Stored eng p key t db
      → transfer eng p key id db ≡ (Outcome.returned t, db)
  unfolding transfer transfer_keyed
  transfer-of_Stored t h = ground arith

  commit_transfer-keeps_row :
      (k : IdempotencyKey) (row : Transaction) (c : Checked)
      → get_transaction key db.transactions ≡ none
      → get_transaction k db.transactions ≡ some row
      → get_transaction k (commit_transfer eng p key id db c).1.transactions ≡ some row
  unfolding commit_transfer
  commit_transfer-keeps_row k row (Checked.refused code) fresh h = h
  commit_transfer-keeps_row k row (Checked.accepted s r) fresh h =
      ground (arith, fresh, h, key_eq→eq k key)

  -- No transfer takes away a stored row or puts another under its key.
  pub transfer-keeps_row :
      (k : IdempotencyKey) (row : Transaction)
      → get_transaction k db.transactions ≡ some row
      → get_transaction k (transfer eng p key id db).1.transactions ≡ some row
  unfolding transfer transfer_keyed
  transfer-keeps_row k row h = elim (Option-cases (get_transaction key db.transactions)) [
    | inl fresh ↦ rw fresh (commit_transfer-keeps_row k row (check p db) fresh h)
    | inr (t, found) ↦ ground (arith, found, h)
  ]

  -- After a call that raised `code`, the tables are those before it with one failure row in the audit
  -- log, which quotes `code`.
  pub transfer-raised :
      (code : ErrorCode)
      → (transfer eng p key id db).0 ≡ Outcome.raised code
      → (transfer eng p key id db).1 ≡ append_audit (failure_log p code) db
  unfolding transfer transfer_keyed commit_transfer
  transfer-raised code h = ground arith

-- After a call that returned `t`, the same request with the same key, whatever id is drawn for it,
-- returns the same row `t` and writes nothing at all.
pub transfer-replay :
    (eng : Engine) (p : TransferRequest) (key : IdempotencyKey) (id id' : ℕ) (db : Db)
    (t : Transaction)
    → (transfer eng p key id db).0 ≡ Outcome.returned t
    → transfer eng p key id' (transfer eng p key id db).1
      ≡ (Outcome.returned t, (transfer eng p key id db).1)
transfer-replay eng p key id id' db t h =
    transfer-of_Stored eng p key id' (transfer eng p key id db).1 t
      (transfer-Stored eng p key id db t h)
