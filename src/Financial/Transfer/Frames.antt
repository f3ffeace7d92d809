-- ===== src/Financial/Transfer/Frames.antt =====
-- crud.py, `transfer`: the tables of the cards, and which accounts there are.
use kdt_ai_2_hands_on_experi.Common.{
  ℕ, ◌≡◌, refl, ◌∙◌, Option, none, some, is_some, if_rule, not, ◌==◌,
}
use kdt_ai_2_hands_on_experi.Financial.Rows.{
  Db, Engine, ErrorCode, IdempotencyKey, Transaction, TransferRequest,
}
use kdt_ai_2_hands_on_experi.Financial.Queries.{
  get_account, get_card_watermark, get_transaction, set_balance,
}
use kdt_ai_2_hands_on_experi.Financial.Queries.Laws.{is_some-get_account-set_balance}
use kdt_ai_2_hands_on_experi.Financial.Account.{Outcome}
use kdt_ai_2_hands_on_experi.Financial.Transfer.{
  Checked, apply_transfer, check, commit_transfer, fail, payload_hash, transfer, transfer_keyed,
  transfer_row,
}

-- What no transfer changes about the cards.
pub record Frames (db db' : Db) : Type 0 where
  pub cards : db'.cards ≡ db.cards
  pub charges : db'.card_ledger_entries ≡ db.card_ledger_entries
  pub watermark :
      (k : ℕ) → get_card_watermark k db'.transactions ≡ get_card_watermark k db.transactions
  pub accounts :
      (j : ℕ) → is_some (get_account j db'.accounts) ≡ is_some (get_account j db.accounts)

module _ (eng : Engine) (p : TransferRequest) (key : IdempotencyKey) (id : ℕ) (db : Db) where
  commit_transfer-Frames : (c : Checked) → Frames db (commit_transfer eng p key id db c).1
  unfolding commit_transfer apply_transfer transfer_row
  commit_transfer-Frames (Checked.refused code) = record {
    cards = refl;
    charges = refl;
    watermark = λ k. refl;
    accounts = λ j. refl;
  }
  commit_transfer-Frames (Checked.accepted s r) = record {
    cards = refl;
    charges = refl;
    watermark = λ k. refl;
    accounts = λ j.
        is_some-get_account-set_balance j r.account_id _ (set_balance s.account_id _ db.accounts)
        ∙ is_some-get_account-set_balance j s.account_id _ db.accounts;
  }

  transfer_keyed-Frames : (o : Option Transaction) → Frames db (transfer_keyed eng p key id db o).1
  unfolding transfer_keyed
  transfer_keyed-Frames none = commit_transfer-Frames (check p db)
  transfer_keyed-Frames (some t) =
      if_rule {A = Outcome Transaction × Db} (λ r. Frames db r.1)
        (not (t.payload_hash == payload_hash eng p)) (fail p ErrorCode.idempotency_conflict db)
        (Outcome.returned t, db)
        (λ _. record { cards = refl; charges = refl; watermark = λ k. refl; accounts = λ j. refl })
        (λ _. record { cards = refl; charges = refl; watermark = λ k. refl; accounts = λ j. refl })

  pub transfer-Frames : Frames db (transfer eng p key id db).1
  unfolding transfer
  transfer-Frames = transfer_keyed-Frames (get_transaction key db.transactions)
