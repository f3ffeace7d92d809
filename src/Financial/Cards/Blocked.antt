-- ===== src/Financial/Cards/Blocked.antt =====
-- crud.py: a transfer under the key that a settlement of a card is going to use.
use kdt_ai_2_hands_on_experi.Common.{
  ℕ, ◌≡◌, ◌≢◌, ◌<◌, refl, sym, ◌∙◌, true, Option, none, some, arith, is_some, leb, ◌||◌, if_rule,
  inl, inr, Option-cases,
}
use kdt_ai_2_hands_on_experi.Common.Int.{pos, ◌≤ℤ◌, eqb_ℤ, eq_of_parts}
use kdt_ai_2_hands_on_experi.Financial.Rows.{
  Account, Card, Db, Engine, ErrorCode, IdempotencyKey, Transaction, TransferRequest,
}
use kdt_ai_2_hands_on_experi.Financial.Queries.{
  get_account, get_balance, get_card, get_card_watermark, get_transaction, last_charge_rowid,
}
use kdt_ai_2_hands_on_experi.Financial.Account.{Outcome}
use kdt_ai_2_hands_on_experi.Financial.Transfer.{transfer}
use kdt_ai_2_hands_on_experi.Financial.Transfer.Frames.{transfer-Frames}
use kdt_ai_2_hands_on_experi.Financial.Transfer.Replay.{transfer-Stored}
use kdt_ai_2_hands_on_experi.Financial.Transfer.Moves.{get_balance-of_found}
use kdt_ai_2_hands_on_experi.Financial.Cards.{
  unsettled, settlement_row, settle_from, settle_up_to, settle_found, settle_card,
}

-- The settlement of card `k` that gives the row `s` is due.
record IsDue (k : ℕ) (db : Db) (s : Transaction) : Type 0 where
  pub card : Card
  pub w : ℕ
  pub found : get_card k db.cards ≡ some card
  pub last : last_charge_rowid k db.card_ledger_entries ≡ some w
  pub above : get_card_watermark k db.transactions < w
  pub due : unsettled k db ≢ pos 0
  pub owned : is_some (get_account card.account_id db.accounts) ≡ true
  pub key : s.idempotency_key ≡ IdempotencyKey.settle k w
  pub payer : s.sender_account_id ≡ card.account_id
  pub amount : s.amount ≡ unsettled k db

abbrev IsDueIfReturned : ℕ → Db → Transaction → Outcome Transaction × Db → Type 0
IsDueIfReturned k db s r = r.0 ≡ Outcome.returned s → IsDue k db s

module _ (eng : Engine) (k id : ℕ) (db : Db) (s : Transaction) where
  settle_from-IsDue :
      (card : Card) (w : ℕ) (o : Option Account)
      → get_account card.account_id db.accounts ≡ o
      → get_card k db.cards ≡ some card
      → last_charge_rowid k db.card_ledger_entries ≡ some w
      → get_card_watermark k db.transactions < w
      → unsettled k db ≢ pos 0
      → IsDueIfReturned k db s (settle_from eng card k w (unsettled k db) id db o)
  unfolding settle_from settlement_row
  settle_from-IsDue card w none owner found last above due = λ ok. cc
  settle_from-IsDue card w (some account) owner found last above due = λ ok. record {
    card = card;
    w = w;
    found = found;
    last = last;
    above = above;
    due = due;
    owned = rw owner refl;
    key = ground (arith, ok);
    payer = ground (arith, ok);
    amount = ground (arith, ok);
  }

  settle_up_to-IsDue :
      (card : Card) (o : Option ℕ)
      → get_card k db.cards ≡ some card
      → last_charge_rowid k db.card_ledger_entries ≡ o
      → IsDueIfReturned k db s (settle_up_to eng card k id db o)
  unfolding settle_up_to
  settle_up_to-IsDue card none found last = λ ok. cc
  settle_up_to-IsDue card (some w) found last =
      if_rule (IsDueIfReturned k db s)
        (leb w (get_card_watermark k db.transactions) || eqb_ℤ (unsettled k db) (pos 0)) _ _
        (λ _ ok. cc)
        (λ due.
          settle_from-IsDue card w (get_account card.account_id db.accounts) refl found last
            (ground (arith, due)) (λ e. ground (arith, due, e)))

  settle_found-IsDue :
      (o : Option Card)
      → get_card k db.cards ≡ o
      → IsDueIfReturned k db s (settle_found eng k id db o)
  unfolding settle_found
  settle_found-IsDue none found = λ ok. cc
  settle_found-IsDue (some card) found =
      settle_up_to-IsDue card (last_charge_rowid k db.card_ledger_entries) found refl

  settle_card-IsDue : IsDueIfReturned k db s (settle_card eng k id db)
  unfolding settle_card
  settle_card-IsDue = settle_found-IsDue (get_card k db.cards) refl

-- Where the key is taken, a settlement that is due and covered fails.
settle_card-taken :
    (eng : Engine) (k id : ℕ) (db : Db) (s : Transaction)
    → IsDue k db s
    → s.amount ≤ℤ get_balance s.sender_account_id db.accounts
    → is_some (get_transaction s.idempotency_key db.transactions) ≡ true
    → settle_card eng k id db ≡ (Outcome.raised ErrorCode.integrity, db)
unfolding settle_card settle_found settle_up_to settle_from get_balance
settle_card-taken eng k id db s d covered taken =
    elim (Option-cases (get_account d.card.account_id db.accounts)) [
      | inl missing ↦ ground (arith, d.owned, missing)
      | inr (account, owner) ↦
          let enough : unsettled k db ≤ℤ account.balance =
            rw
              (
                sym d.amount,
                sym (get_balance-of_found d.card.account_id account db owner),
                sym d.payer,
              )
              covered in
          let used : is_some (get_transaction (IdempotencyKey.settle k d.w) db.transactions)
              ≡ true =
            rw (sym d.key) taken in
          rw (d.found, d.last, owner)
            (ground (arith, d.above, d.due, eq_of_parts (unsettled k db) (pos 0), enough, used))
    ]

module _ (eng : Engine) (p : TransferRequest) (id : ℕ) (k : ℕ) (db : Db) (s : Transaction) where
  -- A transfer leaves a settlement due.
  transfer-IsDue : IsDue k db s → IsDue k (transfer eng p s.idempotency_key id db).1 s
  transfer-IsDue d =
      let f = transfer-Frames eng p s.idempotency_key id db in
      let same : unsettled k (transfer eng p s.idempotency_key id db).1 ≡ unsettled k db =
        rw (f.charges, f.watermark k) refl in
      record {
        card = d.card;
        w = d.w;
        found = rw f.cards d.found;
        last = rw f.charges d.last;
        above = rw (f.watermark k) d.above;
        due = rw same d.due;
        owned = f.accounts d.card.account_id ∙ d.owned;
        key = d.key;
        payer = d.payer;
        amount = d.amount ∙ sym same;
      }

-- Where a settlement would return the row `s`, and a client's transfer under the key of `s` returns
-- first and leaves the card's owner a balance that covers the amount of `s`, the settlement no longer
-- succeeds: its insert fails on the unique column and nothing is written.
pub settle_card-blocked :
    (eng : Engine) (p : TransferRequest) (k id id' id'' : ℕ) (db : Db) (s t : Transaction)
    → (settle_card eng k id db).0 ≡ Outcome.returned s
    → (transfer eng p s.idempotency_key id' db).0 ≡ Outcome.returned t
    → s.amount
      ≤ℤ get_balance s.sender_account_id (transfer eng p s.idempotency_key id' db).1.accounts
    → settle_card eng k id'' (transfer eng p s.idempotency_key id' db).1
      ≡ (Outcome.raised ErrorCode.integrity, (transfer eng p s.idempotency_key id' db).1)
settle_card-blocked eng p k id id' id'' db s t settles moves covered =
    settle_card-taken eng k id'' (transfer eng p s.idempotency_key id' db).1 s
      (transfer-IsDue eng p id' k db s (settle_card-IsDue eng k id db s settles)) covered
      (rw (transfer-Stored eng p s.idempotency_key id' db t moves).0 refl)
