-- ===== src/Financial/Cards/Soundness.antt =====
-- Every branch of `settle_card` keeps the invariants.
use kdt_ai_2_hands_on_experi.Common.{
  ℕ, ◌≡◌, ◌<◌, refl, Option, none, some, arith, is_some, leb, ◌||◌, if_rule,
}
use kdt_ai_2_hands_on_experi.Common.Int.{pos, eqb_ℤ, ltb_ℤ}
use kdt_ai_2_hands_on_experi.Financial.Rows.{Account, Card, Db, Engine, IdempotencyKey, Transaction}
use kdt_ai_2_hands_on_experi.Financial.Queries.{
  get_account, get_card, get_card_watermark, get_transaction, last_charge_rowid,
}
use kdt_ai_2_hands_on_experi.Financial.Account.{Outcome}
use kdt_ai_2_hands_on_experi.Financial.Invariant.{IsLedger}
use kdt_ai_2_hands_on_experi.Financial.Cards.{
  unsettled, settle_from, settle_up_to, settle_found, settle_card,
}
use kdt_ai_2_hands_on_experi.Financial.Cards.Usage.{IsCards}
use kdt_ai_2_hands_on_experi.Financial.Cards.Payment.{
  apply_settlement-IsLedger, apply_settlement-IsCards,
}

-- What every branch of `settle_card` keeps.
abbrev IsSound : Db → Type 0
IsSound db = IsLedger db × IsCards db

settle_from-IsSound :
    (eng : Engine) (card : Card) (k w id : ℕ) (db : Db) (o : Option Account)
    → get_account card.account_id db.accounts ≡ o
    → last_charge_rowid k db.card_ledger_entries ≡ some w
    → get_card_watermark k db.transactions < w
    → IsSound db
    → IsSound (settle_from eng card k w (unsettled k db) id db o).1
unfolding settle_from
settle_from-IsSound eng card k w id db none found last above h = h
settle_from-IsSound eng card k w id db (some account) found last above h =
    if_rule {A = Outcome Transaction × Db} (λ r. IsSound r.1)
      (ltb_ℤ account.balance (unsettled k db)) _ _ (λ _. h)
      (λ _.
        if_rule {A = Outcome Transaction × Db} (λ r. IsSound r.1)
          (is_some (get_transaction (IdempotencyKey.settle k w) db.transactions)) _ _ (λ _. h)
          (λ _. (
            apply_settlement-IsLedger eng card k w (unsettled k db) id account db found h.0,
            apply_settlement-IsCards eng card k w (unsettled k db) id account db last above h.1,
          )))

settle_up_to-IsSound :
    (eng : Engine) (card : Card) (k id : ℕ) (db : Db) (o : Option ℕ)
    → last_charge_rowid k db.card_ledger_entries ≡ o
    → IsSound db
    → IsSound (settle_up_to eng card k id db o).1
unfolding settle_up_to
settle_up_to-IsSound eng card k id db none last h = h
settle_up_to-IsSound eng card k id db (some w) last h =
    if_rule {A = Outcome Transaction × Db} (λ r. IsSound r.1)
      (leb w (get_card_watermark k db.transactions) || eqb_ℤ (unsettled k db) (pos 0)) _ _ (λ _. h)
      (λ due.
        settle_from-IsSound eng card k w id db (get_account card.account_id db.accounts) refl last
          (ground (arith, due)) h)

settle_found-IsSound :
    (eng : Engine) (k id : ℕ) (db : Db) (o : Option Card)
    → IsSound db
    → IsSound (settle_found eng k id db o).1
unfolding settle_found
settle_found-IsSound eng k id db none h = h
settle_found-IsSound eng k id db (some card) h =
    settle_up_to-IsSound eng card k id db (last_charge_rowid k db.card_ledger_entries) refl h

-- A settlement, refused or not, keeps the invariants of the ledger and of the cards.
pub settle_card-IsSound :
    (eng : Engine) (k id : ℕ) (db : Db) → IsSound db → IsSound (settle_card eng k id db).1
unfolding settle_card
settle_card-IsSound eng k id db h = settle_found-IsSound eng k id db (get_card k db.cards) h
