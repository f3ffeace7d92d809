-- ===== src/Financial/Cards/Settling.antt =====
-- What a settlement of a card pays.
use kdt_ai_2_hands_on_experi.Common.{
  ℕ, ◌≡◌, ◌≢◌, ◌<◌, refl, sym, ◌∙◌, subst, Option, none, some, arith, is_some, leb, ◌||◌, if_rule,
}
use kdt_ai_2_hands_on_experi.Common.Int.{pos, ◌-ℤ◌, ◌≤ℤ◌, eqb_ℤ, ltb_ℤ}
use kdt_ai_2_hands_on_experi.Financial.Rows.{Account, Card, Db, Engine, IdempotencyKey, Transaction}
use kdt_ai_2_hands_on_experi.Financial.Queries.{
  get_account, get_balance, get_card, get_card_watermark, get_transaction, last_charge_rowid,
  set_balance,
}
use kdt_ai_2_hands_on_experi.Financial.Queries.Laws.{
  get_account-id, get_balance-set_balance_self, get_balance-set_balance_ne,
}
use kdt_ai_2_hands_on_experi.Financial.Account.{Outcome}
use kdt_ai_2_hands_on_experi.Financial.Transfer.Moves.{get_balance-of_found}
use kdt_ai_2_hands_on_experi.Financial.Cards.{
  unsettled, settlement_row, apply_settlement, settle_from, settle_up_to, settle_found, settle_card,
}
use kdt_ai_2_hands_on_experi.Financial.Cards.Payment.{apply_settlement-cleared}

-- What a settlement `t` of card `k` did between `db` and `db'`.
pub record Settles (k : ℕ) (card : Card) (db : Db) (t : Transaction) (db' : Db) : Type 0 where
  pub amount : t.amount ≡ unsettled k db
  pub cleared : unsettled k db' ≡ pos 0
  pub paid :
      get_balance card.account_id db'.accounts ≡ get_balance card.account_id db.accounts -ℤ t.amount
  pub covered : t.amount ≤ℤ get_balance card.account_id db.accounts
  pub others :
      (j : ℕ) → j ≢ card.account_id → get_balance j db'.accounts ≡ get_balance j db.accounts
  pub watermark : get_card_watermark k db.transactions < get_card_watermark k db'.transactions
  pub same_cards : db'.cards ≡ db.cards
  pub last :
      last_charge_rowid k db'.card_ledger_entries ≡ some (get_card_watermark k db'.transactions)

-- A call that returned `t` has settled the card.
abbrev SettlesIfReturned : ℕ → Card → Db → Transaction → Outcome Transaction × Db → Type 0
SettlesIfReturned k card db t r = r.0 ≡ Outcome.returned t → Settles k card db t r.1

module _ (eng : Engine) (card : Card) (k w id : ℕ) (db : Db) where
  apply_settlement-Settles :
      (account : Account)
      → get_account card.account_id db.accounts ≡ some account
      → last_charge_rowid k db.card_ledger_entries ≡ some w
      → get_card_watermark k db.transactions < w
      → unsettled k db ≤ℤ account.balance
      → Settles k card db
          (settlement_row eng card k w (unsettled k db) id)
          (apply_settlement eng card k w (unsettled k db) id account db)
  unfolding apply_settlement
  apply_settlement-Settles account found last above covered =
      let same = get_account-id card.account_id account db.accounts found in
      let v = account.balance -ℤ unsettled k db in
      let (at_w, cleared) =
        apply_settlement-cleared eng card k w (unsettled k db) id account db last above in
      let before : get_balance card.account_id db.accounts ≡ account.balance =
        get_balance-of_found card.account_id account db found in
      record {
        amount = refl;
        cleared = cleared;
        paid = rw before (
            subst (λ j. get_balance card.account_id (set_balance j v db.accounts) ≡ v) (sym same)
              (get_balance-set_balance_self card.account_id v db.accounts (ground (arith, found))));
        covered = rw before covered;
        others = λ j ne.
            get_balance-set_balance_ne j account.account_id v db.accounts (λ e. ne (e ∙ same));
        watermark = rw at_w above;
        same_cards = refl;
        last = rw at_w last;
      }

  settle_from-Settles :
      (o : Option Account) (t : Transaction)
      → get_account card.account_id db.accounts ≡ o
      → last_charge_rowid k db.card_ledger_entries ≡ some w
      → get_card_watermark k db.transactions < w
      → SettlesIfReturned k card db t (settle_from eng card k w (unsettled k db) id db o)
  unfolding settle_from
  settle_from-Settles none t found last above = λ ok. cc
  settle_from-Settles (some account) t found last above =
      if_rule (SettlesIfReturned k card db t) (ltb_ℤ account.balance (unsettled k db)) _ _
        (λ _ ok. cc)
        (λ covered.
          if_rule (SettlesIfReturned k card db t)
            (is_some (get_transaction (IdempotencyKey.settle k w) db.transactions)) _ _ (λ _ ok. cc)
            (λ _ ok.
              let row : settlement_row eng card k w (unsettled k db) id ≡ t = ground (arith, ok) in
              subst
                (λ u.
                  Settles k card db u
                    (apply_settlement eng card k w (unsettled k db) id account db))
                row (apply_settlement-Settles account found last above (ground (arith, covered)))))

module _ (eng : Engine) (card : Card) (k id : ℕ) (db : Db) where
  settle_up_to-Settles :
      (o : Option ℕ) (t : Transaction)
      → last_charge_rowid k db.card_ledger_entries ≡ o
      → SettlesIfReturned k card db t (settle_up_to eng card k id db o)
  unfolding settle_up_to
  settle_up_to-Settles none t last = λ ok. cc
  settle_up_to-Settles (some w) t last =
      if_rule (SettlesIfReturned k card db t)
        (leb w (get_card_watermark k db.transactions) || eqb_ℤ (unsettled k db) (pos 0)) _ _
        (λ _ ok. cc)
        (λ due.
          settle_from-Settles eng card k w id db (get_account card.account_id db.accounts) t refl
            last (ground (arith, due)))

-- A settlement that returns `t` has moved exactly what the card owed: that is the amount of `t`, the
-- card then owes 0, the owner's stored balance covered it and falls by it, no other balance changes,
-- and the watermark rises to the card's last charge.
pub settle_card-Settles :
    (eng : Engine) (k id : ℕ) (db : Db) (card : Card) (t : Transaction)
    → get_card k db.cards ≡ some card
    → (settle_card eng k id db).0 ≡ Outcome.returned t
    → Settles k card db t (settle_card eng k id db).1
unfolding settle_card settle_found
settle_card-Settles eng k id db card t found =
    rw found
      (settle_up_to-Settles eng card k id db (last_charge_rowid k db.card_ledger_entries) t refl)
