-- ===== src/Financial/Cards/Payment.antt =====
-- The writes of a settlement: one debit, one balance, one transaction that raises the watermark.
use kdt_ai_2_hands_on_experi.Common.{ℕ, ◌≡◌, ◌<◌, refl, ◌∙◌, some, ◌∷◌, arith}
use kdt_ai_2_hands_on_experi.Common.Int.{ℤ, pos, ◌-ℤ◌, int_laws}
use kdt_ai_2_hands_on_experi.Financial.Rows.{Account, Card, Db, Engine}
use kdt_ai_2_hands_on_experi.Financial.Queries.{
  get_account, get_card_watermark, last_charge_rowid, ledger_balance,
}
use kdt_ai_2_hands_on_experi.Financial.Queries.Laws.{
  Reconciled-set_balance, Reconciled-get_account, UniqueIds-set_balance, get_account-id,
  is_some-get_account-set_balance,
}
use kdt_ai_2_hands_on_experi.Financial.Invariant.{IsLedger, Known-set_balance, ledger_balance-debit}
use kdt_ai_2_hands_on_experi.Financial.Cards.{unsettled, settlement_debit, apply_settlement}
use kdt_ai_2_hands_on_experi.Financial.Cards.Usage.{
  IsCards, usage-above_last, last_charge_rowid-le_max,
}

module _ (eng : Engine) (card : Card) (k w : ℕ) (amount : ℤ) (id : ℕ) (account : Account)
    (db : Db) where
  pub apply_settlement-IsLedger :
      get_account card.account_id db.accounts ≡ some account
      → IsLedger db
      → IsLedger (apply_settlement eng card k w amount id account db)
  unfolding apply_settlement
  apply_settlement-IsLedger found h =
      let same = get_account-id card.account_id account db.accounts found in
      let e = settlement_debit eng card amount id account db in
      let at = λ (j : ℕ). ledger_balance-debit j e db.ledger_entries refl in
      let balance =
        Reconciled-get_account _ card.account_id account db.accounts h.reconciled found in
      record {
        unique = UniqueIds-set_balance account.account_id _ db.accounts h.unique;
        reconciled =
            Reconciled-set_balance (λ j. ledger_balance j db.ledger_entries)
              (λ j. ledger_balance j (e ∷ db.ledger_entries)) account.account_id
              (account.balance -ℤ amount) db.accounts
              (at account.account_id ∙ ground (arith, same, balance))
              (λ j ne. at j ∙ ground (arith, same)) h.reconciled;
        known = (
          is_some-get_account-set_balance card.account_id account.account_id
                (account.balance -ℤ amount) db.accounts
              ∙ ground (arith, found),
          Known-set_balance account.account_id _ db.accounts db.ledger_entries h.known,
        );
      }

  pub apply_settlement-cleared :
      last_charge_rowid k db.card_ledger_entries ≡ some w
      → get_card_watermark k db.transactions < w
      → (get_card_watermark k (apply_settlement eng card k w amount id account db).transactions ≡ w)
        × (unsettled k (apply_settlement eng card k w amount id account db) ≡ pos 0)
  unfolding apply_settlement
  apply_settlement-cleared last above =
      let watermark : get_card_watermark k
            (apply_settlement eng card k w amount id account db).transactions
          ≡ w =
        ground (arith, above) in
      (watermark, rw watermark (usage-above_last k w db.card_ledger_entries (ground (arith, last))))

  pub apply_settlement-IsCards :
      last_charge_rowid k db.card_ledger_entries ≡ some w
      → get_card_watermark k db.transactions < w
      → IsCards db
      → IsCards (apply_settlement eng card k w amount id account db)
  unfolding apply_settlement
  apply_settlement-IsCards last above h = record {
    within = λ j c e. grind (int_laws, h.within j c e, (apply_settlement-cleared last above).1);
    known = h.known;
    below = λ j. ground (arith, h.below j, last, last_charge_rowid-le_max k db.card_ledger_entries);
  }
