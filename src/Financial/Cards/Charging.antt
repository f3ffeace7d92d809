-- ===== src/Financial/Cards/Charging.antt =====
-- `create_card` and `charge_card`, and the limit of every card.
use kdt_ai_2_hands_on_experi.Common.{
  ℕ, ◌≡◌, refl, true, Option, none, some, arith, is_some, if_rule,
}
use kdt_ai_2_hands_on_experi.Common.Int.{ℤ, pos, ◌+ℤ◌, ◌≤ℤ◌, int_laws, ltb_ℤ}
use kdt_ai_2_hands_on_experi.Financial.Rows.{
  Account, Card, CardCreate, CardLedgerEntry, Db, Engine, IdempotencyKey, key_eq_refl,
}
use kdt_ai_2_hands_on_experi.Financial.Queries.{get_card, get_charge, get_card_watermark}
use kdt_ai_2_hands_on_experi.Financial.Account.{Outcome}
use kdt_ai_2_hands_on_experi.Financial.Cards.{
  unsettled, charge_new, charge_keyed, charge_found, charge_card, create_card_for, create_card,
}
use kdt_ai_2_hands_on_experi.Financial.Cards.Usage.{IsCards, KnownCharges-cons, usage-unknown}

module _ (eng : Engine) (card : Card) (k : ℕ) (amount : ℤ) (key : IdempotencyKey) (db : Db) where
  charge_new-IsCards :
      get_card k db.cards ≡ some card → IsCards db → IsCards (charge_new eng card k amount key db).1
  unfolding charge_new
  charge_new-IsCards found h =
      if_rule {A = Outcome CardLedgerEntry × Db} (λ r. IsCards r.1)
        (ltb_ℤ card.limit (unsettled k db +ℤ amount)) _ _ (λ _. h)
        (λ fits. record {
          within = λ j c e. grind (int_laws, h.within j c e, found, fits);
          known = (ground (arith, found), h.known);
          below = λ j. ground (arith, h.below j);
        })

  charge_keyed-IsCards :
      (o : Option CardLedgerEntry)
      → get_card k db.cards ≡ some card
      → IsCards db
      → IsCards (charge_keyed eng card k amount key db o).1
  unfolding charge_keyed
  charge_keyed-IsCards none found h = charge_new-IsCards found h
  charge_keyed-IsCards (some e) found h = h

charge_found-IsCards :
    (eng : Engine) (k : ℕ) (amount : ℤ) (key : IdempotencyKey) (db : Db) (o : Option Card)
    → get_card k db.cards ≡ o
    → IsCards db
    → IsCards (charge_found eng k amount key db o).1
unfolding charge_found
charge_found-IsCards eng k amount key db none found h = h
charge_found-IsCards eng k amount key db (some card) found h =
    charge_keyed-IsCards eng card k amount key db (get_charge key db.card_ledger_entries) found h

-- A charge of any amount, accepted, replayed or refused, keeps every card's unsettled usage within its
-- limit, every charge on an existing card, and every watermark at or below the last rowid.
pub charge_card-IsCards :
    (eng : Engine) (k : ℕ) (amount : ℤ) (key : IdempotencyKey) (db : Db)
    → IsCards db
    → IsCards (charge_card eng k amount key db).1
unfolding charge_card
charge_card-IsCards eng k amount key db =
    charge_found-IsCards eng k amount key db (get_card k db.cards) refl

module _ (eng : Engine) (card : Card) (k : ℕ) (amount : ℤ) (key : IdempotencyKey) (db : Db)
    (e : CardLedgerEntry) (ok : (charge_new eng card k amount key db).0 ≡ Outcome.returned e) where
  charge_new-stored :
      get_charge key (charge_new eng card k amount key db).1.card_ledger_entries ≡ some e
  unfolding charge_new
  charge_new-stored = ground (arith, ok, key_eq_refl key)

charge_keyed-stored :
    (eng : Engine) (card : Card) (k : ℕ) (amount : ℤ) (key : IdempotencyKey) (db : Db)
    (o : Option CardLedgerEntry) (e : CardLedgerEntry)
    → get_charge key db.card_ledger_entries ≡ o
    → (charge_keyed eng card k amount key db o).0 ≡ Outcome.returned e
    → get_charge key (charge_keyed eng card k amount key db o).1.card_ledger_entries ≡ some e
unfolding charge_keyed
charge_keyed-stored eng card k amount key db none e at ok =
    charge_new-stored eng card k amount key db e ok
charge_keyed-stored eng card k amount key db (some e') e at ok = ground (arith, at, ok)

charge_found-stored :
    (eng : Engine) (k : ℕ) (amount : ℤ) (key : IdempotencyKey) (db : Db) (o : Option Card)
    (e : CardLedgerEntry)
    → (charge_found eng k amount key db o).0 ≡ Outcome.returned e
    → get_charge key (charge_found eng k amount key db o).1.card_ledger_entries ≡ some e
unfolding charge_found
charge_found-stored eng k amount key db none e ok = cc
charge_found-stored eng k amount key db (some card) e ok =
    charge_keyed-stored eng card k amount key db (get_charge key db.card_ledger_entries) e refl ok

charge_card-of_stored :
    (eng : Engine) (k : ℕ) (amount : ℤ) (key : IdempotencyKey) (db : Db) (e : CardLedgerEntry)
    → is_some (get_card k db.cards) ≡ true
    → get_charge key db.card_ledger_entries ≡ some e
    → charge_card eng k amount key db ≡ (Outcome.returned e, db)
unfolding charge_card charge_found charge_keyed
charge_card-of_stored eng k amount key db e known stored = ground arith

charge_card-stored :
    (eng : Engine) (k : ℕ) (amount : ℤ) (key : IdempotencyKey) (db : Db) (e : CardLedgerEntry)
    → (charge_card eng k amount key db).0 ≡ Outcome.returned e
    → get_charge key (charge_card eng k amount key db).1.card_ledger_entries ≡ some e
unfolding charge_card
charge_card-stored eng k amount key db e ok =
    charge_found-stored eng k amount key db (get_card k db.cards) e ok

-- After a charge that returned `e`, the next call with the same key, if the card that it names exists,
-- returns `e` and writes nothing, whatever that card and the call's amount are.
pub charge_card-replay :
    (eng : Engine) (k j : ℕ) (amount other : ℤ) (key : IdempotencyKey) (db : Db)
    (e : CardLedgerEntry)
    → (charge_card eng k amount key db).0 ≡ Outcome.returned e
    → is_some (get_card j (charge_card eng k amount key db).1.cards) ≡ true
    → charge_card eng j other key (charge_card eng k amount key db).1
      ≡ (Outcome.returned e, (charge_card eng k amount key db).1)
charge_card-replay eng k j amount other key db e ok known =
    charge_card-of_stored eng j other key (charge_card eng k amount key db).1 e known
      (charge_card-stored eng k amount key db e ok)

create_card_for-IsCards :
    (payload : CardCreate) (id : ℕ) (db : Db) (o : Option Account)
    → pos 0 ≤ℤ payload.limit
    → IsCards db
    → IsCards (create_card_for payload id db o).1
unfolding create_card_for
create_card_for-IsCards payload id db none positive h = h
create_card_for-IsCards payload id db (some acct) positive h =
    if_rule {A = Outcome Card × Db} (λ r. IsCards r.1) (is_some (get_card id db.cards)) _ _ (λ _. h)
      (λ fresh. record {
        within = λ j c e. grind (
          int_laws,
          h.within j c,
          usage-unknown id (get_card_watermark id db.transactions) db.cards db.card_ledger_entries
              (ground (arith, fresh)) h.known,
          e,
        );
        known = KnownCharges-cons _ db.cards db.card_ledger_entries h.known;
        below = h.below;
      })

-- A new card whose limit is not negative keeps the invariant of the cards.
pub create_card-IsCards :
    (payload : CardCreate) (id : ℕ) (db : Db)
    → pos 0 ≤ℤ payload.limit
    → IsCards db
    → IsCards (create_card payload id db).1
unfolding create_card
create_card-IsCards payload id db = create_card_for-IsCards payload id db _
