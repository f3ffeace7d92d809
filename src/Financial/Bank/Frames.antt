-- ===== src/Financial/Bank/Frames.antt =====
-- What each operation leaves alone.
use kdt_ai_2_hands_on_experi.Common.{ℕ, ◌≡◌, arith}
use kdt_ai_2_hands_on_experi.Common.Int.{ℤ}
use kdt_ai_2_hands_on_experi.Financial.Rows.{
  AccountCreate, CardCreate, Db, Engine, IdempotencyKey, TransferRequest,
}
use kdt_ai_2_hands_on_experi.Financial.Queries.{get_card_watermark}
use kdt_ai_2_hands_on_experi.Financial.Account.{NewAccount, create_account}
use kdt_ai_2_hands_on_experi.Financial.Transfer.{transfer}
use kdt_ai_2_hands_on_experi.Financial.Cards.{create_card, charge_card}
use kdt_ai_2_hands_on_experi.Financial.Cards.Usage.{IsCards}
use kdt_ai_2_hands_on_experi.Financial.Invariant.{IsLedger}

-- The tables of the accounts are the same.
pub record SameLedger (db db' : Db) : Type 0 where
  pub accounts : db'.accounts ≡ db.accounts
  pub entries : db'.ledger_entries ≡ db.ledger_entries

-- The tables of the cards are the same, and every watermark.
pub record SameCards (db db' : Db) : Type 0 where
  pub cards : db'.cards ≡ db.cards
  pub charges : db'.card_ledger_entries ≡ db.card_ledger_entries
  pub watermarks :
      (k : ℕ) → get_card_watermark k db'.transactions ≡ get_card_watermark k db.transactions

pub SameLedger-IsLedger : {db db' : Db} → SameLedger db db' → IsLedger db → IsLedger db'
SameLedger-IsLedger same h = record {
  unique = rw same.accounts h.unique;
  reconciled = rw (same.accounts, same.entries) h.reconciled;
  known = rw (same.accounts, same.entries) h.known;
}

pub SameCards-IsCards : {db db' : Db} → SameCards db db' → IsCards db → IsCards db'
SameCards-IsCards same h = record {
  within = λ k c. rw (same.cards, same.watermarks k, same.charges) (h.within k c);
  known = rw (same.cards, same.charges) h.known;
  below = λ k. rw (same.watermarks k, same.charges) (h.below k);
}

pub transfer-SameCards :
    (eng : Engine) (p : TransferRequest) (key : IdempotencyKey) (id : ℕ) (db : Db)
    → SameCards db (transfer eng p key id db).1
unfolding transfer
transfer-SameCards eng p key id db = record {
  cards = ground arith;
  charges = ground arith;
  watermarks = λ k. ground arith;
}

pub create_account-SameCards :
    (eng : Engine) (payload : AccountCreate) (new : NewAccount) (db : Db)
    → SameCards db (create_account eng payload new db).1
unfolding create_account
create_account-SameCards eng payload new db = record {
  cards = ground arith;
  charges = ground arith;
  watermarks = λ k. ground arith;
}

pub create_card-SameLedger :
    (payload : CardCreate) (id : ℕ) (db : Db) → SameLedger db (create_card payload id db).1
unfolding create_card
create_card-SameLedger payload id db = record { accounts = ground arith; entries = ground arith }

pub charge_card-SameLedger :
    (eng : Engine) (k : ℕ) (amount : ℤ) (key : IdempotencyKey) (db : Db)
    → SameLedger db (charge_card eng k amount key db).1
unfolding charge_card
charge_card-SameLedger eng k amount key db = record {
  accounts = ground arith;
  entries = ground arith;
}
