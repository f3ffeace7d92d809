-- ===== src/Financial/Bank/Reachable.antt =====
-- The invariants in every state that requests can reach.
use kdt_ai_2_hands_on_experi.Common.{arith}
use kdt_ai_2_hands_on_experi.Financial.Rows.{Db, Engine}
use kdt_ai_2_hands_on_experi.Financial.Account.Laws.{create_account-Opens}
use kdt_ai_2_hands_on_experi.Financial.Invariant.{IsLedger}
use kdt_ai_2_hands_on_experi.Financial.Transfer.Conservation.{transfer-Keeps}
use kdt_ai_2_hands_on_experi.Financial.Cards.Usage.{IsCards}
use kdt_ai_2_hands_on_experi.Financial.Cards.Charging.{charge_card-IsCards, create_card-IsCards}
use kdt_ai_2_hands_on_experi.Financial.Cards.Soundness.{settle_card-IsSound}
use kdt_ai_2_hands_on_experi.Financial.Closing.{run_daily_closing}
use kdt_ai_2_hands_on_experi.Financial.Bank.{
  empty_db, Request, create_account_request, transfer_request, create_card_request, charge_request,
  settle_request, closing_request, handle,
}
use kdt_ai_2_hands_on_experi.Financial.Bank.Frames.{
  SameLedger-IsLedger, SameCards-IsCards, transfer-SameCards, create_account-SameCards,
  create_card-SameLedger, charge_card-SameLedger,
}

pub record IsBank (db : Db) : Type 0 where
  pub ledger : IsLedger db
  pub cards : IsCards db

-- The states that requests, in any order and with any outcome, lead to.
pub data Reachable (eng : Engine) : Db → Type 0 where
  start : Reachable eng empty_db
  step : {db : Db} (r : Request) → Reachable eng db → Reachable eng (handle eng r db)

empty_db-IsBank : IsBank empty_db
empty_db-IsBank = record {
  ledger = record { unique = tt; reconciled = tt; known = tt };
  cards = record { within = λ k c e. cc; known = tt; below = λ k. omega arith };
}

pub handle-IsBank : (eng : Engine) (r : Request) (db : Db) → IsBank db → IsBank (handle eng r db)
unfolding handle run_daily_closing
handle-IsBank eng (create_account_request payload new) db h = record {
  ledger = (create_account-Opens eng payload new db h.ledger).ledger;
  cards = SameCards-IsCards (create_account-SameCards eng payload new db) h.cards;
}
handle-IsBank eng (transfer_request p key id) db h = record {
  ledger = (transfer-Keeps eng p key id db h.ledger).ledger;
  cards = SameCards-IsCards (transfer-SameCards eng p key id db) h.cards;
}
handle-IsBank eng (create_card_request payload id limited) db h = record {
  ledger = SameLedger-IsLedger (create_card-SameLedger payload id db) h.ledger;
  cards = create_card-IsCards payload id db (omega arith) h.cards;
}
handle-IsBank eng (charge_request k amount key) db h = record {
  ledger = SameLedger-IsLedger (charge_card-SameLedger eng k amount key db) h.ledger;
  cards = charge_card-IsCards eng k amount key db h.cards;
}
handle-IsBank eng (settle_request k id) db h =
    let sound = settle_card-IsSound eng k id db (h.ledger, h.cards) in
    record { ledger = sound.0; cards = sound.1 }
handle-IsBank eng (closing_request date) db h = record {
  ledger = record {
    unique = h.ledger.unique;
    reconciled = h.ledger.reconciled;
    known = h.ledger.known;
  };
  cards = record { within = h.cards.within; known = h.cards.known; below = h.cards.below };
}

-- Every reachable state satisfies the invariants of the ledger and of the cards.
pub Reachable-IsBank : {eng : Engine} {db : Db} → Reachable eng db → IsBank db
Reachable-IsBank start = empty_db-IsBank
Reachable-IsBank (step {db = db} r h) = handle-IsBank _ r db (Reachable-IsBank h)
