-- ===== src/Financial/Closing/Laws.antt =====
-- The rows that the end-of-day batch writes.
use kdt_ai_2_hands_on_experi.Common.{
  ℕ, ◌≡◌, refl, sym, true, false, List, [], ◌∷◌, arith, is_some, if_rule,
}
use kdt_ai_2_hands_on_experi.Common.Lists.{All}
use kdt_ai_2_hands_on_experi.Financial.Rows.{Account, DailyClosingSnapshot, Db}
use kdt_ai_2_hands_on_experi.Financial.Queries.{get_account, get_balance, has_snapshot}
use kdt_ai_2_hands_on_experi.Financial.Queries.Laws.{Reconciled-get_balance}
use kdt_ai_2_hands_on_experi.Financial.Invariant.{IsLedger}
use kdt_ai_2_hands_on_experi.Financial.Closing.{close_accounts, run_daily_closing}

known_cons :
    (b : Account) (accounts others : List Account)
    → All (λ a. is_some (get_account a.account_id accounts) ≡ true) others
    → All (λ a. is_some (get_account a.account_id (b ∷ accounts)) ≡ true) others
known_cons b accounts [] h = tt
known_cons b accounts (a ∷ rest) h = ground (arith, known_cons b accounts rest h.1)

known_self :
    (accounts : List Account)
    → All (λ a. is_some (get_account a.account_id accounts) ≡ true) accounts
known_self [] = tt
known_self (a ∷ rest) = (ground arith, known_cons a rest rest (known_self rest))

-- The closing balance of a new row.
abbrev pub ClosesAt : Db → ℕ → DailyClosingSnapshot → Type 0
ClosesAt db date s =
    (s.business_date ≡ date)
    × (s.closing_balance ≡ get_balance s.account_id db.accounts)
    × (has_snapshot s.account_id date db.snapshots ≡ false)

close_accounts-ClosesAt :
    (date : ℕ) (db : Db) (accounts : List Account)
    → IsLedger db
    → All (λ a. is_some (get_account a.account_id db.accounts) ≡ true) accounts
    → All (ClosesAt db date) (close_accounts date db accounts)
unfolding close_accounts
close_accounts-ClosesAt date db [] ledger known = tt
close_accounts-ClosesAt date db (a ∷ rest) ledger known =
    let created = close_accounts-ClosesAt date db rest ledger known.1 in
    if_rule (All (ClosesAt db date)) (has_snapshot a.account_id date db.snapshots) _ _
      (λ _. created)
      (λ open_. (
        (
          refl,
          sym (Reconciled-get_balance _ a.account_id db.accounts ledger.reconciled known.0),
          open_,
        ),
        created,
      ))

-- Under the invariant every row that the batch makes is for the date, for an account that had no row,
-- and closes it at its stored balance.
pub run_daily_closing-ClosesAt :
    (date : ℕ) (db : Db) → IsLedger db → All (ClosesAt db date) (run_daily_closing date db).0
unfolding run_daily_closing
run_daily_closing-ClosesAt date db ledger =
    close_accounts-ClosesAt date db db.accounts ledger (known_self db.accounts)
