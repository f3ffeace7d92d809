-- ===== src/Financial/Transfer/Validation.antt =====
-- What the validations of `transfer` guarantee.
use kdt_ai_2_hands_on_experi.Common.{◌≡◌, ◌≢◌, some, arith}
use kdt_ai_2_hands_on_experi.Common.Int.{pos, ◌≤ℤ◌, ◌<ℤ◌}
use kdt_ai_2_hands_on_experi.Financial.Rows.{Account, Db, TransferRequest}
use kdt_ai_2_hands_on_experi.Financial.Queries.{get_account, get_account_by_number}
use kdt_ai_2_hands_on_experi.Financial.Queries.Laws.{
  UniqueIds, get_account_by_number-number, get_account-get_account_by_number,
}
use kdt_ai_2_hands_on_experi.Financial.Transfer.{Checked, check}

-- The facts about an accepted request.
pub record Accepts (p : TransferRequest) (db : Db) (s r : Account) : Type 0 where
  pub sender : get_account_by_number p.sender_account_number db.accounts ≡ some s
  pub receiver : get_account_by_number p.receiver_account_number db.accounts ≡ some r
  pub differ : p.sender_account_number ≢ p.receiver_account_number
  pub bank : p.receiver_bank_name ≡ r.bank_name
  pub positive : pos 0 <ℤ p.amount
  pub covered : p.amount ≤ℤ s.balance

pub check-Accepts :
    (p : TransferRequest) (db : Db) (s r : Account)
    → check p db ≡ Checked.accepted s r
    → Accepts p db s r
unfolding check
check-Accepts p db s r h = ground arith

-- The two accounts are found by their ids, which differ.
pub Accepts-ids :
    (p : TransferRequest) (db : Db) (s r : Account)
    → UniqueIds db.accounts
    → Accepts p db s r
    → (get_account s.account_id db.accounts ≡ some s)
      × (get_account r.account_id db.accounts ≡ some r)
      × (s.account_id ≢ r.account_id)
Accepts-ids p db s r u h =
    let found_s = get_account-get_account_by_number _ s db.accounts u h.sender in
    let found_r = get_account-get_account_by_number _ r db.accounts u h.receiver in
    let number_s = get_account_by_number-number _ s db.accounts h.sender in
    let number_r = get_account_by_number-number _ r db.accounts h.receiver in
    (found_s, found_r, ground arith)
