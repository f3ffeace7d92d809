-- ===== src/Financial/Transfer/Moves.antt =====
-- What a new transfer does to the balances.
use kdt_ai_2_hands_on_experi.Common.{ℕ, ◌≡◌, ◌≢◌, refl, ◌∙◌, subst, none, some, arith}
use kdt_ai_2_hands_on_experi.Common.Int.{pos, ◌+ℤ◌, ◌-ℤ◌, ◌≤ℤ◌, ◌<ℤ◌}
use kdt_ai_2_hands_on_experi.Financial.Rows.{
  Account, Db, IdempotencyKey, Transaction, TransferRequest, Engine,
}
use kdt_ai_2_hands_on_experi.Financial.Queries.{
  get_account, get_account_by_number, get_balance, get_transaction,
}
use kdt_ai_2_hands_on_experi.Financial.Queries.Laws.{
  get_balance-set_balance_self, get_balance-set_balance_ne, is_some-get_account-set_balance,
}
use kdt_ai_2_hands_on_experi.Financial.Account.{Outcome}
use kdt_ai_2_hands_on_experi.Financial.Invariant.{IsLedger}
use kdt_ai_2_hands_on_experi.Financial.Transfer.{
  Checked, check, transfer_row, apply_transfer, commit_transfer, transfer_keyed, transfer,
}
use kdt_ai_2_hands_on_experi.Financial.Transfer.Validation.{Accepts, check-Accepts, Accepts-ids}

-- The effect of the new row `t` on the stored balances.
pub record Moved (p : TransferRequest) (db : Db) (t : Transaction) (db' : Db) : Type 0 where
  pub sent :
      get_balance t.sender_account_id db'.accounts
      ≡ get_balance t.sender_account_id db.accounts -ℤ p.amount
  pub received :
      get_balance t.receiver_account_id db'.accounts
      ≡ get_balance t.receiver_account_id db.accounts +ℤ p.amount
  pub others :
      (k : ℕ)
      → k ≢ t.sender_account_id
      → k ≢ t.receiver_account_id
      → get_balance k db'.accounts ≡ get_balance k db.accounts
  pub positive : pos 0 <ℤ p.amount
  pub covered : p.amount ≤ℤ get_balance t.sender_account_id db.accounts
  pub differ : t.sender_account_id ≢ t.receiver_account_id

pub get_balance-of_found :
    (k : ℕ) (a : Account) (db : Db)
    → get_account k db.accounts ≡ some a
    → get_balance k db.accounts ≡ a.balance
unfolding get_balance
get_balance-of_found k a db h = ground arith

apply_transfer-Moved :
    (eng : Engine) (p : TransferRequest) (key : IdempotencyKey) (id : ℕ) (s r : Account) (db : Db)
    → Accepts p db s r
    → get_account s.account_id db.accounts ≡ some s
    → get_account r.account_id db.accounts ≡ some r
    → s.account_id ≢ r.account_id
    → Moved p db (transfer_row eng p key id s r) (apply_transfer eng p key id s r db)
unfolding apply_transfer
apply_transfer-Moved eng p key id s r db ok found_s found_r differ =
    let balance_s = get_balance-of_found s.account_id s db found_s in
    let balance_r = get_balance-of_found r.account_id r db found_r in
    let vs = s.balance -ℤ p.amount in
    let vr = r.balance +ℤ p.amount in
    record {
      sent =
          get_balance-set_balance_ne s.account_id r.account_id vr _ differ
          ∙ get_balance-set_balance_self s.account_id vs db.accounts (ground (arith, found_s))
          ∙ rw balance_s;
      received =
          get_balance-set_balance_self r.account_id vr _ (
            is_some-get_account-set_balance r.account_id s.account_id vs db.accounts
            ∙ ground (arith, found_r))
          ∙ rw balance_r;
      others = λ k ks kr.
          get_balance-set_balance_ne k r.account_id vr _ kr
          ∙ get_balance-set_balance_ne k s.account_id vs db.accounts ks;
      positive = ok.positive;
      covered = rw balance_s ok.covered;
      differ = differ;
    }

module _ (eng : Engine) (p : TransferRequest) (key : IdempotencyKey) (id : ℕ) (db : Db) where
  commit_transfer-Moved :
      (c : Checked) (t : Transaction)
      → check p db ≡ c
      → IsLedger db
      → (commit_transfer eng p key id db c).0 ≡ Outcome.returned t
      → Moved p db t (commit_transfer eng p key id db c).1
  unfolding commit_transfer
  commit_transfer-Moved (Checked.refused code) t e ledger h = cc
  commit_transfer-Moved (Checked.accepted s r) t e ledger h =
      let ok = check-Accepts p db s r e in
      let (found_s, found_r, differ) = Accepts-ids p db s r ledger.unique ok in
      let row : transfer_row eng p key id s r ≡ t = ground arith in
      subst (λ u. Moved p db u (apply_transfer eng p key id s r db)) row
        (apply_transfer-Moved eng p key id s r db ok found_s found_r differ)

  -- When the key is unused and the call returns `t`, the sender's stored balance falls by exactly the
  -- amount and the receiver's rises by it, every other account keeps its balance, the amount is
  -- positive and was covered, and the two accounts differ.
  pub transfer-Moved :
      (t : Transaction)
      → IsLedger db
      → get_transaction key db.transactions ≡ none
      → (transfer eng p key id db).0 ≡ Outcome.returned t
      → Moved p db t (transfer eng p key id db).1
  unfolding transfer transfer_keyed
  transfer-Moved t ledger fresh = rw fresh (λ h. commit_transfer-Moved (check p db) t refl ledger h)

  commit_transfer-sender :
      (c : Checked) (t : Transaction) (owner : Account)
      → check p db ≡ c
      → get_account_by_number p.sender_account_number db.accounts ≡ some owner
      → (commit_transfer eng p key id db c).0 ≡ Outcome.returned t
      → t.sender_account_id ≡ owner.account_id
  unfolding commit_transfer transfer_row
  commit_transfer-sender (Checked.refused code) t owner e named h = cc
  commit_transfer-sender (Checked.accepted s r) t owner e named h =
      ground (arith, (check-Accepts p db s r e).sender, named, h)

  -- The new row debits the account that has the sender's number.
  pub transfer-sender :
      (t : Transaction) (owner : Account)
      → get_transaction key db.transactions ≡ none
      → get_account_by_number p.sender_account_number db.accounts ≡ some owner
      → (transfer eng p key id db).0 ≡ Outcome.returned t
      → t.sender_account_id ≡ owner.account_id
  unfolding transfer transfer_keyed
  transfer-sender t owner fresh named =
      rw fresh (λ h. commit_transfer-sender (check p db) t owner refl named h)
