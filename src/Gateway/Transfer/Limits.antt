-- ===== src/Gateway/Transfer/Limits.antt =====
-- When the conditions of a transfer hold.
use kdt_ai_2_hands_on_experi.Common.{◌≡◌, ◌≢◌, ◌↔◌, refl, true, none, some, [], ◌∷◌, arith}
use kdt_ai_2_hands_on_experi.Common.Int.{ℤ, ◌+ℤ◌, ◌≤ℤ◌, ◌<ℤ◌, ltb_ℤ, +ℤ_parts}
use kdt_ai_2_hands_on_experi.Gateway.Rows.{Account, ExecutionContext, Store}
use kdt_ai_2_hands_on_experi.Gateway.Service.{
  Result, ok, err, transfer_fee_krw, max_single_transfer_krw, max_daily_transfer_krw,
}
use kdt_ai_2_hands_on_experi.Gateway.Bank.{Bank}
use kdt_ai_2_hands_on_experi.Gateway.Transfer.{
  Clock, Violation, amount_target, from_target, insufficient_balance, daily_amount, read_balance,
  evaluate_amount, evaluate_limits, evaluate_internal_transfer, evaluate_withdrawal,
}

-- The limits of the policy: the amount of one transfer, the balance with the fee, and the day's sum.
pub record IsWithin (bank : Bank) (ctx : ExecutionContext) (clock : Clock) (from : Account)
    (amount : ℤ) (s : Store) (st : bank.State) : Type 0 where
  pub single : amount ≤ℤ max_single_transfer_krw
  pub available : ℤ
  pub read : read_balance bank from st ≡ ok available
  pub covered : amount +ℤ transfer_fee_krw ≤ℤ available
  pub daily : daily_amount ctx clock s +ℤ amount ≤ℤ max_daily_transfer_krw

module _ (bank : Bank) (ctx : ExecutionContext) (clock : Clock) (from : Account) (amount : ℤ)
    (s : Store) (st : bank.State) where
  evaluate_amount-none :
      (available : Result ℤ)
      → evaluate_amount bank ctx clock amount s available ≡ ok none
      → (b : ℤ) × (available ≡ ok b)
        × (amount +ℤ transfer_fee_krw ≤ℤ b)
        × (daily_amount ctx clock s +ℤ amount ≤ℤ max_daily_transfer_krw)
  unfolding evaluate_amount
  evaluate_amount-none (err e) h = cc
  evaluate_amount-none (ok b) h = (b, refl, ground (arith, h), ground (arith, h))

  evaluate_limits_sound :
      evaluate_limits bank ctx clock from amount s st ≡ ok none
      → IsWithin bank ctx clock from amount s st
  unfolding evaluate_limits
  evaluate_limits_sound h =
      let rest : evaluate_amount bank ctx clock amount s (read_balance bank from st) ≡ ok none =
        ground (arith, h) in
      let (b, read, covered, daily) = evaluate_amount-none (read_balance bank from st) rest in
      record {
        single = ground (arith, h);
        available = b;
        read = read;
        covered = covered;
        daily = daily;
      }

  evaluate_limits_complete :
      IsWithin bank ctx clock from amount s st
      → evaluate_limits bank ctx clock from amount s st ≡ ok none
  unfolding evaluate_limits evaluate_amount
  evaluate_limits_complete h = rw h.read (ground (arith, h.single, h.covered, h.daily))

-- The conditions of a transfer between two accounts of the user hold exactly when the accounts differ
-- and are both active and the limits of the policy are kept at the balance that the bank reports.
pub evaluate_internal_transfer_iff :
    (bank : Bank) (ctx : ExecutionContext) (clock : Clock) (from to : Account) (amount : ℤ)
    (s : Store) (st : bank.State)
    → (evaluate_internal_transfer bank ctx clock from to amount s st ≡ ok none) ↔ (
        (from.id ≢ to.id)
        × (from.active ≡ true)
        × (to.active ≡ true)
        × IsWithin bank ctx clock from amount s st)
unfolding evaluate_internal_transfer
evaluate_internal_transfer_iff bank ctx clock from to amount s st = (
  λ h.
      let rest : evaluate_limits bank ctx clock from amount s st ≡ ok none = ground (arith, h) in
      (
        λ e. ground (arith, h, e),
        ground (arith, h),
        ground (arith, h),
        evaluate_limits_sound bank ctx clock from amount s st rest,
      ),
  λ h.
      let rest = evaluate_limits_complete bank ctx clock from amount s st h.3 in
      ground (arith, h.0, h.1, h.2, rest),
)

-- The conditions of a withdrawal hold exactly when the account is active and the limits are kept.
pub evaluate_withdrawal_iff :
    (bank : Bank) (ctx : ExecutionContext) (clock : Clock) (from : Account) (amount : ℤ) (s : Store)
    (st : bank.State)
    → (evaluate_withdrawal bank ctx clock from amount s st ≡ ok none)
      ↔ ((from.active ≡ true) × IsWithin bank ctx clock from amount s st)
unfolding evaluate_withdrawal
evaluate_withdrawal_iff bank ctx clock from amount s st = (
  λ h.
      let rest : evaluate_limits bank ctx clock from amount s st ≡ ok none = ground (arith, h) in
      (ground (arith, h), evaluate_limits_sound bank ctx clock from amount s st rest),
  λ h.
      let rest = evaluate_limits_complete bank ctx clock from amount s st h.1 in
      ground (arith, h.0, rest),
)

-- The balance does not cover the amount.
abbrev pub uncovered : Violation
uncovered = record { reason = insufficient_balance; targets = from_target ∷ amount_target ∷ [] }

pub evaluate_internal_transfer-uncovered :
    (bank : Bank) (ctx : ExecutionContext) (clock : Clock) (from to : Account) (amount b : ℤ)
    (s : Store) (st : bank.State)
    → from.id ≢ to.id
    → from.active ≡ true
    → to.active ≡ true
    → amount ≤ℤ max_single_transfer_krw
    → read_balance bank from st ≡ ok b
    → b <ℤ amount
    → evaluate_internal_transfer bank ctx clock from to amount s st ≡ ok (some uncovered)
unfolding evaluate_internal_transfer evaluate_limits evaluate_amount
evaluate_internal_transfer-uncovered bank ctx clock from to amount b s st differ active_from
      active_to single read short =
    let low : ltb_ℤ b (amount +ℤ transfer_fee_krw) ≡ true =
      ground (arith, short, +ℤ_parts amount transfer_fee_krw) in
    rw (read, low) (ground (arith, differ, active_from, active_to, single))
