-- ===== src/Agent/InternalTransfer/Amounts/Entry.antt =====
-- internal_transfer.py: the amount through its check and its entry.
use kdt_ai_2_hands_on_experi.Common.{◌≡◌, true, arith, if_rule}
use kdt_ai_2_hands_on_experi.Common.Int.{ℤ, pos, ltb_ℤ}
use kdt_ai_2_hands_on_experi.Agent.Values.{
  Value, cancelled, integer, is_null, null, submitted, text,
}
use kdt_ai_2_hands_on_experi.Agent.InternalTransfer.{TransferData}
use kdt_ai_2_hands_on_experi.Agent.InternalTransfer.Amount.{
  amount_entered, check_integer, check_value, is_positive, transfer_limit,
}
use kdt_ai_2_hands_on_experi.Agent.InternalTransfer.Graph.{edge, to, check_amount, request_amount}
use kdt_ai_2_hands_on_experi.Agent.InternalTransfer.Amounts.{is_entered, Amounts, After}

check_integer-Amounts :
    (n : ℤ) (d : TransferData)
    → d.transfer_amount ≡ integer n
    → is_entered (integer n) ≡ true
    → After check_amount (check_integer n d)
unfolding check_integer edge
check_integer-Amounts n d e h =
    if_rule (After check_amount) (ltb_ℤ (pos 0) n) _ _
      (λ positive.
        if_rule (After check_amount) (ltb_ℤ transfer_limit n) _ _ (λ _. tt)
          (λ small. ground (arith, e, positive, small)))
      (λ bad. ground (arith, bad, h))

pub check_value-Amounts :
    (v : Value) (d : TransferData)
    → d.transfer_amount ≡ v
    → is_entered v ≡ true
    → After check_amount (check_value v d)
unfolding check_value edge
check_value-Amounts (integer n) d e h = check_integer-Amounts n d e h
check_value-Amounts null d e h = ground (arith, e)
check_value-Amounts _ d e h = cc

positive-entered : (v : Value) → is_positive v ≡ true → is_entered v ≡ true
positive-entered (integer n) h = h
positive-entered _ h = cc

pub amount_entered-Amounts :
    (v : Value) (resumed d : TransferData)
    → Amounts (to request_amount) d
    → After request_amount (amount_entered v resumed d)
unfolding amount_entered edge
amount_entered-Amounts (text submitted) resumed d h =
    if_rule (After request_amount) (is_positive resumed.transfer_amount) _ _
      (λ positive. positive-entered resumed.transfer_amount positive) (λ _. tt)
amount_entered-Amounts (text cancelled) resumed d h =
    if_rule (After request_amount) (is_null d.transfer_amount) _ _ (λ _. tt)
      (λ prior. ground (arith, h, prior))
amount_entered-Amounts _ resumed d h = tt
