-- ===== src/Agent/InternalTransfer/Amount.antt =====
-- internal_transfer.py: the steps on the amount, and the preparation.
use kdt_ai_2_hands_on_experi.Common.{ℕ, ◌+◌, Bool, true, false, Option, none, List, if◌then◌else◌}
use kdt_ai_2_hands_on_experi.Common.Int.{ℤ, pos, ltb_ℤ}
use kdt_ai_2_hands_on_experi.Agent.Values.{
  ToolReply, Update, Value, always, blocked, cancelled, cancelled_return, completed_status,
  correction_required, ends, failed_with, goes, integer, invalid, is_null, limit_exceeded, merged,
  null, other, ready_for_confirmation, replied, running, submitted, text, valid,
}
use kdt_ai_2_hands_on_experi.Agent.InternalTransfer.{TransferData, fails}

-- `_TRANSFER_LIMIT`
abbrev pub transfer_limit : ℤ
transfer_limit = pos 5_000_000

-- `isinstance(amount, int) and not isinstance(amount, bool) and amount > 0`
abbrev pub is_positive : Value → Bool
is_positive (integer n) = ltb_ℤ (pos 0) n
is_positive _ = false

-- The view of a blocked transfer, which is only shown.
abbrev pub limit_view : Value
limit_view = other true 0

unfoldable pub check_integer : ℤ → TransferData → Update TransferData
check_integer n d =
    if ltb_ℤ (pos 0) n
    then if ltb_ℤ transfer_limit n
      then goes limit_exceeded (record d { blocked_view = limit_view })
      else goes valid d
    else goes invalid d

unfoldable pub check_value : Value → TransferData → Update TransferData
unfolding check_integer
check_value (integer n) d = check_integer n d
check_value _ d = goes invalid d

unfoldable pub check_internal_transfer_amount : TransferData → Update TransferData
unfolding check_value
check_internal_transfer_amount d = check_value d.transfer_amount d

pub record AmountResume : Type 0 where
  pub amount_input_outcome : Value
  pub resumed_amount : Option Value

-- A cancelled change of the amount goes back to the preparation with the old one.
unfoldable pub amount_entered : Value → (resumed d : TransferData) → Update TransferData
amount_entered (text submitted) resumed d =
    if is_positive resumed.transfer_amount
    then goes submitted (record resumed { input_request_id = null })
    else fails none d
amount_entered (text cancelled) resumed d =
    if is_null d.transfer_amount
    then ends completed_status cancelled (record resumed { input_request_id = null })
    else ends running cancelled_return
        (record resumed { input_request_id = null; transfer_amount = d.transfer_amount })
amount_entered _ resumed d = fails none d

unfoldable pub request_internal_transfer_amount : AmountResume → TransferData → Update TransferData
unfolding amount_entered
request_internal_transfer_amount resume d =
    amount_entered resume.amount_input_outcome
      (record d {
        amount_input_outcome = resume.amount_input_outcome;
        transfer_amount = merged resume.resumed_amount d.transfer_amount;
      })
      d

unfoldable pub start_internal_transfer_prepare : TransferData → Update TransferData
start_internal_transfer_prepare d =
    goes always (record d { prepare_attempt = d.prepare_attempt + 1 })

-- What the step sends to `prepare_internal_transfer`: the key is the execution context and the attempt.
pub record PrepareCall : Type 0 where
  pub from_account_id : Value
  pub to_account_id : Value
  pub call_amount : Value
  pub idempotency_key : ℕ × ℕ

abbrev pub prepare_call : (execution_context : ℕ) → TransferData → PrepareCall
prepare_call execution_context d = record {
  from_account_id = d.from_account_id;
  to_account_id = d.to_account_id;
  call_amount = d.transfer_amount;
  idempotency_key = (execution_context, d.prepare_attempt);
}

pub record PrepareResult : Type 0 where
  pub outcome : Value
  pub confirmation_id : Value
  pub confirmation_view : Value
  pub correction_view : Option (List Value)
  pub blocked_view : Value

unfoldable pub prepare_outcome : PrepareResult → Value → TransferData → Update TransferData
prepare_outcome r (text ready_for_confirmation) d =
    goes ready_for_confirmation
      (record d { confirmation_id = r.confirmation_id; confirmation_view = r.confirmation_view })
prepare_outcome r (text correction_required) d =
    goes correction_required (record d { correction_view = r.correction_view })
prepare_outcome r (text blocked) d = goes blocked (record d { blocked_view = r.blocked_view })
prepare_outcome r _ d = fails none d

unfoldable pub prepare_internal_transfer :
    ToolReply PrepareResult → TransferData → Update TransferData
unfolding prepare_outcome
prepare_internal_transfer (failed_with m) d = fails m d
prepare_internal_transfer (replied r) d = prepare_outcome r r.outcome d
