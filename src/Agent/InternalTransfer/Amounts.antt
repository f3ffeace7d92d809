-- ===== src/Agent/InternalTransfer/Amounts.antt =====
-- internal_transfer.py: the amount that reaches a preparation.
pub mod Choices
pub mod Entry
pub mod Kept
pub mod Runs
use kdt_ai_2_hands_on_experi.Common.{
  ℕ, ◌≡◌, refl, Bool, true, false, not, ◌&&◌, ◌||◌, Bool-cases, inl, inr, Option, none, some, List,
  [], ◌∷◌, arith, if_rule, if◌then◌else◌,
}
use kdt_ai_2_hands_on_experi.Common.Int.{ℤ, pos, ltb_ℤ}
use kdt_ai_2_hands_on_experi.Agent.Values.{
  ToolReply, Update, Value, Word, blocked, cancelled, failed_with, integer, is_null, is_text,
  merged, no_accounts, null, replied, resolved, selected, selection_required, submitted, text,
  truthy, approved, change_requested, valid, authentication_required, verified, retry, completed,
  correction_required, ready_for_confirmation,
}
use kdt_ai_2_hands_on_experi.Agent.InternalTransfer.{AccountRow, TransferData, new_data}
use kdt_ai_2_hands_on_experi.Agent.InternalTransfer.Accounts.{
  AccountsResult, SelectionResume, default_account, extract_internal_transfer_slots, from_default,
  from_outcome, from_resolved, from_selected, from_selection, request_from_account_selection,
  request_to_account_selection, resolve_internal_from_account, resolve_internal_to_account,
  to_outcome, to_resolved, to_selected,
}
use kdt_ai_2_hands_on_experi.Agent.InternalTransfer.Amount.{
  AmountResume, amount_entered, check_integer, check_internal_transfer_amount, check_value,
  is_positive, prepare_call, request_internal_transfer_amount, start_internal_transfer_prepare,
  transfer_limit,
}
use kdt_ai_2_hands_on_experi.Agent.InternalTransfer.Graph.{
  Inputs, Next, Node, edge, run_node, step, to, finish, missing, extract_slots, resolve_from,
  request_from, emit_from_empty, resolve_to, request_to, emit_to_empty, check_amount,
  request_amount, start_prepare, prepare, request_approval, reset_from, reset_to, reset_amount,
  route_correction, request_correction, start_auth, create_auth, request_auth, request_retry,
  execute, emit_result, emit_blocked, emit_error,
}

-- A positive amount within the limit of one transfer.
abbrev pub is_fit : Value → Bool
is_fit (integer n) = ltb_ℤ (pos 0) n && not (ltb_ℤ transfer_limit n)
is_fit _ = false

-- No amount, or a positive one.
abbrev pub is_entered : Value → Bool
is_entered null = true
is_entered (integer n) = ltb_ℤ (pos 0) n
is_entered _ = false

abbrev pub Fits : Value → TransferData → Type 0
Fits v d = (is_null v || is_fit d.transfer_amount) ≡ true

pub fit-entered : (v : Value) → is_fit v ≡ true → is_entered v ≡ true
fit-entered (integer n) h = ground (arith, h)
fit-entered null h = refl
fit-entered _ h = cc

-- What holds of the amount where the run stands.
abbrev pub Amounts : Next → TransferData → Type 0
Amounts (to extract_slots) d = (is_null d.from_account_id ≡ true) × (is_null d.to_account_id ≡ true)
Amounts (to resolve_from) d =
    (is_entered d.transfer_amount ≡ true) × Fits d.from_account_id d × Fits d.to_account_id d
Amounts (to request_from) d =
    (is_entered d.transfer_amount ≡ true) × Fits d.from_account_id d × Fits d.to_account_id d
Amounts (to resolve_to) d = (is_entered d.transfer_amount ≡ true) × Fits d.to_account_id d
Amounts (to request_to) d = (is_entered d.transfer_amount ≡ true) × Fits d.to_account_id d
Amounts (to check_amount) d = is_entered d.transfer_amount ≡ true
Amounts (to request_amount) d = Fits d.transfer_amount d
Amounts (to emit_from_empty) d = Unit
Amounts (to emit_to_empty) d = Unit
Amounts (to emit_result) d = Unit
Amounts (to emit_blocked) d = Unit
Amounts (to emit_error) d = Unit
Amounts (to n) d = is_fit d.transfer_amount ≡ true
Amounts _ d = Unit

abbrev pub After : Node → Update TransferData → Type 0
After n u = Amounts (edge n u.route_key) u.new_data
