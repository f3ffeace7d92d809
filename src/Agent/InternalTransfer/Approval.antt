-- ===== src/Agent/InternalTransfer/Approval.antt =====
-- internal_transfer.py: the approval, what a correction resets, and the choice of a correction.
use kdt_ai_2_hands_on_experi.Common.{
  Bool, true, false, not, ◌&&◌, ◌||◌, Option, none, some, List, [], ◌∷◌, if◌then◌else◌,
}
use kdt_ai_2_hands_on_experi.Agent.Values.{
  Update, Value, always, amount, approved, cancelled, change_requested, completed_status, ends,
  from_account, goes, invalid, is_null, is_text, joined, merged, null, selected, text, to_account,
  valid,
}
use kdt_ai_2_hands_on_experi.Agent.InternalTransfer.{TransferData, fails, is_target}

pub record ApprovalResume : Type 0 where
  pub approval_outcome : Value
  pub change_target : Option Value

-- The route of a change names its target, which has to be one of the three.
unfoldable pub change_to : Value → (resumed d : TransferData) → Update TransferData
change_to (text w) resumed d =
    if is_target (text w) then goes (joined change_requested w) resumed else fails none d
change_to _ resumed d = fails none d

unfoldable pub approval_given : Value → (resumed d : TransferData) → Update TransferData
unfolding change_to
approval_given (text approved) resumed d = goes approved resumed
approval_given (text change_requested) resumed d = change_to resumed.change_target resumed d
approval_given (text cancelled) resumed d = ends completed_status cancelled resumed
approval_given _ resumed d = fails none d

unfoldable pub request_internal_transfer_approval :
    ApprovalResume → TransferData → Update TransferData
unfolding approval_given
request_internal_transfer_approval resume d =
    if is_text d.confirmation_id
    then approval_given resume.approval_outcome
        (record d {
          approval_outcome = resume.approval_outcome;
          change_target = merged resume.change_target d.change_target;
        })
        d
    else fails none d

-- `common_clears`, and the count of authentications
abbrev pub cleared : TransferData → TransferData
cleared d = record d {
  confirmation_id = null;
  confirmation_view = null;
  approval_outcome = null;
  change_target = null;
  correction_view = none;
  correction_selection_outcome = null;
  blocked_view = null;
  auth_context_id = null;
  auth_request_view = null;
  auth_status = null;
  auth_retry_outcome = null;
  input_request_id = null;
  auth_attempt = 0;
}

-- `preserve_value_on_reset`: with a confirmation the old value stays.
abbrev pub preserved : (confirmation old : Value) → Value
preserved confirmation old = if is_null confirmation then null else old

unfoldable pub reset_internal_from_account : TransferData → Update TransferData
reset_internal_from_account d = goes always (record (cleared d) {
  from_account_hint = null;
  from_account_id = preserved d.confirmation_id d.from_account_id;
  account_resolution_outcome = null;
  accounts = [];
  account_selection_outcome = null;
  force_account_selection = true;
})

unfoldable pub reset_internal_to_account : TransferData → Update TransferData
reset_internal_to_account d = goes always (record (cleared d) {
  to_account_hint = null;
  to_account_id = preserved d.confirmation_id d.to_account_id;
  account_resolution_outcome = null;
  accounts = [];
  account_selection_outcome = null;
})

unfoldable pub reset_internal_transfer_amount : TransferData → Update TransferData
reset_internal_transfer_amount d = goes always (record (cleared d) {
  transfer_amount = preserved d.confirmation_id d.transfer_amount;
  amount_input_outcome = null;
})

-- `list(view.get("allowed_change_targets") or [])`
abbrev pub targets_of : Option (List Value) → List Value
targets_of none = []
targets_of (some targets) = targets

abbrev pub all_targets : List Value → Bool
all_targets [] = true
all_targets (t ∷ rest) = is_target t && all_targets rest

abbrev pub is_empty : List Value → Bool
is_empty [] = true
is_empty (t ∷ rest) = false

-- No valid target, or one that is not valid, ends in the error.
unfoldable pub route_internal_transfer_correction : TransferData → Update TransferData
route_internal_transfer_correction d =
    if not (is_empty (targets_of d.correction_view)) && all_targets (targets_of d.correction_view)
    then goes valid d
    else goes invalid d

-- `target in targets`, for one of the three targets
abbrev same_target : Value → Value → Bool
same_target (text from_account) (text from_account) = true
same_target (text to_account) (text to_account) = true
same_target (text amount) (text amount) = true
same_target _ _ = false

abbrev pub has_target : Value → List Value → Bool
has_target t [] = false
has_target t (u ∷ rest) = same_target t u || has_target t rest

pub record CorrectionResume : Type 0 where
  pub correction_selection_outcome : Value
  pub change_target : Option Value

unfoldable pub correct_target : Value → (resumed d : TransferData) → Update TransferData
correct_target (text w) resumed d =
    if is_target (text w) && has_target (text w) (targets_of d.correction_view)
    then goes (joined selected w) resumed
    else fails none d
correct_target _ resumed d = fails none d

unfoldable pub correction_chosen : Value → (resumed d : TransferData) → Update TransferData
unfolding correct_target
correction_chosen (text selected) resumed d = correct_target resumed.change_target resumed d
correction_chosen (text cancelled) resumed d = ends completed_status cancelled resumed
correction_chosen _ resumed d = fails none d

unfoldable pub request_internal_transfer_correction :
    CorrectionResume → TransferData → Update TransferData
unfolding correction_chosen
request_internal_transfer_correction resume d =
    correction_chosen resume.correction_selection_outcome
      (record d {
        correction_selection_outcome = resume.correction_selection_outcome;
        change_target = merged resume.change_target d.change_target;
      })
      d
