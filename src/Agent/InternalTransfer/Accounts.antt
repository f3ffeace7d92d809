-- ===== src/Agent/InternalTransfer/Accounts.antt =====
-- internal_transfer.py: the slots of the request, and the steps that find the two accounts.
use kdt_ai_2_hands_on_experi.Common.{
  ℕ, false, not, ◌&&◌, Option, none, some, List, [], ◌∷◌, if◌then◌else◌,
}
use kdt_ai_2_hands_on_experi.Agent.Values.{
  ToolReply, Update, Value, Word, another, cancelled, cancelled_return, completed_status, ends,
  extracted, goes, is_null, is_text, merged, no_accounts, null, replied, failed_with, resolved,
  running, selected, selection_required, text, truthy,
}
use kdt_ai_2_hands_on_experi.Agent.InternalTransfer.{AccountRow, TransferData, fails}

-- What the language model or the rules read from the request.
pub record Slots : Type 0 where
  pub from_account_hint : Value
  pub to_account_hint : Value
  pub slot_amount : Value

unfoldable pub extract_internal_transfer_slots : Slots → TransferData → Update TransferData
extract_internal_transfer_slots slots d = goes extracted (record d {
  from_account_hint = slots.from_account_hint;
  to_account_hint = slots.to_account_hint;
  transfer_amount = slots.slot_amount;
})

-- The reply of `fetch_accounts`.
pub record AccountsResult : Type 0 where
  pub account_resolution_outcome : Value
  pub account_ids : List Value
  pub accounts : List AccountRow

abbrev pub default_account : List AccountRow → Option AccountRow
default_account [] = none
default_account (a ∷ rest) = if a.is_default then some a else default_account rest

-- The fields that `resolve_internal_from_account` always writes.
abbrev pub with_from_accounts : Word → List AccountRow → TransferData → TransferData
with_from_accounts outcome accounts d = record d {
  account_resolution_outcome = text outcome;
  accounts = accounts;
  force_account_selection = false;
}

-- `resolved` needs exactly one account.
unfoldable pub from_resolved : List AccountRow → List Value → TransferData → Update TransferData
from_resolved accounts (k ∷ []) d =
    goes resolved (record (with_from_accounts resolved accounts d) { from_account_id = k })
from_resolved accounts _ d = fails none d

unfoldable pub from_selection : List AccountRow → (request : ℕ) → TransferData → Update TransferData
from_selection accounts request d =
    goes selection_required (record (with_from_accounts selection_required accounts d) {
      input_request_id = text (another request);
    })

-- The default account is taken, if there is one.
unfoldable pub from_default :
    List AccountRow → (request : ℕ) → Option AccountRow → TransferData → Update TransferData
unfolding from_resolved from_selection
from_default accounts request none d = from_selection accounts request d
from_default accounts request (some a) d = from_resolved accounts (a.account_id ∷ []) d

unfoldable pub from_outcome :
    AccountsResult → (request : ℕ) → Value → TransferData → Update TransferData
unfolding from_resolved from_selection from_default
from_outcome r request (text resolved) d = from_resolved r.accounts r.account_ids d
from_outcome r request (text selection_required) d =
    if not (truthy d.from_account_hint) && not d.force_account_selection
    then from_default r.accounts request (default_account r.accounts) d
    else from_selection r.accounts request d
from_outcome r request (text no_accounts) d =
    goes no_accounts (with_from_accounts no_accounts r.accounts d)
from_outcome r request _ d = fails none d

-- `request` is the new id of an input request.
unfoldable pub resolve_internal_from_account :
    ToolReply AccountsResult → (request : ℕ) → TransferData → Update TransferData
unfolding from_outcome
resolve_internal_from_account (failed_with m) request d = fails m d
resolve_internal_from_account (replied r) request d =
    from_outcome r request r.account_resolution_outcome d

-- The resumption of a selection: the outcome is required, the account is not.
pub record SelectionResume : Type 0 where
  pub account_selection_outcome : Value
  pub selected_account : Option Value

-- A cancelled change of the account goes back to the preparation with the old one.
unfoldable pub from_selected : Value → (resumed d : TransferData) → Update TransferData
from_selected (text selected) resumed d =
    if is_text resumed.from_account_id
    then goes selected (record resumed { input_request_id = null })
    else fails none d
from_selected (text cancelled) resumed d =
    if is_null d.from_account_id
    then ends completed_status cancelled (record resumed { input_request_id = null })
    else ends running cancelled_return
        (record resumed { input_request_id = null; from_account_id = d.from_account_id })
from_selected _ resumed d = fails none d

unfoldable pub request_from_account_selection : SelectionResume → TransferData → Update TransferData
unfolding from_selected
request_from_account_selection resume d =
    if is_text d.input_request_id
    then from_selected resume.account_selection_outcome
        (record d {
          account_selection_outcome = resume.account_selection_outcome;
          from_account_id = merged resume.selected_account d.from_account_id;
        })
        d
    else fails none d

abbrev pub with_to_accounts : Word → List AccountRow → TransferData → TransferData
with_to_accounts outcome accounts d = record d {
  account_resolution_outcome = text outcome;
  accounts = accounts;
}

unfoldable pub to_resolved : List AccountRow → List Value → TransferData → Update TransferData
to_resolved accounts (k ∷ []) d =
    goes resolved (record (with_to_accounts resolved accounts d) { to_account_id = k })
to_resolved accounts _ d = fails none d

unfoldable pub to_outcome :
    AccountsResult → (request : ℕ) → Value → TransferData → Update TransferData
unfolding to_resolved
to_outcome r request (text resolved) d = to_resolved r.accounts r.account_ids d
to_outcome r request (text selection_required) d =
    goes selection_required (record (with_to_accounts selection_required r.accounts d) {
      input_request_id = text (another request);
    })
to_outcome r request (text no_accounts) d =
    goes no_accounts (with_to_accounts no_accounts r.accounts d)
to_outcome r request _ d = fails none d

unfoldable pub resolve_internal_to_account :
    ToolReply AccountsResult → (request : ℕ) → TransferData → Update TransferData
unfolding to_outcome
resolve_internal_to_account (failed_with m) request d = fails m d
resolve_internal_to_account (replied r) request d =
    to_outcome r request r.account_resolution_outcome d

unfoldable pub to_selected : Value → (resumed d : TransferData) → Update TransferData
to_selected (text selected) resumed d =
    if is_text resumed.to_account_id
    then goes selected (record resumed { input_request_id = null })
    else fails none d
to_selected (text cancelled) resumed d =
    if is_null d.to_account_id
    then ends completed_status cancelled (record resumed { input_request_id = null })
    else ends running cancelled_return
        (record resumed { input_request_id = null; to_account_id = d.to_account_id })
to_selected _ resumed d = fails none d

unfoldable pub request_to_account_selection : SelectionResume → TransferData → Update TransferData
unfolding to_selected
request_to_account_selection resume d =
    if is_text d.input_request_id
    then to_selected resume.account_selection_outcome
        (record d {
          account_selection_outcome = resume.account_selection_outcome;
          to_account_id = merged resume.selected_account d.to_account_id;
        })
        d
    else fails none d
