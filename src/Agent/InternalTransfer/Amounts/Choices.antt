-- ===== src/Agent/InternalTransfer/Amounts/Choices.antt =====
-- internal_transfer.py: the amount through the choice of the accounts.
use kdt_ai_2_hands_on_experi.Common.{
  ℕ, ◌≡◌, not, ◌&&◌, Option, none, some, List, [], ◌∷◌, arith, if_rule,
}
use kdt_ai_2_hands_on_experi.Agent.Values.{
  ToolReply, Value, cancelled, failed_with, is_null, is_text, no_accounts, replied, resolved,
  selected, selection_required, text, truthy,
}
use kdt_ai_2_hands_on_experi.Agent.InternalTransfer.{AccountRow, TransferData}
use kdt_ai_2_hands_on_experi.Agent.InternalTransfer.Accounts.{
  AccountsResult, default_account, from_default, from_outcome, from_resolved, from_selected,
  from_selection, resolve_internal_from_account, resolve_internal_to_account, to_outcome,
  to_resolved, to_selected,
}
use kdt_ai_2_hands_on_experi.Agent.InternalTransfer.Graph.{
  edge, to, resolve_from, request_from, resolve_to, request_to,
}
use kdt_ai_2_hands_on_experi.Agent.InternalTransfer.Amounts.{Amounts, After}

from_resolved-Amounts :
    (accounts : List AccountRow) (ids : List Value) (d : TransferData)
    → Amounts (to resolve_from) d
    → After resolve_from (from_resolved accounts ids d)
unfolding from_resolved edge
from_resolved-Amounts accounts [] d h = tt
from_resolved-Amounts accounts (k ∷ []) d h = (h.0, h.2)
from_resolved-Amounts accounts (k ∷ j ∷ ids) d h = tt

from_default-Amounts :
    (accounts : List AccountRow) (request : ℕ) (o : Option AccountRow) (d : TransferData)
    → Amounts (to resolve_from) d
    → After resolve_from (from_default accounts request o d)
unfolding from_default from_resolved from_selection edge
from_default-Amounts accounts request none d h = h
from_default-Amounts accounts request (some a) d h = (h.0, h.2)

from_outcome-Amounts :
    (r : AccountsResult) (request : ℕ) (v : Value) (d : TransferData)
    → Amounts (to resolve_from) d
    → After resolve_from (from_outcome r request v d)
unfolding from_outcome from_selection edge
from_outcome-Amounts r request (text resolved) d h =
    from_resolved-Amounts r.accounts r.account_ids d h
from_outcome-Amounts r request (text selection_required) d h =
    if_rule (After resolve_from) (not (truthy d.from_account_hint) && not d.force_account_selection)
      _ _ (λ _. from_default-Amounts r.accounts request (default_account r.accounts) d h) (λ _. h)
from_outcome-Amounts r request (text no_accounts) d h = tt
from_outcome-Amounts r request _ d h = tt

pub resolve_from-Amounts :
    (o : ToolReply AccountsResult) (request : ℕ) (d : TransferData)
    → Amounts (to resolve_from) d
    → After resolve_from (resolve_internal_from_account o request d)
unfolding resolve_internal_from_account edge
resolve_from-Amounts (failed_with m) request d h = tt
resolve_from-Amounts (replied r) request d h =
    from_outcome-Amounts r request r.account_resolution_outcome d h

pub from_selected-Amounts :
    (v : Value) (resumed d : TransferData)
    → resumed.transfer_amount ≡ d.transfer_amount
    → resumed.to_account_id ≡ d.to_account_id
    → Amounts (to request_from) d
    → After request_from (from_selected v resumed d)
unfolding from_selected edge
from_selected-Amounts (text selected) resumed d e f h =
    if_rule (After request_from) (is_text resumed.from_account_id) _ _
      (λ _. (ground (arith, e, h.0), ground (arith, e, f, h.2))) (λ _. tt)
from_selected-Amounts (text cancelled) resumed d e f h =
    if_rule (After request_from) (is_null d.from_account_id) _ _ (λ _. tt)
      (λ prior. ground (arith, e, h.1, prior))
from_selected-Amounts _ resumed d e f h = tt

to_resolved-Amounts :
    (accounts : List AccountRow) (ids : List Value) (d : TransferData)
    → Amounts (to resolve_to) d
    → After resolve_to (to_resolved accounts ids d)
unfolding to_resolved edge
to_resolved-Amounts accounts [] d h = tt
to_resolved-Amounts accounts (k ∷ []) d h = h.0
to_resolved-Amounts accounts (k ∷ j ∷ ids) d h = tt

to_outcome-Amounts :
    (r : AccountsResult) (request : ℕ) (v : Value) (d : TransferData)
    → Amounts (to resolve_to) d
    → After resolve_to (to_outcome r request v d)
unfolding to_outcome edge
to_outcome-Amounts r request (text resolved) d h = to_resolved-Amounts r.accounts r.account_ids d h
to_outcome-Amounts r request (text selection_required) d h = h
to_outcome-Amounts r request (text no_accounts) d h = tt
to_outcome-Amounts r request _ d h = tt

pub resolve_to-Amounts :
    (o : ToolReply AccountsResult) (request : ℕ) (d : TransferData)
    → Amounts (to resolve_to) d
    → After resolve_to (resolve_internal_to_account o request d)
unfolding resolve_internal_to_account edge
resolve_to-Amounts (failed_with m) request d h = tt
resolve_to-Amounts (replied r) request d h =
    to_outcome-Amounts r request r.account_resolution_outcome d h

pub to_selected-Amounts :
    (v : Value) (resumed d : TransferData)
    → resumed.transfer_amount ≡ d.transfer_amount
    → Amounts (to request_to) d
    → After request_to (to_selected v resumed d)
unfolding to_selected edge
to_selected-Amounts (text selected) resumed d e h =
    if_rule (After request_to) (is_text resumed.to_account_id) _ _ (λ _. ground (arith, e, h.0))
      (λ _. tt)
to_selected-Amounts (text cancelled) resumed d e h =
    if_rule (After request_to) (is_null d.to_account_id) _ _ (λ _. tt)
      (λ prior. ground (arith, e, h.1, prior))
to_selected-Amounts _ resumed d e h = tt
