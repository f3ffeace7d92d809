-- ===== src/Agent/InternalTransfer/Routes/Accounts.antt =====
-- internal_transfer.py: the routes of the steps on the accounts.
use kdt_ai_2_hands_on_experi.Common.{ℕ, refl, Option, none, some, List, [], ◌∷◌, arith}
use kdt_ai_2_hands_on_experi.Agent.Values.{
  ToolReply, Value, text, failed_with, replied, resolved, selection_required, no_accounts, selected,
  cancelled,
}
use kdt_ai_2_hands_on_experi.Agent.InternalTransfer.{AccountRow, TransferData}
use kdt_ai_2_hands_on_experi.Agent.InternalTransfer.Accounts.{
  AccountsResult, default_account, from_default, from_outcome, from_resolved, from_selected,
  from_selection, resolve_internal_from_account, resolve_internal_to_account, to_outcome,
  to_resolved, to_selected,
}
use kdt_ai_2_hands_on_experi.Agent.InternalTransfer.Graph.{
  edge, resolve_from, request_from, resolve_to, request_to,
}
use kdt_ai_2_hands_on_experi.Agent.InternalTransfer.Routes.{Leads}

from_resolved-Leads :
    (accounts : List AccountRow) (ids : List Value) (d : TransferData)
    → Leads resolve_from (from_resolved accounts ids d)
unfolding from_resolved edge
from_resolved-Leads accounts [] d = refl
from_resolved-Leads accounts (k ∷ []) d = refl
from_resolved-Leads accounts (k ∷ j ∷ ids) d = refl

from_default-Leads :
    (accounts : List AccountRow) (request : ℕ) (o : Option AccountRow) (d : TransferData)
    → Leads resolve_from (from_default accounts request o d)
unfolding from_default from_resolved from_selection edge
from_default-Leads accounts request none d = refl
from_default-Leads accounts request (some a) d = refl

from_outcome-Leads :
    (r : AccountsResult) (request : ℕ) (v : Value) (d : TransferData)
    → Leads resolve_from (from_outcome r request v d)
unfolding from_outcome from_selection edge
from_outcome-Leads r request (text resolved) d = from_resolved-Leads r.accounts r.account_ids d
from_outcome-Leads r request (text selection_required) d =
    ground (arith, from_default-Leads r.accounts request (default_account r.accounts) d)
from_outcome-Leads r request (text no_accounts) d = refl
from_outcome-Leads r request _ d = refl

pub resolve_from-Leads :
    (o : ToolReply AccountsResult) (request : ℕ) (d : TransferData)
    → Leads resolve_from (resolve_internal_from_account o request d)
unfolding resolve_internal_from_account edge
resolve_from-Leads (failed_with m) request d = refl
resolve_from-Leads (replied r) request d =
    from_outcome-Leads r request r.account_resolution_outcome d

pub from_selected-Leads :
    (v : Value) (resumed d : TransferData) → Leads request_from (from_selected v resumed d)
unfolding from_selected edge
from_selected-Leads (text selected) resumed d = ground arith
from_selected-Leads (text cancelled) resumed d = ground arith
from_selected-Leads _ resumed d = refl

to_resolved-Leads :
    (accounts : List AccountRow) (ids : List Value) (d : TransferData)
    → Leads resolve_to (to_resolved accounts ids d)
unfolding to_resolved edge
to_resolved-Leads accounts [] d = refl
to_resolved-Leads accounts (k ∷ []) d = refl
to_resolved-Leads accounts (k ∷ j ∷ ids) d = refl

to_outcome-Leads :
    (r : AccountsResult) (request : ℕ) (v : Value) (d : TransferData)
    → Leads resolve_to (to_outcome r request v d)
unfolding to_outcome edge
to_outcome-Leads r request (text resolved) d = to_resolved-Leads r.accounts r.account_ids d
to_outcome-Leads r request (text selection_required) d = refl
to_outcome-Leads r request (text no_accounts) d = refl
to_outcome-Leads r request _ d = refl

pub resolve_to-Leads :
    (o : ToolReply AccountsResult) (request : ℕ) (d : TransferData)
    → Leads resolve_to (resolve_internal_to_account o request d)
unfolding resolve_internal_to_account edge
resolve_to-Leads (failed_with m) request d = refl
resolve_to-Leads (replied r) request d = to_outcome-Leads r request r.account_resolution_outcome d

pub to_selected-Leads :
    (v : Value) (resumed d : TransferData) → Leads request_to (to_selected v resumed d)
unfolding to_selected edge
to_selected-Leads (text selected) resumed d = ground arith
to_selected-Leads (text cancelled) resumed d = ground arith
to_selected-Leads _ resumed d = refl
