-- ===== src/Agent/InternalTransfer/Cancelled.antt =====
-- internal_transfer.py: a cancelled choice of an account, or a cancelled entry of the amount.
use kdt_ai_2_hands_on_experi.Common.{ℕ, ◌+◌, ◌≡◌, Bool, true, false, Option}
use kdt_ai_2_hands_on_experi.Agent.Values.{Update, Value, cancelled, text}
use kdt_ai_2_hands_on_experi.Agent.InternalTransfer.{TransferData}
use kdt_ai_2_hands_on_experi.Agent.InternalTransfer.Amount.{prepare_call}
use kdt_ai_2_hands_on_experi.Agent.InternalTransfer.Graph.{
  Inputs, Next, Node, edge, finish, start_prepare, prepare, step, to,
}

-- The user cancels, whatever else the resumption carries.
abbrev pub cancels : Inputs → (value : Option Value) → Inputs
cancels i value = record i {
  selection = record { account_selection_outcome = text cancelled; selected_account = value };
  amount_entry = record { amount_input_outcome = text cancelled; resumed_amount = value };
}

-- Without an earlier value the run ends. With one it goes through `start_prepare` to `prepare`, with the
-- call of the data `d` at its next attempt.
abbrev pub Returns :
    (no_prior : Bool)
    → (execution_context : ℕ) → Inputs
    → Next × TransferData
    → TransferData
    → Type 0
Returns true k j s d = s.0 ≡ finish
Returns false k j s d =
    (s.0 ≡ to start_prepare)
    × ((step start_prepare j s.1).0 ≡ to prepare)
    × (prepare_call k (step start_prepare j s.1).1
        ≡ prepare_call k (record d { prepare_attempt = d.prepare_attempt + 1 }))

abbrev After :
    Node
    → (no_prior : Bool) → (execution_context : ℕ) → Inputs
    → TransferData
    → Update TransferData
    → Type 0
After n no_prior k j d u = Returns no_prior k j (edge n u.route_key, u.new_data) d
