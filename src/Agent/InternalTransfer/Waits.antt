-- ===== src/Agent/InternalTransfer/Waits.antt =====
-- internal_transfer.py: how far a run goes before it waits for the user.
use kdt_ai_2_hands_on_experi.Common.{
  ℕ, zero, suc, ◌≡◌, refl, Bool, true, false, ltb, leb, if◌then◌else◌, if_rule, arith,
}
use kdt_ai_2_hands_on_experi.Agent.Values.{Word, resolved, valid, blocked, completed}
use kdt_ai_2_hands_on_experi.Agent.InternalTransfer.{TransferData}
use kdt_ai_2_hands_on_experi.Agent.InternalTransfer.Graph.{
  Inputs, Next, Node, edge, run_node, step, to, finish, missing, extract_slots, resolve_from,
  request_from, emit_from_empty, resolve_to, request_to, emit_to_empty, check_amount,
  request_amount, start_prepare, prepare, request_approval, reset_from, reset_to, reset_amount,
  route_correction, request_correction, start_auth, create_auth, request_auth, request_retry,
  execute, emit_result, emit_blocked, emit_error,
}
use kdt_ai_2_hands_on_experi.Agent.InternalTransfer.Routes.{has_edge}
use kdt_ai_2_hands_on_experi.Agent.InternalTransfer.Routes.Nodes.{run_node-has_edge}

-- The step interrupts the run and asks the user.
abbrev pub asks : Node → Bool
asks request_from = true
asks request_to = true
asks request_amount = true
asks request_approval = true
asks request_correction = true
asks request_auth = true
asks request_retry = true
asks _ = false

-- The most steps from a step to one that asks, or to the end.
abbrev pub rank : Node → ℕ
rank extract_slots = 8
rank resolve_from = 7
rank resolve_to = 6
rank check_amount = 5
rank start_prepare = 4
rank prepare = 3
rank route_correction = 2
rank reset_from = 8
rank reset_to = 7
rank reset_amount = 1
rank execute = 4
rank start_auth = 3
rank create_auth = 2
rank emit_from_empty = 1
rank emit_to_empty = 1
rank emit_result = 1
rank emit_blocked = 1
rank emit_error = 1
rank _ = 0

-- A run of at most `fuel` steps that stops where the user is asked; `i` gives what each step gets.
unfoldable pub run_until_asked :
    (fuel : ℕ) → (ℕ → Inputs) → Next × TransferData → Next × TransferData
run_until_asked zero i s = s
run_until_asked (suc fuel) i (to n, d) =
    let rest = run_until_asked fuel i (step n (i fuel) d) in if asks n then (to n, d) else rest
run_until_asked (suc fuel) i (finish, d) = (finish, d)
run_until_asked (suc fuel) i (missing, d) = (missing, d)

-- The run waits for the user, or has ended.
abbrev pub rests : Next → Bool
rests (to n) = asks n
rests finish = true
rests missing = false

abbrev below : ℕ → Next → Bool
below r (to m) = ltb (rank m) r
below r finish = true
below r missing = true

edge-below : (n : Node) (w : Word) → asks n ≡ false → below (rank n) (edge n w) ≡ true
unfolding edge
edge-below request_from w q = cc
edge-below request_to w q = cc
edge-below request_amount w q = cc
edge-below request_approval w q = cc
edge-below request_correction w q = cc
edge-below request_auth w q = cc
edge-below request_retry w q = cc
edge-below extract_slots w q = refl
edge-below emit_from_empty w q = refl
edge-below emit_to_empty w q = refl
edge-below start_prepare w q = refl
edge-below reset_from w q = refl
edge-below reset_to w q = refl
edge-below reset_amount w q = refl
edge-below start_auth w q = refl
edge-below emit_result w q = refl
edge-below emit_blocked w q = refl
edge-below emit_error w q = refl
edge-below resolve_from resolved q = refl
edge-below resolve_from _ q = refl
edge-below resolve_to resolved q = refl
edge-below resolve_to _ q = refl
edge-below check_amount valid q = refl
edge-below check_amount _ q = refl
edge-below prepare blocked q = refl
edge-below prepare _ q = refl
edge-below route_correction valid q = refl
edge-below route_correction _ q = refl
edge-below create_auth blocked q = refl
edge-below create_auth _ q = refl
edge-below execute completed q = refl
edge-below execute _ q = refl

asks-rank : (n : Node) → rank n ≡ 0 → asks n ≡ true
asks-rank extract_slots h = cc
asks-rank resolve_from h = cc
asks-rank resolve_to h = cc
asks-rank check_amount h = cc
asks-rank start_prepare h = cc
asks-rank prepare h = cc
asks-rank route_correction h = cc
asks-rank reset_from h = cc
asks-rank reset_to h = cc
asks-rank reset_amount h = cc
asks-rank execute h = cc
asks-rank start_auth h = cc
asks-rank create_auth h = cc
asks-rank emit_from_empty h = cc
asks-rank emit_to_empty h = cc
asks-rank emit_result h = cc
asks-rank emit_blocked h = cc
asks-rank emit_error h = cc
asks-rank _ h = refl

run_finish :
    (fuel : ℕ) (i : ℕ → Inputs) (d : TransferData)
    → rests (run_until_asked fuel i (finish, d)).0 ≡ true
unfolding run_until_asked
run_finish zero i d = refl
run_finish (suc fuel) i d = refl

step-has_edge : (n : Node) (i : Inputs) (d : TransferData) → has_edge (step n i d).0 ≡ true
unfolding step
step-has_edge n i d = run_node-has_edge n i d

below_mono : (a b : ℕ) (p : Next) → ltb a (suc b) ≡ true → below a p ≡ true → below b p ≡ true
below_mono a b (to n) less small = ground (arith, less, small)
below_mono a b finish less small = refl
below_mono a b missing less small = refl

step-below :
    (r : ℕ) (n : Node) (i : Inputs) (d : TransferData)
    → ltb (rank n) (suc r) ≡ true
    → asks n ≡ false
    → below r (step n i d).0 ≡ true
unfolding step
step-below r n i d less quiet =
    let p = edge n (run_node n i d).route_key in
    below_mono (rank n) r p less (edge-below n (run_node n i d).route_key quiet)

-- With enough fuel for where the next step leads to.
run_next :
    (fuel : ℕ) (i : ℕ → Inputs) (p : Next) (d : TransferData)
    → has_edge p ≡ true
    → below (suc fuel) p ≡ true
    → rests (run_until_asked fuel i (p, d)).0 ≡ true
unfolding run_until_asked
run_next fuel i missing d has small = cc
run_next fuel i finish d has small = run_finish fuel i d
run_next zero i (to n) d has small = asks-rank n (ground (arith, small))
run_next (suc fuel) i (to n) d has small =
    if_rule (λ (s : Next × TransferData). rests s.0 ≡ true) (asks n) _ _ (λ asked. asked)
      (λ quiet.
        run_next fuel i (step n (i fuel) d).0 (step n (i fuel) d).1 (step-has_edge n (i fuel) d)
          (step-below (suc fuel) n (i fuel) d small quiet))

rank_bound : (n : Node) → leb (rank n) 8 ≡ true
rank_bound extract_slots = refl
rank_bound _ = refl

-- From every step of the graph, whatever the data are, tools reply and users enter: after at most as many
-- steps as the step's rank, at most eight, the run waits for the user or has ended at the end of the
-- graph. It never goes round without an answer of the user.
pub run_until_asked-rests :
    (n : Node) (i : ℕ → Inputs) (d : TransferData)
    → (rests (run_until_asked (rank n) i (to n, d)).0 ≡ true) × (leb (rank n) 8 ≡ true)
run_until_asked-rests n i d = (run_next (rank n) i (to n) d refl (ground arith), rank_bound n)
