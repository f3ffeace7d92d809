-- ===== src/Agent/Guardrail.antt =====
-- agent/src/agent/policy/guardrail_engine.py: which rules a request sets off, and the one that decides.
pub mod Laws
use kdt_ai_2_hands_on_experi.Common.{
  ℕ, suc, Bool, true, false, ◌&&◌, ◌||◌, ◌++◌, not, Option, none, some, List, [], ◌∷◌,
  if◌then◌else◌, ◌==◌,
}
use kdt_ai_2_hands_on_experi.Common.Texts.{Text, contains, text_eq}

-- The actions with a priority, and any other one.
pub data Action : Type 0 where
  block require_additional_auth require_approval warn ask_clarification : Action
  other_action : ℕ → Action

abbrev pub action_eq : Action → Action → Bool
action_eq block block = true
action_eq require_additional_auth require_additional_auth = true
action_eq require_approval require_approval = true
action_eq warn warn = true
action_eq ask_clarification ask_clarification = true
action_eq (other_action m) (other_action n) = m == n
action_eq a b = false

-- What `_CONNECTOR.split` leaves of an expression: clauses with AND or OR between them.
pub data Connector : Type 0 where
  conjunction disjunction : Connector

pub record Expression (Clause : Type 0) : Type 0 where
  pub first : Clause
  pub others : List (Connector × Clause)

pub record Condition (Clause : Type 0) : Type 0 where
  pub contains_any : List Text
  pub expression : Option (Expression Clause)

-- A rule of the file; `rule_id` stands for what a triggered rule shows.
pub record Rule (Clause : Type 0) : Type 0 where
  pub rule_id : ℕ
  pub applies_to_scope : Text
  pub enabled : Bool
  pub applies_to_ids : List Text
  pub condition : Condition Clause
  pub action : Action

abbrev pub any_true : List Bool → Bool
any_true [] = false
any_true (b ∷ bs) = b || any_true bs

abbrev pub all_true : List Bool → Bool
all_true [] = true
all_true (b ∷ bs) = b && all_true bs

abbrev pub any_group : List (List Bool) → Bool
any_group [] = false
any_group (g ∷ gs) = all_true g || any_group gs

-- The loop over the connectors, with the groups that are closed and the one that is open.
unfoldable pub regroup :
    List (Connector × Bool)
    → (or_groups : List (List Bool)) → (current : List Bool) → List (List Bool)
regroup [] or_groups current = or_groups ++ current ∷ []
regroup ((conjunction, value) ∷ rest) or_groups current =
    regroup rest or_groups (current ++ value ∷ [])
regroup ((disjunction, value) ∷ rest) or_groups current =
    regroup rest (or_groups ++ current ∷ []) (value ∷ [])

abbrev pub is_any_keyword : List Text → Text → Bool
is_any_keyword [] text = false
is_any_keyword (keyword ∷ keywords) text = contains keyword text || is_any_keyword keywords text

abbrev pub has_text : Text → List Text → Bool
has_text t [] = false
has_text t (u ∷ us) = text_eq u t || has_text t us

abbrev pub has_target_id : Option Text → List Text → Bool
has_target_id none ids = false
has_target_id (some target) ids = has_text target ids

-- `"*" in ids`, or the target is in them
abbrev pub applies : {Clause : Type 0} → Rule Clause → Option Text → Bool
applies rule target =
    has_text (b'*' ∷ []) rule.applies_to_ids || has_target_id target rule.applies_to_ids

-- `evaluate_clause` is `_evaluate_clause` in the context of the request.
module _ {Clause : Type 0} (evaluate_clause : Clause → Bool) where
  abbrev pub values_of : List (Connector × Clause) → List (Connector × Bool)
  values_of [] = []
  values_of ((connector, clause) ∷ rest) = (connector, evaluate_clause clause) ∷ values_of rest

  unfoldable pub evaluate_expression : Option (Expression Clause) → Bool
  unfolding regroup
  evaluate_expression none = false
  evaluate_expression (some e) =
      any_group (regroup (values_of e.others) [] (evaluate_clause e.first ∷ []))

  unfoldable pub evaluate_condition : Condition Clause → (user_input : Text) → Bool
  unfolding evaluate_expression
  evaluate_condition condition user_input = elim condition.contains_any [
    | [] ↦ evaluate_expression condition.expression
    | (keyword ∷ keywords) ↦ is_any_keyword (keyword ∷ keywords) user_input
  ]

  abbrev pub is_triggered : (scope : Text) → (user_input : Text) → Option Text → Rule Clause → Bool
  is_triggered scope user_input target rule =
      text_eq rule.applies_to_scope scope
      && rule.enabled
      && applies rule target
      && evaluate_condition rule.condition user_input

  unfoldable pub check :
      (scope : Text) → (user_input : Text) → Option Text → List (Rule Clause) → List (Rule Clause)
  unfolding evaluate_condition
  check scope user_input target [] = []
  check scope user_input target (rule ∷ rules) =
      let rest = check scope user_input target rules in
      if is_triggered scope user_input target rule then rule ∷ rest else rest

-- `_ACTION_PRIORITY`, the most severe first
abbrev pub action_priority : List Action
action_priority = block ∷ require_additional_auth ∷ require_approval ∷ warn ∷ ask_clarification ∷ []

module _ {Clause : Type 0} where
  abbrev pub first_with : Action → List (Rule Clause) → Option (Rule Clause)
  first_with a [] = none
  first_with a (rule ∷ rest) = if action_eq rule.action a then some rule else first_with a rest

  abbrev pub head_of : List (Rule Clause) → Option (Rule Clause)
  head_of [] = none
  head_of (rule ∷ rest) = some rule

  abbrev or_else : Option (Rule Clause) → Option (Rule Clause) → Option (Rule Clause)
  or_else none other = other
  or_else (some rule) other = some rule

  -- The two loops: over the actions, and for each over the rules.
  unfoldable pub pick_from : List Action → List (Rule Clause) → Option (Rule Clause)
  pick_from [] triggered = head_of triggered
  pick_from (a ∷ actions) triggered =
      let rest = pick_from actions triggered in or_else (first_with a triggered) rest

  unfoldable pub pick_decision : List (Rule Clause) → Option (Rule Clause)
  unfolding pick_from
  pick_decision triggered = pick_from action_priority triggered
