-- ===== src/Agent/Guardrail/Laws.antt =====
-- guardrail_engine.py: AND binds more tightly than OR, and the most severe rule decides.
use kdt_ai_2_hands_on_experi.Common.{
  ℕ, suc, ◌≡◌, refl, sym, ◌∙◌, ap, Bool, true, false, ◌&&◌, ◌||◌, ◌++◌, none, some, List, [], ◌∷◌,
  if◌then◌else◌, leb, arith, Bool-cases, Option-cases, inl, inr, ◌⊎◌, subst,
}
use kdt_ai_2_hands_on_experi.Common.Lists.{All}
use kdt_ai_2_hands_on_experi.Agent.Guardrail.{
  Action, Connector, Expression, Rule, action_eq, action_priority, all_true, any_group, conjunction,
  disjunction, evaluate_expression, first_with, pick_decision, pick_from, regroup, values_of,
}

-- The value of an expression by its grammar: conjunctions of clauses, with OR between them.
abbrev pub value_of : Bool → List (Connector × Bool) → Bool
value_of v [] = v
value_of v ((conjunction, w) ∷ rest) = value_of (v && w) rest
value_of v ((disjunction, w) ∷ rest) = v || value_of w rest

all_true-append : (g : List Bool) (w : Bool) → all_true (g ++ w ∷ []) ≡ (all_true g && w)
all_true-append [] w = ground arith
all_true-append (b ∷ g) w = ground (arith, all_true-append g w)

any_group-append :
    (gs : List (List Bool)) (g : List Bool)
    → any_group (gs ++ g ∷ []) ≡ (any_group gs || all_true g)
any_group-append [] g = ground arith
any_group-append (h ∷ gs) g = ground (arith, any_group-append gs g)

and_true : (v : Bool) → (v && true) ≡ v
and_true true = refl
and_true false = refl

or_assoc : (a b c : Bool) → ((a || b) || c) ≡ (a || (b || c))
or_assoc true b c = refl
or_assoc false b c = refl

regroup-value_of :
    (rest : List (Connector × Bool)) (gs : List (List Bool)) (g : List Bool)
    → any_group (regroup rest gs g) ≡ (any_group gs || value_of (all_true g) rest)
unfolding regroup
regroup-value_of [] gs g = any_group-append gs g
regroup-value_of ((conjunction, w) ∷ rest) gs g =
    regroup-value_of rest gs (g ++ w ∷ []) ∙ rw (all_true-append g w) refl
regroup-value_of ((disjunction, w) ∷ rest) gs g =
    regroup-value_of rest (gs ++ g ∷ []) (w ∷ [])
    ∙ rw (any_group-append gs g)
        (rw (and_true w) (or_assoc (any_group gs) (all_true g) (value_of w rest)))

-- The value of an expression is that of its grammar, in which AND binds more tightly than OR: the value so
-- far and the next clause under AND, or else the value so far or that of the rest.
pub evaluate_expression-value_of :
    {Clause : Type 0} (evaluate_clause : Clause → Bool) (e : Expression Clause)
    → evaluate_expression evaluate_clause (some e)
      ≡ value_of (evaluate_clause e.first) (values_of evaluate_clause e.others)
unfolding evaluate_expression
evaluate_expression-value_of evaluate_clause e =
    let v = evaluate_clause e.first in
    let others = values_of evaluate_clause e.others in
    regroup-value_of others [] (v ∷ []) ∙ ap (λ b. value_of b others) (and_true v)

-- Where an action stands in a list, or the list's length.
abbrev pub position : Action → List Action → ℕ
position a [] = 0
position a (b ∷ bs) = if action_eq a b then 0 else suc (position a bs)

module _ {Clause : Type 0} where
  abbrev pub IsIn : Rule Clause → List (Rule Clause) → Type 0
  IsIn r [] = ⊥
  IsIn r (t ∷ ts) = (r ≡ t) ⊎ IsIn r ts

  -- Nothing in the list is more severe.
  abbrev pub IsSeverest : List Action → Rule Clause → List (Rule Clause) → Type 0
  IsSeverest actions r ts =
      All (λ t. leb (position r.action actions) (position t.action actions) ≡ true) ts

  first_with-some :
      (a : Action) (r : Rule Clause) (ts : List (Rule Clause))
      → first_with a ts ≡ some r
      → IsIn r ts × (action_eq r.action a ≡ true)
  first_with-some a r [] h = cc
  first_with-some a r (t ∷ ts) h = elim (Bool-cases (action_eq t.action a)) [
    | inl same ↦
        let e : t ≡ r = ground (arith, same, h) in
        (inl (sym e), subst (λ x. action_eq x.action a ≡ true) e same)
    | inr differ ↦
        let (found, same) = first_with-some a r ts (ground (arith, differ, h)) in (inr found, same)
  ]

  first_with-none :
      (a : Action) (ts : List (Rule Clause))
      → first_with a ts ≡ none
      → All (λ t. action_eq t.action a ≡ false) ts
  first_with-none a [] h = tt
  first_with-none a (t ∷ ts) h = elim (Bool-cases (action_eq t.action a)) [
    | inl same ↦ ground (arith, same, h)
    | inr differ ↦ (differ, first_with-none a ts (ground (arith, differ, h)))
  ]

  All-IsIn :
      (P : Rule Clause → Type 0) (r : Rule Clause) (ts : List (Rule Clause))
      → All P ts
      → IsIn r ts
      → P r
  All-IsIn P r [] h found = absurd found
  All-IsIn P r (t ∷ ts) h (inl e) = subst P (sym e) h.0
  All-IsIn P r (t ∷ ts) h (inr found) = All-IsIn P r ts h.1 found

  -- The rule has the action that is looked for first.
  first-IsSeverest :
      (a : Action) (actions : List Action) (r : Rule Clause) (ts : List (Rule Clause))
      → action_eq r.action a ≡ true
      → IsSeverest (a ∷ actions) r ts
  first-IsSeverest a actions r [] same = tt
  first-IsSeverest a actions r (t ∷ ts) same =
      (ground (arith, same), first-IsSeverest a actions r ts same)

  -- No rule has that action.
  later-IsSeverest :
      (a : Action) (actions : List Action) (r : Rule Clause) (ts : List (Rule Clause))
      → action_eq r.action a ≡ false
      → All (λ t. action_eq t.action a ≡ false) ts
      → IsSeverest actions r ts
      → IsSeverest (a ∷ actions) r ts
  later-IsSeverest a actions r [] differ none_ h = tt
  later-IsSeverest a actions r (t ∷ ts) differ none_ h =
      (ground (arith, differ, none_.0, h.0), later-IsSeverest a actions r ts differ none_.1 h.1)

  nothing-IsSeverest : (r : Rule Clause) (ts : List (Rule Clause)) → IsSeverest [] r ts
  nothing-IsSeverest r [] = tt
  nothing-IsSeverest r (t ∷ ts) = (refl, nothing-IsSeverest r ts)

  pick_from-IsSeverest :
      (actions : List Action) (r : Rule Clause) (ts : List (Rule Clause))
      → pick_from actions ts ≡ some r
      → IsIn r ts × IsSeverest actions r ts
  unfolding pick_from
  pick_from-IsSeverest [] r [] h = cc
  pick_from-IsSeverest [] r (t ∷ ts) h = (inl (ground (arith, h)), nothing-IsSeverest r (t ∷ ts))
  pick_from-IsSeverest (a ∷ actions) r ts h = elim (Option-cases (first_with a ts)) [
    | inl absent ↦
        let (found, severest) = pick_from-IsSeverest actions r ts (ground (arith, absent, h)) in
        let others = first_with-none a ts absent in
        (found, later-IsSeverest a actions r ts (All-IsIn _ r ts others found) others severest)
    | inr (t, present) ↦
        let e : t ≡ r = ground (arith, present, h) in
        let (found, same) = first_with-some a r ts (present ∙ ap some e) in
        (found, first-IsSeverest a actions r ts same)
  ]

  pick_from-picks :
      (actions : List Action) (t : Rule Clause) (ts : List (Rule Clause))
      → (r : Rule Clause) × (pick_from actions (t ∷ ts) ≡ some r)
  unfolding pick_from
  pick_from-picks [] t ts = (t, refl)
  pick_from-picks (a ∷ actions) t ts = elim (Option-cases (first_with a (t ∷ ts))) [
    | inl absent ↦ let (r, h) = pick_from-picks actions t ts in (r, ground (arith, absent, h))
    | inr (r, present) ↦ (r, ground (arith, present))
  ]

  -- Where some rule is triggered, one is picked; it is one of the triggered rules, and none of them has
  -- an action that stands before its action in the list of priorities.
  pub pick_decision-IsSeverest :
      (t : Rule Clause) (ts : List (Rule Clause))
      → (r : Rule Clause) × (pick_decision (t ∷ ts) ≡ some r)
        × IsIn r (t ∷ ts)
        × IsSeverest action_priority r (t ∷ ts)
  unfolding pick_decision
  pick_decision-IsSeverest t ts =
      let (r, h) = pick_from-picks action_priority t ts in
      let (found, severest) = pick_from-IsSeverest action_priority r (t ∷ ts) h in
      (r, h, found, severest)
