-- ===== src/Decision/Caveats/Conditions.antt =====
-- The conditions of a caveat, as evaluateCaveatCondition in packages/core/src/engine.ts reads them.
use access_kit.Prelude.{
  String, Bool, true, false, not, some, List, [], ◌∷◌, map, ◌≡◌, refl, inl, inr, arith, All,
  some_by, Option-cases,
}
use access_kit.Domain.{RelationshipTuple, DecisionRequest}
use access_kit.Domain.Json.{Json}
use access_kit.Domain.Dates.{Dates}
use access_kit.Store.Graph.{Graph}
use access_kit.Policy.Model.{CaveatCondition}
use access_kit.Decision.Caveats.{
  has_passed, value_matches_context_type, compare_condition, resolve_condition_value,
  evaluate_caveat_condition,
}

module _ (dates : Dates) (graph : Graph) (request : DecisionRequest) (evaluated_at : String) where
  -- The condition's value is there, is of its type, and compares as it says.
  abbrev pub ConditionHolds : RelationshipTuple → CaveatCondition → Type 0
  ConditionHolds r c =
      (actual : Json) × (resolve_condition_value dates graph request evaluated_at r c ≡ some actual)
      × (value_matches_context_type dates actual c.type ≡ true)
      × (compare_condition dates actual c ≡ true)

  abbrev evaluated : RelationshipTuple → CaveatCondition → Bool
  evaluated r c = has_passed (evaluate_caveat_condition dates graph request evaluated_at r c)

  evaluated-ConditionHolds :
      (r : RelationshipTuple) (c : CaveatCondition) → evaluated r c ≡ true → ConditionHolds r c
  unfolding evaluate_caveat_condition
  evaluated-ConditionHolds r c h =
      elim (Option-cases (resolve_condition_value dates graph request evaluated_at r c)) [
        | inl e ↦ absurd (ground (arith, e))
        | inr (actual, e) ↦ (actual, e, ground (arith, e), ground (arith, e))
      ]

  ConditionHolds-evaluated :
      (r : RelationshipTuple) (c : CaveatCondition) → ConditionHolds r c → evaluated r c ≡ true
  unfolding evaluate_caveat_condition
  ConditionHolds-evaluated r c (actual, e, type, compared) = rw (e, type, compared) refl

  abbrev pub fails : RelationshipTuple → List CaveatCondition → Bool
  fails r conditions =
      some_by (λ e. not (has_passed e))
        (map (evaluate_caveat_condition dates graph request evaluated_at r) conditions)

  pub fails-ConditionHolds :
      (r : RelationshipTuple) (conditions : List CaveatCondition)
      → fails r conditions ≡ false
      → All (ConditionHolds r) conditions
  fails-ConditionHolds r [] h = tt
  fails-ConditionHolds r (c ∷ cs) h =
      (evaluated-ConditionHolds r c (ground arith), fails-ConditionHolds r cs (ground arith))

  pub ConditionHolds-fails :
      (r : RelationshipTuple) (conditions : List CaveatCondition)
      → All (ConditionHolds r) conditions
      → fails r conditions ≡ false
  ConditionHolds-fails r [] h = refl
  ConditionHolds-fails r (c ∷ cs) h =
      ground (arith, ConditionHolds-evaluated r c h.0, ConditionHolds-fails r cs h.1)
