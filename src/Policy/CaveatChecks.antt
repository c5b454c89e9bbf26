-- ===== src/Policy/CaveatChecks.antt =====
-- The checks of validatePolicyModel in packages/core/src/policy-model.ts on context keys and
-- caveats.
use access_kit.Prelude.{
  ◌^◌, String, Bool, true, false, not, ◌&&◌, ◌||◌, Option, none, some, List, [], ◌∷◌, ◌==◌,
  if◌then◌else◌, ◌otherwise◌, or_else, is_empty, is_some, holds,
}
use access_kit.JsMap
use access_kit.JsMap.{JsMap}
use access_kit.Domain.Dates.{Dates}
use access_kit.Domain.Json.{
  Json, undefined, null, bool, num, text, arr, obj, Items, nil, cons, JsNumber, plus, number_le,
}
use access_kit.Policy.Model.{
  PolicyModel, Caveat, CaveatCondition, ConditionSource, CaveatOperator, ContextType,
  ContextConstraint,
}
use access_kit.Policy.Checks.{
  ValidationCheck, passed, failed, verdict, first, fail_if, is_nil, names_of, has_duplicates,
}

abbrev pub caveats_of : PolicyModel → List Caveat
caveats_of model = model.caveats otherwise []

module _ (dates : Dates) where
  unfoldable pub value_matches_type : Json → ContextType → Bool
  value_matches_type (text s) ContextType.datetime = is_some (dates.parse s)
  value_matches_type (text s) ContextType.string = true
  value_matches_type (num n) ContextType.number = true
  value_matches_type (bool b) ContextType.boolean = true
  value_matches_type _ _ = false

  abbrev same_type : ContextType → ContextType → Bool
  same_type ContextType.string ContextType.string = true
  same_type ContextType.number ContextType.number = true
  same_type ContextType.boolean ContextType.boolean = true
  same_type ContextType.datetime ContextType.datetime = true
  same_type _ _ = false

  one : JsNumber
  one = plus (2 ^ 1074)

  -- `min !== undefined && max !== undefined && min > max`.
  abbrev bounds_crossed : Option JsNumber → Option JsNumber → Bool
  bounds_crossed low high = holds (λ l. holds (λ h. not (number_le l h)) high) low

  abbrev bad_length : ContextConstraint → Bool
  bad_length c =
      holds (λ m. not (same_type c.type ContextType.string) || not (number_le one m)) c.max_length

  unfoldable pub check_context_constraints : PolicyModel → List ValidationCheck
  unfolding has_duplicates value_matches_type one
  check_context_constraints model =
      if has_duplicates (names_of (λ (c : ContextConstraint). c.key) model.context_constraints)
      then failed "context_constraints_unique" ∷ []
      else elim (first
          (λ (c : ContextConstraint).
            or_else (fail_if (bounds_crossed c.min c.max) "context_constraint_bounds_valid") (
              or_else (fail_if (bad_length c) "context_constraint_bounds_valid") (
                first
                  (λ v.
                    fail_if (not (value_matches_type v c.type)) "context_constraint_bounds_valid")
                  (c.allowed_values otherwise []))))
          model.context_constraints) [
            | some failure ↦ failed failure ∷ []
            | none ↦
                passed "context_constraint_types_known"
                ∷ passed "context_constraint_bounds_valid"
                ∷ []
          ]

  unfoldable pub operator_matches_type : CaveatOperator → ContextType → Bool
  operator_matches_type CaveatOperator.before type = same_type type ContextType.datetime
  operator_matches_type CaveatOperator.after type = same_type type ContextType.datetime
  operator_matches_type CaveatOperator.less_than_or_equal type = same_type type ContextType.number
  operator_matches_type CaveatOperator.greater_than_or_equal type =
      same_type type ContextType.number
  operator_matches_type CaveatOperator.equals type = not (same_type type ContextType.datetime)
  operator_matches_type CaveatOperator.one_of type = not (same_type type ContextType.datetime)

  unfoldable all_match : Items → ContextType → Bool
  unfolding value_matches_type
  all_match nil type = true
  all_match (cons v vs) type = value_matches_type v type && all_match vs type

  abbrev is_one_of : CaveatOperator → Bool
  is_one_of CaveatOperator.one_of = true
  is_one_of _ = false

  unfoldable pub condition_value_matches_type : Json → ContextType → CaveatOperator → Bool
  unfolding value_matches_type all_match
  condition_value_matches_type (arr nil) type operator = false
  condition_value_matches_type (arr (cons v vs)) type operator =
      is_one_of operator && all_match (cons v vs) type
  condition_value_matches_type undefined type operator = false
  condition_value_matches_type null type operator = false
  condition_value_matches_type (bool b) type operator =
      not (is_one_of operator) && value_matches_type (bool b) type
  condition_value_matches_type (num n) type operator =
      not (is_one_of operator) && value_matches_type (num n) type
  condition_value_matches_type (text s) type operator =
      not (is_one_of operator) && value_matches_type (text s) type
  condition_value_matches_type (obj r) type operator = false

  abbrev is_ordered_in_time : CaveatOperator → Bool
  is_ordered_in_time CaveatOperator.before = true
  is_ordered_in_time CaveatOperator.after = true
  is_ordered_in_time _ = false

  abbrev has_values : Option (List Json) → Bool
  has_values none = false
  has_values (some vs) = not (is_nil vs)

  unfoldable pub context_constraint_is_bounded : ContextConstraint → CaveatCondition → Bool
  context_constraint_is_bounded k c = if has_values k.allowed_values then true else elim k.type [
    | ContextType.boolean ↦ true
    | ContextType.number ↦ is_some k.min && is_some k.max
    | ContextType.string ↦ holds (λ m. not (number_le m (plus 0))) k.max_length
    | ContextType.datetime ↦ is_ordered_in_time c.operator
  ]

  abbrev is_true : Option Bool → Bool
  is_true none = false
  is_true (some b) = b

  -- The last constraint of a key, as in a Map of the constraints.
  unfoldable constraints_by_key :
      List ContextConstraint → JsMap ContextConstraint → JsMap ContextConstraint
  constraints_by_key [] m = m
  constraints_by_key (k ∷ ks) m = constraints_by_key ks (JsMap.set m k.key k)

  abbrev context_failure : Option ContextConstraint → CaveatCondition → Option String
  context_failure none c = some "policy_caveat_context_known"
  context_failure (some k) c =
      or_else (fail_if (not (same_type k.type c.type)) "policy_caveat_conditions_typed") (
        or_else
          (fail_if (not (is_true k.required && is_true k.auditable))
            "policy_caveat_context_auditable")
          (fail_if (not (context_constraint_is_bounded k c)) "policy_caveat_context_bounded"))

  unfoldable pub validate_caveat_condition :
      JsMap ContextConstraint → CaveatCondition → Option String
  unfolding operator_matches_type condition_value_matches_type context_constraint_is_bounded
      JsMap.get
  validate_caveat_condition constraints c =
      or_else
        (fail_if (not (operator_matches_type c.operator c.type)) "policy_caveat_conditions_typed")
        (or_else
          (fail_if (not (condition_value_matches_type c.value c.type c.operator))
            "policy_caveat_conditions_typed")
          (elim c.source [
            | ConditionSource.context ↦ context_failure (JsMap.get constraints c.key) c
            | ConditionSource.environment ↦
                fail_if
                  (not (c.key == "evaluatedAt") || not (same_type c.type ContextType.datetime))
                  "policy_caveat_conditions_typed"
            | ConditionSource.subject ↦ none
            | ConditionSource.resource ↦ none
            | ConditionSource.relationship ↦ none
          ]))

  abbrev caveat_failure : JsMap ContextConstraint → Caveat → Option String
  caveat_failure constraints c =
      or_else (fail_if (not c.fail_closed || is_empty c.reason_code) "policy_caveats_fail_closed") (
        or_else (fail_if (is_nil c.conditions) "policy_caveat_conditions_declared")
          (first (validate_caveat_condition constraints) c.conditions))

  unfoldable pub check_caveats : PolicyModel → ValidationCheck
  unfolding has_duplicates validate_caveat_condition constraints_by_key
  check_caveats model =
      if has_duplicates (names_of (λ (c : Caveat). c.name) (caveats_of model))
      then failed "policy_caveats_unique"
      else verdict "policy_caveats_fail_closed" (
          first (caveat_failure (constraints_by_key model.context_constraints []))
            (caveats_of model))
