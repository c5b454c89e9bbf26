-- ===== src/Decision/Caveats.antt =====
-- evaluateConditionalRelationshipCaveats and what it calls, in packages/core/src/engine.ts.
pub mod Values
pub mod Conditions
pub mod Meaning
pub mod Named
pub mod Validated
use access_kit.Prelude.{
  String, Bool, true, false, not, ◌&&◌, ◌||◌, Option, none, some, List, [], ◌∷◌, ◌++◌,
  if◌then◌else◌, ◌==◌, filter_by, some_by, is_some, map, ◌otherwise◌,
}
use access_kit.JsMap
use access_kit.JsMap.{JsMap}
use access_kit.Domain.{
  IsoDateTime, Subject, Resource, RelationshipTuple, RelationshipPathStep, DecisionRequest,
  lifecycle_text, tuple_status_text,
}
use access_kit.Domain.Json.{
  JsonRecord, end, Json, undefined, null, bool, num, text, arr, obj, Items, nil, cons, value_of,
  put, number_le, JsNumber,
}
use access_kit.Domain.Dates.{Dates, later}
use access_kit.Store.Graph.{Graph, get_subject, get_resource}
use access_kit.Policy.Model.{
  PolicyModel, Caveat, CaveatCondition, ConditionalRelationship, ConditionSource, CaveatOperator,
  ContextType,
}
use access_kit.Decision.Caveats.Values.{
  subject_record, resource_record, relationship_record, value_at, strictly_equal, some_item,
  one_of_items, both_numbers, both_texts,
}

pub data ConditionStatus : Type 0 where
  passed failed missing invalid : ConditionStatus

-- conditionExplanation.
pub record ConditionExplanation : Type 0 where
  pub source : ConditionSource
  pub key : String
  pub operator : CaveatOperator
  pub status : ConditionStatus

-- caveatExplanation.
pub record CaveatExplanation : Type 0 where
  pub caveat : String
  pub relation : String
  pub status : ConditionStatus
  pub reason_code : Option String
  pub conditions : List ConditionExplanation

abbrev pub has_passed : ConditionExplanation → Bool
has_passed e = elim e.status [ passed ↦ true | failed ↦ false | missing ↦ false | invalid ↦ false ]

-- The reason code of an invalid caveat.
abbrev pub caveat_invalid : String
caveat_invalid = "DENY_POLICY_CAVEAT_INVALID"

pub data CaveatResult : Type 0 where
  allows : List CaveatExplanation → CaveatResult
  refuses : String → List CaveatExplanation → CaveatResult

module _ (dates : Dates) where
  unfoldable pub compare_condition : Json → CaveatCondition → Bool
  unfolding strictly_equal some_item
  compare_condition actual c = elim c.operator [
    | CaveatOperator.equals ↦ strictly_equal actual c.value
    | CaveatOperator.one_of ↦ one_of_items actual c.value
    | CaveatOperator.less_than_or_equal ↦ both_numbers number_le actual c.value
    | CaveatOperator.greater_than_or_equal ↦ both_numbers (λ a b. number_le b a) actual c.value
    | CaveatOperator.before ↦
        both_texts (λ a b. later (dates.parse b) (dates.parse a)) actual c.value
    | CaveatOperator.after ↦
        both_texts (λ a b. later (dates.parse a) (dates.parse b)) actual c.value
  ]

  unfoldable pub value_matches_context_type : Json → ContextType → Bool
  value_matches_context_type (text s) ContextType.datetime = is_some (dates.parse s)
  value_matches_context_type (text s) ContextType.string = true
  value_matches_context_type (num n) ContextType.number = true
  value_matches_context_type (bool b) ContextType.boolean = true
  value_matches_context_type _ _ = false

  module _ (graph : Graph) (request : DecisionRequest) (evaluated_at : IsoDateTime) where
    unfoldable pub resolve_condition_value : RelationshipTuple → CaveatCondition → Option Json
    unfolding value_at
    resolve_condition_value r c = elim c.source [
      | ConditionSource.context ↦ value_at request.context c.key
      | ConditionSource.environment ↦
          if c.key == "evaluatedAt" then some (text evaluated_at) else none
      | ConditionSource.relationship ↦ value_at (relationship_record r) c.key
      | ConditionSource.subject ↦
          value_at (subject_record (get_subject graph request.subject_id)) c.key
      | ConditionSource.resource ↦
          value_at (resource_record (get_resource graph request.resource_id)) c.key
    ]

    abbrev condition_status : Option Json → CaveatCondition → ConditionStatus
    condition_status none c = missing
    condition_status (some actual) c =
        if not (value_matches_context_type actual c.type)
        then invalid
        else if compare_condition actual c
        then passed
        else failed

    unfoldable pub evaluate_caveat_condition :
        RelationshipTuple → CaveatCondition → ConditionExplanation
    unfolding resolve_condition_value
    evaluate_caveat_condition r c = record {
      source = c.source;
      key = c.key;
      operator = c.operator;
      status = condition_status (resolve_condition_value r c) c;
    }

    -- `new Map(caveats.map((caveat) => [caveat.name, caveat]))`: of two with one name the later.
    unfoldable pub caveats_by_name : List Caveat → JsMap Caveat → JsMap Caveat
    caveats_by_name [] m = m
    caveats_by_name (c ∷ cs) m = caveats_by_name cs (JsMap.set m c.name c)

    -- The caveats of one edge, in order; `refuses` ends the evaluation.
    unfoldable pub evaluate_caveats :
        JsMap Caveat
        → RelationshipPathStep
        → Option RelationshipTuple
        → List String
        → List CaveatExplanation
        → CaveatResult
    evaluate_caveats by_name step relationship [] explanations = allows explanations
    evaluate_caveats by_name step relationship (name ∷ names) explanations =
        let invalid_one = λ (reason : String). refuses reason (
          explanations
          ++ record {
            caveat = name;
            relation = step.relation;
            status = invalid;
            reason_code = some reason;
            conditions = [];
          }
            ∷ []) in
        elim (JsMap.get by_name name) [
          | none ↦ invalid_one caveat_invalid
          | some caveat ↦ elim relationship [
            | none ↦ invalid_one caveat.reason_code
            | some r ↦
                let results = map (evaluate_caveat_condition r) caveat.conditions in
                elim (some_by (λ e. not (has_passed e)) results) [
                  | true ↦ refuses caveat.reason_code (
                      explanations
                      ++ record {
                        caveat = caveat.name;
                        relation = step.relation;
                        status = failed;
                        reason_code = some caveat.reason_code;
                        conditions = results;
                      }
                        ∷ [])
                  | false ↦ evaluate_caveats by_name step relationship names (
                      explanations
                      ++ record {
                        caveat = caveat.name;
                        relation = step.relation;
                        status = passed;
                        reason_code = none;
                        conditions = results;
                      }
                        ∷ [])
                ]
          ]
        ]

    -- The conditional relationships that are for the request's action.
    unfoldable pub applicable_conditionals : PolicyModel → List ConditionalRelationship
    applicable_conditionals model =
        filter_by
          (λ c. elim c.actions [
            | none ↦ true
            | some actions ↦ some_by (λ a. a == request.action) actions
          ])
          (model.conditional_relationships otherwise [])

    abbrev head_option : {A : Type 0} → List A → Option A
    head_option [] = none
    head_option (x ∷ xs) = some x

    abbrev tail_list : {A : Type 0} → List A → List A
    tail_list [] = []
    tail_list (x ∷ xs) = xs

    -- The caveats of one edge of the path: none, those of its one conditional relationship, or a
    -- refusal where the policy has two.
    unfoldable pub evaluate_step :
        JsMap Caveat
        → List ConditionalRelationship
        → RelationshipPathStep
        → Option RelationshipTuple
        → List CaveatExplanation
        → CaveatResult
    unfolding evaluate_caveats
    evaluate_step by_name conditionals step relationship explanations =
        elim (filter_by (λ c. c.relation == step.relation) conditionals) [
          | [] ↦ allows explanations
          | conditional ∷ more ↦ elim more [
            | [] ↦ evaluate_caveats by_name step relationship conditional.caveats explanations
            | _ ∷ _ ↦ refuses caveat_invalid (
                explanations
                ++ record {
                  caveat = "duplicate-conditional-relationship";
                  relation = step.relation;
                  status = invalid;
                  reason_code = some caveat_invalid;
                  conditions = [];
                }
                  ∷ [])
          ]
        ]

    unfoldable pub evaluate_steps :
        JsMap Caveat
        → List ConditionalRelationship
        → List RelationshipPathStep
        → List RelationshipTuple
        → List CaveatExplanation
        → CaveatResult
    unfolding evaluate_step
    evaluate_steps by_name conditionals [] relationships explanations = allows explanations
    evaluate_steps by_name conditionals (step ∷ steps) relationships explanations =
        elim (evaluate_step by_name conditionals step (head_option relationships) explanations) [
          | allows explanations' ↦
              evaluate_steps by_name conditionals steps (tail_list relationships) explanations'
          | refuses reason explanations' ↦ refuses reason explanations'
        ]

    unfoldable pub evaluate_conditional_relationship_caveats :
        PolicyModel → List RelationshipPathStep → List RelationshipTuple → CaveatResult
    unfolding evaluate_steps applicable_conditionals caveats_by_name
    evaluate_conditional_relationship_caveats model steps relationships =
        evaluate_steps (caveats_by_name (model.caveats otherwise []) [])
          (applicable_conditionals model) steps relationships []
