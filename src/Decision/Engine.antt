-- ===== src/Decision/Engine.antt =====
-- RebacDecisionEngine in packages/core/src/engine.ts: #buildDecisionContext, guard by guard. The
-- reason codes are constructors; `caveat_reason` carries one that the policy or a caveat names.
pub mod Spec
pub mod Edges
pub mod Cases
pub mod Scopes
pub mod Context
pub mod Gate
pub mod Safety
use access_kit.Prelude.{
  ℕ, String, Bool, true, false, not, ◌&&◌, Option, none, some, List, [], ◌∷◌, if◌then◌else◌,
  ◌otherwise◌, or_else, is_some, truthy, leb,
}
use access_kit.Domain.{
  IsoDateTime, Subject, Resource, RelationshipTuple, RelationshipPathStep, DecisionRequest,
  DecisionValue, LifecycleState, is_active_state,
}
use access_kit.Domain.Json.{JsonRecord}
use access_kit.Domain.Dates.{Dates, later}
use access_kit.Store.Graph.{Graph, graph_size}
use access_kit.Policy.Model.{PolicyModel, CompiledPolicyModel}
use access_kit.Policy.Compile.{compile_policy_model}
use access_kit.Decision.Runtime.Guard.{Guard, TraversalBounds, TraversalReport, report, new_guard}
use access_kit.Decision.Runtime.Pins.{VersionPins}
use access_kit.Decision.Visibility.{
  subject_node, resource_node, tenant_id_for, tenant_boundary_denies, visible_subject_at,
  visible_resource_at, effective_lifecycle_state_at,
}
use access_kit.Decision.Cache.{Scope, active_relationship_scope, write_back}
use access_kit.Decision.Paths.{TraversalPath, PathResult, find_deny_path, find_allow_path}
use access_kit.Decision.Caveats.{
  CaveatExplanation, CaveatResult, allows, refuses, evaluate_conditional_relationship_caveats,
}

pub data ReasonCode : Type 0 where
  allow_via_relationship_path : ReasonCode
  deny_invalid_as_of deny_as_of_in_future : ReasonCode
  deny_subject_not_found deny_subject_lifecycle_unknown_as_of deny_subject_not_active : ReasonCode
  deny_resource_not_found deny_resource_lifecycle_unknown_as_of deny_resource_not_active :
      ReasonCode
  deny_tenant_boundary deny_explicit_override deny_traversal_bound_exceeded : ReasonCode
  deny_default_no_relationship_path : ReasonCode
  caveat_reason : String → ReasonCode

pub record DecisionContext : Type 0 where
  pub request : DecisionRequest
  pub evaluated_at : IsoDateTime
  pub version_pins : VersionPins
  pub tenant_id : Option String
  pub resource_classification : Option String
  pub reason_code : ReasonCode
  pub decision : DecisionValue
  pub relationship_path : List RelationshipPathStep
  pub relationship_path_relationships : List RelationshipTuple
  pub traversal : TraversalReport
  pub constraints : List CaveatExplanation

-- What the engine is constructed with, as far as a decision reads it.
pub record EngineConfig : Type 0 where
  pub dates : Dates
  pub lower : String → String
  pub policy_model : PolicyModel
  pub traversal_bounds : TraversalBounds
  pub enforce_tuple_version : Bool

abbrev pub compiled : EngineConfig → CompiledPolicyModel
compiled c = compile_policy_model c.lower c.policy_model

-- The answer of the checks before the searches.
pub data Admission : Type 0 where
  refused : ReasonCode → IsoDateTime → Option String → Option String → Admission
  admitted : Subject → Resource → Admission

abbrev pub is_empty_list : {A : Type 0} → List A → Bool
is_empty_list [] = true
is_empty_list (x ∷ xs) = false

module _ (c : EngineConfig) (graph : Graph) (request : DecisionRequest) (evaluated_at : IsoDateTime)
    (pins : VersionPins) where
  abbrev pub subject_tenant : Subject → Option String
  subject_tenant s = tenant_id_for (some (subject_node s))

  abbrev pub cache_tenant : Subject → Resource → Option String
  cache_tenant s r = or_else (subject_tenant s) (tenant_id_for (some (resource_node r)))

  unfoldable pub admit_resource : Subject → Admission
  admit_resource s = elim (visible_resource_at c.dates graph request.resource_id pins.as_of) [
    | none ↦ refused deny_resource_not_found pins.as_of (subject_tenant s) none
    | some r ↦ elim (effective_lifecycle_state_at c.dates (resource_node r) pins.as_of) [
      | none ↦
          refused deny_resource_lifecycle_unknown_as_of pins.as_of (cache_tenant s r)
            (some r.classification)
      | some state ↦
          if not (is_active_state state)
          then refused deny_resource_not_active pins.as_of (cache_tenant s r)
              (some r.classification)
          else if tenant_boundary_denies s r
          then refused deny_tenant_boundary pins.as_of (cache_tenant s r) (some r.classification)
          else admitted s r
    ]
  ]

  unfoldable pub admit_subject : Admission
  unfolding admit_resource
  admit_subject = elim (visible_subject_at c.dates graph request.subject_id pins.as_of) [
    | none ↦ refused deny_subject_not_found pins.as_of none none
    | some s ↦ elim (effective_lifecycle_state_at c.dates (subject_node s) pins.as_of) [
      | none ↦ refused deny_subject_lifecycle_unknown_as_of pins.as_of (subject_tenant s) none
      | some state ↦
          if not (is_active_state state)
          then refused deny_subject_not_active pins.as_of (subject_tenant s) none
          else admit_resource s
    ]
  ]

  unfoldable pub admit_request : Admission
  unfolding admit_subject
  admit_request = elim (c.dates.parse pins.as_of) [
    | none ↦ refused deny_invalid_as_of evaluated_at none none
    | some at ↦
        if later (some at) (c.dates.parse evaluated_at)
        then refused deny_as_of_in_future evaluated_at none none
        else admit_subject
  ]

  -- The inner function `denied`.
  unfoldable pub denied :
      ReasonCode
      → IsoDateTime
      → Option String
      → Option String
      → TraversalPath
      → Guard
      → List CaveatExplanation
      → DecisionContext
  denied reason as_of tenant classification path guard constraints = record {
    request = request;
    evaluated_at = evaluated_at;
    version_pins = record pins { as_of = as_of };
    tenant_id = tenant;
    resource_classification = classification;
    reason_code = reason;
    decision = DecisionValue.deny;
    relationship_path = path.steps;
    relationship_path_relationships = path.relationships;
    traversal = report guard;
    constraints = constraints;
  }

  abbrev pub no_path : TraversalPath
  no_path = record { steps = []; relationships = [] }

  -- After the searches: the caveats of the path decide.
  unfoldable pub decide_caveats : Subject → Resource → PathResult → DecisionContext
  unfolding denied
  decide_caveats s r found =
      elim (evaluate_conditional_relationship_caveats c.dates graph request evaluated_at
        c.policy_model found.path.steps found.path.relationships) [
          | refuses reason explanations ↦
              denied (caveat_reason reason) pins.as_of (cache_tenant s r) (some r.classification)
                found.path found.guard explanations
          | allows explanations ↦ record {
            request = request;
            evaluated_at = evaluated_at;
            version_pins = pins;
            tenant_id = cache_tenant s r;
            resource_classification = some r.classification;
            reason_code = allow_via_relationship_path;
            decision = DecisionValue.allow;
            relationship_path = found.path.steps;
            relationship_path_relationships = found.path.relationships;
            traversal = report found.guard;
            constraints = explanations;
          }
        ]

  unfoldable pub decide_allow : Subject → Resource → PathResult → DecisionContext
  unfolding decide_caveats
  decide_allow s r found =
      if is_some found.guard.bounds_exceeded
      then denied deny_traversal_bound_exceeded pins.as_of (cache_tenant s r)
          (some r.classification) found.path found.guard []
      else if is_empty_list found.path.steps
      then denied deny_default_no_relationship_path pins.as_of (cache_tenant s r)
          (some r.classification) no_path found.guard []
      else decide_caveats s r found

  abbrev pub pinned_tuple_version : Option String
  pinned_tuple_version =
      or_else request.tuple_version
        (if c.enforce_tuple_version then some pins.tuple_version else none)

  -- Of the two searches: a denial comes first, then a bound that was passed, then the grant.
  unfoldable pub conclude : Subject → Resource → PathResult → PathResult → DecisionContext × Scope
  unfolding decide_allow
  conclude s r deny_result allow_result =
      if not (is_empty_list deny_result.path.steps)
      then (
        denied deny_explicit_override pins.as_of (cache_tenant s r) (some r.classification)
            deny_result.path deny_result.guard [],
        deny_result.scope,
      )
      else if is_some deny_result.guard.bounds_exceeded
      then (
        denied deny_traversal_bound_exceeded pins.as_of (cache_tenant s r) (some r.classification)
            no_path deny_result.guard [],
        deny_result.scope,
      )
      else (decide_allow s r allow_result, allow_result.scope)

  -- The search for a denial, and with what it leaves of the bounds the search for a grant.
  unfoldable pub deny_search : Subject → Scope → Guard → PathResult
  deny_search s scope guard =
      find_deny_path c.dates c.lower graph (compiled c) (subject_tenant s) pins.as_of scope guard
        request.subject_id request.resource_id request.action

  unfoldable pub allow_search : Subject → Scope → Guard → PathResult
  allow_search s scope guard =
      find_allow_path c.dates c.lower graph (compiled c) (subject_tenant s) pins.as_of scope guard
        request.subject_id request.resource_id request.action

  -- The decision, and the scope after it.
  unfoldable pub decide_paths : Subject → Resource → Scope → Guard → DecisionContext × Scope
  unfolding conclude deny_search allow_search
  decide_paths s r scope guard =
      let deny_result = deny_search s scope guard in
      conclude s r deny_result (allow_search s deny_result.scope deny_result.guard)

  abbrev pub first_guard : Guard
  first_guard = new_guard c.traversal_bounds (graph_size graph) request.subject_id

  -- The decision, and the engine's scopes after it.
  unfoldable pub build_decision_context : List Scope → DecisionContext × List Scope
  unfolding admit_request decide_paths
  build_decision_context scopes = elim admit_request [
    | refused reason as_of tenant classification ↦
        (denied reason as_of tenant classification no_path first_guard [], scopes)
    | admitted s r ↦
        let (scope, scopes') =
          active_relationship_scope graph scopes pins.as_of pinned_tuple_version in
        let (context, scope') = decide_paths s r scope first_guard in
        (context, write_back scopes' scope')
  ]
