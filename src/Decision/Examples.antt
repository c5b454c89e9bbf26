-- ===== src/Decision/Examples.antt =====
-- Decisions over a small graph, and the theorems at them.
use access_kit.Prelude.{
  ◌otherwise◌, Bool, true, All, some_by, ◌&&◌, ◌||◌, ◌<◌, String, false, none, some, List, [], ◌∷◌,
  ◌≡◌, refl, arith, if◌then◌else◌, ◌==◌,
}
use access_kit.Domain.{
  Subject, Resource, RelationshipTuple, DecisionRequest, DecisionValue, LifecycleState, TupleStatus,
}
use access_kit.JsMap
use access_kit.JsSet
use access_kit.Store.Graph
use access_kit.Decision.Visibility
use access_kit.Decision.Cache
use access_kit.Decision.Search
use access_kit.Decision.Paths
use access_kit.Decision.Caveats
use access_kit.Decision.Caveats.Values
use access_kit.Decision.Runtime.Guard
use access_kit.Policy.Compile
use access_kit.Domain.Json
use access_kit.Decision.Engine
use access_kit.Domain.Json.{JsonRecord, end, field, text}
use access_kit.Domain.Dates.{Dates}
use access_kit.Store.Graph.{
  Graph, empty_graph, upsert_subject, upsert_resource, upsert_relationship,
}
use access_kit.Policy.Compile.{
  compile_policy_model, grant_relations_for, traversal_relations_for, deny_relations_for,
}
use access_kit.Policy.Compile.Laws.{maps_to, inherits_through}
use access_kit.Policy.Compile.Meaning.{
  declares, denies, has-grant_relations_for, has-traversal_relations_for, has-deny_relations_for,
}
use access_kit.Policy.Model.{TenantBoundarySource, PolicyModel, Relation, RelationKind}
use access_kit.Decision.Runtime.Guard.{default_traversal_bounds}
use access_kit.Decision.Runtime.Pins.{VersionPins}
use access_kit.Decision.Engine.{
  EngineConfig, DecisionContext, admit_request, admitted, ReasonCode, allow_via_relationship_path,
  deny_explicit_override, deny_default_no_relationship_path, build_decision_context,
  pinned_tuple_version,
}
use access_kit.Decision.Cache.{Scope}
use access_kit.Decision.Keys.{IsPlain}
use access_kit.Decision.Engine.Scopes.{IsCurrent}
use access_kit.Decision.Engine.Context.{build_decision_context-IsCurrent}
use access_kit.Decision.Engine.Gate.{
  IsAdmissible, admit_request-IsAdmissible, IsAdmissible-admit_request,
}
use access_kit.Decision.System.{
  Run, begin, subject_step, resource_step, relationship_step, decision_step, Run-cache,
}
use access_kit.Decision.Runtime.Guard.{Guard, new_guard}
use access_kit.Store.Graph.{graph_size}
use access_kit.Decision.Search.{Verdict, search, start}
use access_kit.Decision.Search.Fuel.{Ends}
use access_kit.Decision.Search.Frontier.{Arrived}
use access_kit.Decision.Search.Complete.{IsMonotone, NoArrival, search-Ends}
use access_kit.Decision.Paths.{allow_verdict}
use access_kit.Decision.Cache.{active_relationships}
use access_kit.Decision.Engine.Edges.{allow_verdict-IsMonotone}
use access_kit.Decision.Engine.Context.{new_guard-IsReady}
use access_kit.Decision.Engine.Safety.{IsSafeAllow, build_decision_context-IsSafeAllow}

-- Days of one month, written as one digit.
abbrev pub dates : Dates
dates = record {
  parse = λ s.
      if s == "1" then some 1 else if s == "2" then some 2 else if s == "3" then some 3 else none;
  to_iso_string = λ n. "2";
}

abbrev tenant_record : JsonRecord
tenant_record = field "tenantId" (text "acme") end

abbrev subject : String → Subject
subject id = record {
  id = id;
  version = "v1";
  created_at = "1";
  updated_at = none;
  type = "user";
  display_name = id;
  source_system = "hr";
  lifecycle_state = LifecycleState.active;
  identifiers = end;
  attributes = some tenant_record;
  last_seen_at = none;
}

abbrev resource : String → Resource
resource id = record {
  id = id;
  version = "v1";
  created_at = "1";
  updated_at = none;
  type = "document";
  display_name = id;
  source_system = "dms";
  owner_id = "alice";
  data_steward_id = "alice";
  technical_owner_id = "alice";
  classification = "internal";
  lifecycle_state = LifecycleState.active;
  parent_id = none;
  attributes = some tenant_record;
  last_seen_at = none;
}

abbrev pub edge : String → String → String → String → RelationshipTuple
edge id subject_id relation object_id = record {
  id = id;
  version = "v1";
  created_at = "1";
  updated_at = none;
  subject_id = subject_id;
  relation = relation;
  object_id = object_id;
  source_system = "dms";
  asserted_at = "1";
  asserted_by = none;
  expires_at = none;
  status = TupleStatus.active;
  attributes = none;
}

-- Alice is in a team that may read the plan and the report, and is herself denied the report.
abbrev pub graph : Graph
graph =
    upsert_relationship
      (upsert_relationship
        (upsert_relationship
          (upsert_relationship
            (upsert_resource
              (upsert_resource
                (upsert_resource
                  (upsert_subject (upsert_subject empty_graph (subject "alice")) (subject "team"))
                  (resource "plan"))
                (resource "report"))
              (resource "budget"))
            (edge "e1" "alice" "member" "team"))
          (edge "e2" "team" "reader" "plan"))
        (edge "e3" "team" "reader" "report"))
      (edge "e4" "alice" "blocked" "report")

abbrev relation : String → RelationKind → Relation
relation name kind = record {
  name = name;
  kind = kind;
  subject_types = "user" ∷ [];
  object_types = "document" ∷ [];
}

abbrev pub policy : PolicyModel
policy = record {
  schema_version = "access-kit.policy-model.v1";
  id = "p";
  version = "p1";
  resource_types =
      record { type = "document"; allowed_parent_types = none; classifications = "internal" ∷ [] }
      ∷ [];
  relations =
      relation "member" RelationKind.membership
      ∷ relation "reader" RelationKind.grant
      ∷ relation "blocked" RelationKind.deny
      ∷ [];
  actions = record { name = "read"; grants = "reader" ∷ [] } ∷ [];
  inheritance_rules =
      record { name = "teams"; relation = "reader"; through = "member"; actions = "read" ∷ [] }
      ∷ [];
  deny_rules = record { name = "blocked"; relation = "blocked"; actions = none } ∷ [];
  context_constraints = [];
  classification_constraints =
      record { classification = "internal"; allowed_actions = "read" ∷ [] } ∷ [];
  tenant_boundary = record {
    key = "tenant";
    source = TenantBoundarySource.subject;
    cross_tenant_traversal = false;
  };
  migrations = [];
  caveats = none;
  conditional_relationships = none;
  explanation = none;
  metadata = none;
}

abbrev pub config : EngineConfig
config = record {
  dates = dates;
  lower = λ s. s;
  policy_model = policy;
  traversal_bounds = default_traversal_bounds;
  enforce_tuple_version = false;
}

abbrev pub request : String → DecisionRequest
request resource_id = record {
  subject_id = "alice";
  action = "read";
  resource_id = resource_id;
  context = none;
  policy_version = none;
  model_version = none;
  relationship_version = none;
  tuple_version = none;
  context_version = none;
  as_of = none;
}

abbrev pub pins : VersionPins
pins = record {
  policy_version = "p1";
  model_version = "m1";
  relationship_version = "r1";
  tuple_version = "tuple:v1";
  context_version = "context:none";
  as_of = "2";
}

abbrev pub answer : String → DecisionContext
answer resource_id = (build_decision_context config graph (request resource_id) "2" pins []).0

abbrev pub DecidedSo : String → ReasonCode → DecisionValue → Type 0
DecidedSo resource_id reason value =
    ((answer resource_id).decision ≡ value)
    × ((answer resource_id).reason_code ≡ reason)
    × ((answer resource_id).traversal.bounds_exceeded ≡ none)
    × ((answer resource_id).resource_classification ≡ some "internal")

pub answers :
    DecidedSo "plan" allow_via_relationship_path DecisionValue.allow
    × DecidedSo "report" deny_explicit_override DecisionValue.deny
    × DecidedSo "budget" deny_default_no_relationship_path DecisionValue.deny
unfolding JsMap.get JsMap.has JsMap.set JsMap.remove JsMap.size JsMap.values JsSet.has JsSet.add
    JsSet.size Graph.empty_graph Graph.graph_size Graph.get_subject Graph.list_subjects
    Graph.upsert_subject Graph.get_resource Graph.list_resources Graph.upsert_resource
    Graph.get_relationship Graph.list_relationships_for_subject Graph.list_relationships
    Graph.add_relationship_to_subject_index Graph.splice_id
    Graph.remove_relationship_from_subject_index Graph.upsert_relationship Graph.delete_relationship
    Visibility.string_attribute Visibility.tenant_id_for Visibility.tenant_boundary_denies
    Visibility.is_visible_at Visibility.is_active_relationship_at
    Visibility.effective_lifecycle_state_at Visibility.visible_subject_at
    Visibility.visible_resource_at Visibility.visible_node_at Visibility.is_active_graph_node_at
    Visibility.relationship_matches_tenant_boundary Cache.active_relationship_scope Cache.write_back
    Cache.active_relationships Cache.active_relationships_for_subject Cache.search_in_scope
    Search.enqueue Search.judge Search.offer Search.scan Search.search Search.start Search.path_of
    Search.guard_of Paths.to_path_step Paths.can_traverse_relationship
    Paths.can_traverse_deny_relationship Paths.allow_verdict Paths.deny_verdict Paths.traversal_path
    Paths.find_path Paths.find_allow_path Paths.find_deny_path Values.subject_record
    Values.resource_record Values.relationship_record Values.value_at Values.strictly_equal
    Values.some_item Caveats.compare_condition Caveats.value_matches_context_type
    Caveats.resolve_condition_value Caveats.evaluate_caveat_condition Caveats.caveats_by_name
    Caveats.evaluate_caveats Caveats.applicable_conditionals Caveats.evaluate_step
    Caveats.evaluate_steps Caveats.evaluate_conditional_relationship_caveats Engine.admit_resource
    Engine.admit_subject Engine.admit_request Engine.denied Engine.decide_caveats
    Engine.decide_allow Engine.conclude Engine.deny_search Engine.allow_search Engine.decide_paths
    Engine.build_decision_context Guard.require_within_bound Guard.record_relationship_scan
    Guard.record_visited_node Guard.record_depth Guard.new_guard Guard.report Compile.sort_relations
    Compile.add_at Compile.add_at_each Compile.add_grants Compile.compile_actions
    Compile.compile_inheritance Compile.compile_deny_rules Compile.union Compile.with_unscoped
    Compile.compile_policy_model Compile.grant_relations_for Compile.traversal_relations_for
    Compile.deny_relations_for Json.has_own Json.value_of Json.put
answers = ((refl, refl, refl, refl), (refl, refl, refl, refl), (refl, refl, refl, refl))

room : 0 < config.traversal_bounds.max_visited_nodes
room = ground arith

build_decision_context-IsSafeAllow_example :
    IsSafeAllow config graph (request "plan") "2" pins (answer "plan")
build_decision_context-IsSafeAllow_example =
    build_decision_context-IsSafeAllow config graph (request "plan") "2" pins [] tt room answers.0.0

plan_grant : IsSafeAllow config graph (request "plan") "2" pins (answer "plan")
plan_grant =
    build_decision_context-IsSafeAllow config graph (request "plan") "2" pins [] tt room answers.0.0

plan_admission :
    admit_request config graph (request "plan") "2" pins
    ≡ admitted plan_grant.subject plan_grant.resource
plan_admission =
    IsAdmissible-admit_request config graph (request "plan") "2" pins plan_grant.subject
      plan_grant.resource plan_grant.admissible

admit_request-IsAdmissible_example :
    IsAdmissible config graph (request "plan") "2" pins plan_grant.subject plan_grant.resource
admit_request-IsAdmissible_example =
    admit_request-IsAdmissible config graph (request "plan") "2" pins plan_grant.subject
      plan_grant.resource plan_admission

IsAdmissible-admit_request_example :
    admit_request config graph (request "plan") "2" pins
    ≡ admitted plan_grant.subject plan_grant.resource
IsAdmissible-admit_request_example =
    IsAdmissible-admit_request config graph (request "plan") "2" pins plan_grant.subject
      plan_grant.resource plan_grant.admissible

-- The scopes after a first decision.
abbrev pub warm : List Scope
warm = (build_decision_context config graph (request "plan") "2" pins []).1

pins-IsPlain : IsPlain pins.as_of
unfolding IsPlain
pins-IsPlain = (λ e. absurd (cc), tt)

version-IsPlain : IsPlain (pinned_tuple_version config graph (request "plan") "2" pins otherwise "")
unfolding IsPlain
version-IsPlain = tt

build_decision_context-IsCurrent_example : All (IsCurrent dates graph) warm
build_decision_context-IsCurrent_example =
    build_decision_context-IsCurrent config graph (request "plan") "2" pins [] tt pins-IsPlain
      version-IsPlain

pub warm-IsCurrent : All (IsCurrent dates graph) warm
warm-IsCurrent =
    build_decision_context-IsCurrent config graph (request "plan") "2" pins [] tt pins-IsPlain
      version-IsPlain

has-grant_relations_for_example :
    JsSet.has (grant_relations_for (compile_policy_model config.lower policy) "read") "reader" ≡ (
      declares policy RelationKind.grant "reader"
      && some_by (maps_to config.lower "read" "reader") policy.actions)
has-grant_relations_for_example = has-grant_relations_for config.lower policy "read" "reader"

has-traversal_relations_for_example :
    JsSet.has (traversal_relations_for (compile_policy_model config.lower policy) "read") "member"
    ≡ ((declares policy RelationKind.membership "member"
          || declares policy RelationKind.containment "member")
        && some_by (inherits_through config.lower "read" "member") policy.inheritance_rules)
has-traversal_relations_for_example =
    has-traversal_relations_for config.lower policy "read" "member"

has-deny_relations_for_example :
    JsSet.has (deny_relations_for (compile_policy_model config.lower policy) "read") "blocked" ≡ (
      declares policy RelationKind.deny "blocked"
      && some_by (denies config.lower "read" "blocked") policy.deny_rules)
has-deny_relations_for_example = has-deny_relations_for config.lower policy "read" "blocked"

run : Run config graph warm
run = decision_step (request "plan") "2" pins pins-IsPlain version-IsPlain (
    relationship_step (edge "e4" "alice" "blocked" "report") (
      relationship_step (edge "e3" "team" "reader" "report") (
        relationship_step (edge "e2" "team" "reader" "plan") (
          relationship_step (edge "e1" "alice" "member" "team") (
            resource_step (resource "budget") (
              resource_step (resource "report") (
                resource_step (resource "plan")
                  (subject_step (subject "team") (subject_step (subject "alice") begin)))))))))

Run-cache_example :
    (build_decision_context config graph (request "report") "2" pins warm).0
    ≡ (build_decision_context config graph (request "report") "2" pins []).0
Run-cache_example = Run-cache config graph warm (request "report") "2" pins run

-- The search for a grant of the plan to Alice.
abbrev reads_plan : Bool → RelationshipTuple → Verdict
reads_plan = allow_verdict dates graph (compile_policy_model config.lower policy) "2" "plan" "read"

reads_plan-IsMonotone : IsMonotone reads_plan
reads_plan-IsMonotone =
    allow_verdict-IsMonotone dates graph (compile_policy_model config.lower policy) "2" "plan"
      "read"

abbrev new_one : Guard
new_one = new_guard default_traversal_bounds (graph_size graph) "alice"

search-Ends_example :
    Ends default_traversal_bounds
      (Arrived (λ r. true) reads_plan (active_relationships dates graph "2" none) "alice")
      (NoArrival
        (λ r. true)
        reads_plan
        (active_relationships dates graph "2" none)
        "alice"
        reads_plan-IsMonotone)
      (search
        (λ r. true)
        reads_plan
        (active_relationships dates graph "2" none)
        10001
        (start "alice" new_one))
search-Ends_example =
    search-Ends (λ r. true) reads_plan (active_relationships dates graph "2" none) "alice"
      reads_plan-IsMonotone default_traversal_bounds new_one
      (new_guard-IsReady default_traversal_bounds (graph_size graph) "alice" room)
