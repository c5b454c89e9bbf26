-- ===== src/Decision/Results.antt =====
-- toDecisionResult of packages/core/src/engine.ts and createDecisionRuntimePerformanceReport of
-- packages/core/src/decision-runtime.ts, with the JSON of what they hold. Of the constraints those
-- that are the same for every decision are left out: `deterministic`, `denyByDefault` and
-- `llmDecisioning`. `caveats` are the results under `policyCaveats`. How JavaScript takes two
-- numbers from each other and rounds one to three digits are arguments. A time to live that is not
-- a number stands in a result only where the present moment is no date, and its JSON has no key then.
use Prim.Native.String.{slice, ◌++◌}
use access_kit.Prelude.{
  ℕ, String, Bool, true, false, not, ◌&&◌, Option, none, some, List, [], ◌∷◌, if◌then◌else◌, leb,
}
use access_kit.Domain.{
  CanonicalId, IsoDateTime, DecisionRequest, DecisionValue, RelationshipPathStep,
}
use access_kit.Domain.Json.{JsonRecord, Json, bool, num, text, arr, obj, JsNumber, number_le}
use access_kit.Domain.Encoding.{whole_number, number, optional, array, fields}
use access_kit.Domain.Dates.{Dates}
use access_kit.Audit.Text.{Printer}
use access_kit.Audit.{sha256}
use access_kit.Decision.Runtime.Guard.{
  TraversalBound, depth_bound, scans_bound, visited_bound, TraversalReport,
}
use access_kit.Decision.Runtime.Pins.{VersionPins}
use access_kit.Decision.Runtime.CacheMetadata.{LatencyTargets, CacheMetadata, create_cache_metadata}
use access_kit.Decision.Caveats.{CaveatExplanation}
use access_kit.Decision.Engine
use access_kit.Decision.Engine.{ReasonCode, DecisionContext}

pub record Numbers : Type 0 where
  pub minus : JsNumber → JsNumber → JsNumber
  pub to_fixed_3 : JsNumber → JsNumber

-- What JavaScript and node:crypto give.
pub record Platform : Type 0 where
  pub printer : Printer
  pub digest : String → String
  pub lower : String → String
  pub trim : String → String
  pub dates : Dates
  pub numbers : Numbers

pub record PerformanceReport : Type 0 where
  pub elapsed_ms : JsNumber
  pub target_ms : ℕ
  pub regression_gate_ms : ℕ
  pub within_target : Bool
  pub within_regression_gate : Bool

unfoldable pub create_performance_report : Numbers → JsNumber → LatencyTargets → PerformanceReport
create_performance_report numbers elapsed targets =
    let rounded = numbers.to_fixed_3 elapsed in
    record {
      elapsed_ms = rounded;
      target_ms = targets.target_ms;
      regression_gate_ms = targets.regression_gate_ms;
      within_target = number_le rounded (whole_number targets.target_ms);
      within_regression_gate = number_le rounded (whole_number targets.regression_gate_ms);
    }

pub record Constraints : Type 0 where
  pub explain : Bool
  pub as_of : IsoDateTime
  pub evaluated_at : IsoDateTime
  pub historical : Bool
  pub traversal : TraversalReport
  pub performance : PerformanceReport
  pub cache : CacheMetadata
  pub caveats : List CaveatExplanation

pub record DecisionResult : Type 0 where
  pub decision_id : CanonicalId
  pub decision : DecisionValue
  pub subject_id : CanonicalId
  pub action : String
  pub resource_id : CanonicalId
  pub reason_code : ReasonCode
  pub policy_version : String
  pub model_version : String
  pub relationship_version : String
  pub tuple_version : String
  pub context_version : String
  pub as_of : IsoDateTime
  pub relationship_path : List RelationshipPathStep
  pub constraints : Constraints
  pub evaluated_at : IsoDateTime

abbrev pub decision_text : DecisionValue → String
decision_text DecisionValue.allow = "allow"
decision_text DecisionValue.deny = "deny"

unfoldable pub reason_text : ReasonCode → String
reason_text Engine.allow_via_relationship_path = "ALLOW_VIA_RELATIONSHIP_PATH"
reason_text Engine.deny_invalid_as_of = "DENY_INVALID_AS_OF"
reason_text Engine.deny_as_of_in_future = "DENY_AS_OF_IN_FUTURE"
reason_text Engine.deny_subject_not_found = "DENY_SUBJECT_NOT_FOUND"
reason_text Engine.deny_subject_lifecycle_unknown_as_of = "DENY_SUBJECT_LIFECYCLE_UNKNOWN_AS_OF"
reason_text Engine.deny_subject_not_active = "DENY_SUBJECT_NOT_ACTIVE"
reason_text Engine.deny_resource_not_found = "DENY_RESOURCE_NOT_FOUND"
reason_text Engine.deny_resource_lifecycle_unknown_as_of = "DENY_RESOURCE_LIFECYCLE_UNKNOWN_AS_OF"
reason_text Engine.deny_resource_not_active = "DENY_RESOURCE_NOT_ACTIVE"
reason_text Engine.deny_tenant_boundary = "DENY_TENANT_BOUNDARY"
reason_text Engine.deny_explicit_override = "DENY_EXPLICIT_OVERRIDE"
reason_text Engine.deny_traversal_bound_exceeded = "DENY_TRAVERSAL_BOUND_EXCEEDED"
reason_text Engine.deny_default_no_relationship_path = "DENY_DEFAULT_NO_RELATIONSHIP_PATH"
reason_text (Engine.caveat_reason reason) = reason

unfoldable pub request_json : DecisionRequest → Json
request_json r = obj (
    fields (
      ("subjectId", text r.subject_id)
      ∷ ("action", text r.action)
      ∷ ("resourceId", text r.resource_id)
      ∷ ("context", optional obj r.context)
      ∷ ("policyVersion", optional text r.policy_version)
      ∷ ("modelVersion", optional text r.model_version)
      ∷ ("relationshipVersion", optional text r.relationship_version)
      ∷ ("tupleVersion", optional text r.tuple_version)
      ∷ ("contextVersion", optional text r.context_version)
      ∷ ("asOf", optional text r.as_of)
      ∷ []))

unfoldable pub pins_json : VersionPins → Json
pins_json v = obj (
    fields (
      ("policyVersion", text v.policy_version)
      ∷ ("modelVersion", text v.model_version)
      ∷ ("relationshipVersion", text v.relationship_version)
      ∷ ("tupleVersion", text v.tuple_version)
      ∷ ("contextVersion", text v.context_version)
      ∷ ("asOf", text v.as_of)
      ∷ []))

abbrev pub step_json : RelationshipPathStep → Json
step_json s = obj (
    fields (
      ("subjectId", text s.subject_id)
      ∷ ("relation", text s.relation)
      ∷ ("objectId", text s.object_id)
      ∷ []))

abbrev bound_text : TraversalBound → String
bound_text depth_bound = "maxDepth"
bound_text scans_bound = "maxRelationshipScans"
bound_text visited_bound = "maxVisitedNodes"

unfoldable pub traversal_json : TraversalReport → Json
traversal_json t = obj (
    fields (
      (
        "bounds",
        obj (
            fields (
              ("maxDepth", number t.bounds.max_depth)
              ∷ ("maxRelationshipScans", number t.bounds.max_relationship_scans)
              ∷ ("maxVisitedNodes", number t.bounds.max_visited_nodes)
              ∷ [])),
      )
      ∷ (
        "graphSize",
        obj (
            fields (
              ("subjects", number t.graph_size.subjects)
              ∷ ("resources", number t.graph_size.resources)
              ∷ ("relationships", number t.graph_size.relationships)
              ∷ [])),
      )
      ∷ ("relationshipScans", number t.relationship_scans)
      ∷ ("visitedNodes", number t.visited_nodes)
      ∷ ("maxDepthReached", number t.max_depth_reached)
      ∷ ("boundsExceeded", optional (λ b. text (bound_text b)) t.bounds_exceeded)
      ∷ []))

unfoldable pub performance_json : PerformanceReport → Json
performance_json p = obj (
    fields (
      ("elapsedMs", num p.elapsed_ms)
      ∷ ("targetMs", number p.target_ms)
      ∷ ("regressionGateMs", number p.regression_gate_ms)
      ∷ ("withinTarget", bool p.within_target)
      ∷ ("withinRegressionGate", bool p.within_regression_gate)
      ∷ []))

abbrev required_fields : List String
required_fields =
    "key" ∷ "tenantId" ∷ "resourceClassification" ∷ "maxTtlSeconds" ∷ "expiresAt"
    ∷ "invalidationSignals" ∷ "failClosed" ∷ "localFallbackAllowed" ∷ "staleDecisionBehavior" ∷ []

unfoldable pub cache_json : CacheMetadata → Json
cache_json m = obj (
    fields (
      ("key", text m.key)
      ∷ ("tenantId", text m.tenant_id)
      ∷ ("resourceClassification", text m.resource_classification)
      ∷ ("maxTtlSeconds", optional number m.max_ttl_seconds)
      ∷ ("expiresAt", text m.expires_at)
      ∷ ("invalidationSignals", arr (array text m.invalidation_signals))
      ∷ ("failClosed", bool true)
      ∷ ("localFallbackAllowed", bool false)
      ∷ ("staleDecisionBehavior", text "deny")
      ∷ (
        "audit",
        obj (
            fields (
              ("eventType", text "decision.cache_policy_evaluated")
              ∷ ("requiredFields", arr (array text required_fields))
              ∷ [])),
      )
      ∷ []))

-- `a !== b` on numbers that may be NaN.
abbrev instants_differ : Option ℕ → Option ℕ → Bool
instants_differ none b = true
instants_differ (some a) none = true
instants_differ (some a) (some b) = not (leb a b && leb b a)

module _ (platform : Platform) where
  abbrev hashed : DecisionContext → Bool → JsonRecord
  hashed context explain = fields (
      ("request", request_json context.request)
      ∷ ("asOf", text context.version_pins.as_of)
      ∷ ("versionPins", pins_json context.version_pins)
      ∷ ("decision", text (decision_text context.decision))
      ∷ ("reasonCode", text (reason_text context.reason_code))
      ∷ ("explain", bool explain)
      ∷ [])

  unfoldable pub decision_id : DecisionContext → Bool → CanonicalId
  decision_id context explain =
      "decision:" ++ slice (sha256 platform.printer platform.digest (hashed context explain)) 0 24

  abbrev pub cache_of : DecisionContext → Option CacheMetadata
  cache_of context =
      create_cache_metadata platform.dates platform.lower platform.trim
        (sha256 platform.printer platform.digest) context.request context.version_pins
        context.evaluated_at context.tenant_id context.resource_classification

  abbrev pub result_with :
      DecisionContext → Bool → PerformanceReport → CacheMetadata → DecisionResult
  result_with context explain performance cache = record {
    decision_id = decision_id context explain;
    decision = context.decision;
    subject_id = context.request.subject_id;
    action = context.request.action;
    resource_id = context.request.resource_id;
    reason_code = context.reason_code;
    policy_version = context.version_pins.policy_version;
    model_version = context.version_pins.model_version;
    relationship_version = context.version_pins.relationship_version;
    tuple_version = context.version_pins.tuple_version;
    context_version = context.version_pins.context_version;
    as_of = context.version_pins.as_of;
    relationship_path = if explain then context.relationship_path else [];
    constraints = record {
      explain = explain;
      as_of = context.version_pins.as_of;
      evaluated_at = context.evaluated_at;
      historical =
          instants_differ (platform.dates.parse context.version_pins.as_of)
            (platform.dates.parse context.evaluated_at);
      traversal = context.traversal;
      performance = performance;
      cache = cache;
      caveats = context.constraints;
    };
    evaluated_at = context.evaluated_at;
  }

  -- `none` where it throws.
  unfoldable pub to_decision_result :
      DecisionContext → Bool → PerformanceReport → Option DecisionResult
  unfolding decision_id
  to_decision_result context explain performance = elim (cache_of context) [
    | none ↦ none
    | some cache ↦ some (result_with context explain performance cache)
  ]
