-- ===== src/Decision/Evaluate.antt =====
-- The constructor, check, explain and #evaluate of RebacDecisionEngine in packages/core/src/engine.ts,
-- over the decisions and audit events of InMemoryRebacStore. A call is given the store's graph at that
-- time and what the clocks and resolveAuditActor answer. onAuditEvent is left out: it gets the event
-- last, and an exception of it is dropped. The default policy model is data, and an argument here.
pub mod Audited
pub mod Answers
pub mod Made
use access_kit.Prelude.{
  String, Bool, true, false, Option, none, some, List, [], ◌∷◌, ◌++◌, if◌then◌else◌, ◌otherwise◌,
  or_else, truthy,
}
use access_kit.JsMap
use access_kit.JsMap.{JsMap}
use access_kit.Domain.{CanonicalId, IsoDateTime, DecisionRequest, DecisionValue}
use access_kit.Domain.Json.{JsonRecord, bool, text, arr, obj, JsNumber, plus, number_le}
use access_kit.Domain.Encoding.{array, fields}
use access_kit.Domain.Dates.{Dates}
use access_kit.Store.Graph.{Graph}
use access_kit.Policy.Model.{PolicyModel}
use access_kit.Audit.Text.{Printer, prefixed}
use access_kit.Audit.{AuditEvent, AuditEventInput, sha256, record_event}
use access_kit.Decision.Runtime.Guard.{TraversalReport, default_traversal_bounds}
use access_kit.Decision.Runtime.Pins.{VersionDefaults, VersionPins, normalize_version_pins}
use access_kit.Decision.Runtime.CacheMetadata.{
  PartialBounds, merge_traversal_bounds, latency_targets_for_graph_size,
}
use access_kit.Decision.Cache.{Scope}
use access_kit.Decision.Engine.{EngineConfig, DecisionContext, build_decision_context}
use access_kit.Decision.Results.{
  Platform, Numbers, PerformanceReport, create_performance_report, DecisionResult,
  to_decision_result, decision_text, reason_text, step_json, traversal_json, performance_json,
  cache_json,
}

pub record EngineOptions : Type 0 where
  pub policy_version : Option String
  pub model_version : Option String
  pub relationship_version : Option String
  pub tuple_version : Option String
  pub context_version : Option String
  pub traversal_bounds : Option PartialBounds
  pub actor : Option String
  pub policy_model : Option PolicyModel

pub record NormalizedOptions : Type 0 where
  pub engine : EngineConfig
  pub versions : VersionDefaults
  pub actor : String

-- The options that the constructor makes.
unfoldable pub normalize_options : Platform → PolicyModel → EngineOptions → NormalizedOptions
normalize_options platform default_model options = record {
  engine = record {
    dates = platform.dates;
    lower = platform.lower;
    policy_model = options.policy_model otherwise default_model;
    traversal_bounds = merge_traversal_bounds default_traversal_bounds options.traversal_bounds;
    enforce_tuple_version = truthy options.tuple_version;
  };
  versions = record {
    policy_version = options.policy_version otherwise "policy:local-v1";
    model_version = options.model_version otherwise "model:local-v1";
    relationship_version = options.relationship_version otherwise "tuple-set:local-v1";
    tuple_version = options.tuple_version otherwise "tuple:v1";
    context_version = options.context_version;
  };
  actor = options.actor otherwise "service:decision-engine";
}

-- The engine's scopes and the events of its recorder; the store's decisions and audit events.
pub record EngineState : Type 0 where
  pub scopes : List Scope
  pub recorded_events : List AuditEvent
  pub decisions : JsMap DecisionResult
  pub audit_events : List AuditEvent

-- The state that the constructor makes: the recorder is the one of the options, or a new one that
-- starts with the store's events. Here nobody else records with it while the engine does.
unfoldable pub new_engine :
    Option (List AuditEvent) → JsMap DecisionResult → List AuditEvent → EngineState
new_engine recorder decisions audit_events = record {
  scopes = [];
  recorded_events = recorder otherwise audit_events;
  decisions = decisions;
  audit_events = audit_events;
}

-- recordDecision and recordAuditEvent of the store.
unfoldable pub record_decision : EngineState → DecisionResult → EngineState
record_decision s result = record s { decisions = JsMap.set s.decisions result.decision_id result }

unfoldable pub record_audit_event : EngineState → AuditEvent → EngineState
record_audit_event s event = record s { audit_events = s.audit_events ++ event ∷ [] }

-- What the clocks and resolveAuditActor answer during a call.
pub record Readings : Type 0 where
  pub started_at : JsNumber
  pub evaluated_at : IsoDateTime
  pub finished_at : JsNumber
  pub audit_actor : Option String

abbrev at_least_zero : JsNumber → JsNumber
at_least_zero n = if number_le (plus 0) n then n else plus 0

abbrev pub event_type_of : DecisionValue → String
event_type_of DecisionValue.allow = "decision.allowed"
event_type_of DecisionValue.deny = "decision.denied"

abbrev pub correlation_id_of : DecisionResult → String
correlation_id_of result = prefixed "corr:" result.decision_id

unfoldable pub decision_payload :
    DecisionResult → Bool → TraversalReport → PerformanceReport → JsonRecord
decision_payload result explain traversal performance = fields (
    ("decisionId", text result.decision_id)
    ∷ ("decision", text (decision_text result.decision))
    ∷ ("reasonCode", text (reason_text result.reason_code))
    ∷ ("explain", bool explain)
    ∷ ("relationshipPath", arr (array step_json result.relationship_path))
    ∷ ("modelVersion", text result.model_version)
    ∷ ("tupleVersion", text result.tuple_version)
    ∷ ("contextVersion", text result.context_version)
    ∷ ("asOf", text result.as_of)
    ∷ ("cache", cache_json result.constraints.cache)
    ∷ ("traversal", traversal_json traversal)
    ∷ ("performance", performance_json performance)
    ∷ [])

module _ (platform : Platform) (c : NormalizedOptions) where
  abbrev pub pins_of : DecisionRequest → IsoDateTime → VersionPins
  pins_of request evaluated_at =
      normalize_version_pins (sha256 platform.printer platform.digest) request c.versions
        evaluated_at

  abbrev pub decided_at :
      Graph → DecisionRequest → Readings → List Scope → DecisionContext × List Scope
  decided_at graph request readings =
      build_decision_context c.engine graph request readings.evaluated_at
        (pins_of request readings.evaluated_at)

  abbrev pub elapsed_report : Readings → DecisionContext → PerformanceReport
  elapsed_report readings context =
      create_performance_report platform.numbers
        (at_least_zero (platform.numbers.minus readings.finished_at readings.started_at))
        (latency_targets_for_graph_size context.traversal.graph_size)

  abbrev pub decision_event : Readings → Bool → DecisionContext → DecisionResult → AuditEventInput
  decision_event readings explain context result = record {
    event_type = event_type_of result.decision;
    actor = readings.audit_actor otherwise c.actor;
    subject_id = some result.subject_id;
    resource_id = some result.resource_id;
    correlation_id = correlation_id_of result;
    policy_version = some result.policy_version;
    relationship_version = some result.relationship_version;
    payload = decision_payload result explain context.traversal (elapsed_report readings context);
  }

  -- #evaluate from recordDecision on.
  unfoldable pub record_result :
      Readings → Bool → DecisionContext → DecisionResult → EngineState → EngineState
  unfolding record_decision record_audit_event
  record_result readings explain context result s =
      let (event, recorded) =
        record_event platform.printer platform.digest s.recorded_events
          (decision_event readings explain context result) readings.evaluated_at in
      record_audit_event (record (record_decision s result) { recorded_events = recorded }) event

  -- The result, `none` where it throws, and the state after it.
  unfoldable pub evaluate :
      Bool → Graph → DecisionRequest → Readings → EngineState → Option DecisionResult × EngineState
  unfolding record_result to_decision_result
  evaluate explain graph request readings s =
      let (context, scopes) = decided_at graph request readings s.scopes in
      let after = record s { scopes = scopes } in
      elim (to_decision_result platform context explain (elapsed_report readings context)) [
        | none ↦ (none, after)
        | some result ↦ (some result, record_result readings explain context result after)
      ]

  unfoldable pub check :
      Graph → DecisionRequest → Readings → EngineState → Option DecisionResult × EngineState
  unfolding evaluate
  check = evaluate false

  unfoldable pub explain :
      Graph → DecisionRequest → Readings → EngineState → Option DecisionResult × EngineState
  unfolding evaluate
  explain = evaluate true
