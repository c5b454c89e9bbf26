-- ===== src/Decision/EvaluateExamples.antt =====
-- Calls of check and explain over the graph of the other examples.
use access_kit.Prelude.{
  true, false, none, some, List, [], ◌∷◌, ◌++◌, ◌≡◌, refl, ◌∙◌, arith, if◌then◌else◌, All,
}
use access_kit.Domain.{DecisionValue}
use access_kit.Domain.Json.{plus}
use access_kit.JsMap
use access_kit.Audit.{AuditEvent, AuditStatus, map_option, verify_audit_chain, chain_findings}
use access_kit.Decision.Runtime.CacheMetadata.{
  positive_integer_or_default, merge_traversal_bounds, cache_ttl, normalize_classification,
}
use access_kit.Decision.Runtime.Pins.{normalize_version_pins, derive_context_version}
use access_kit.Decision.Engine.Scopes.{IsCurrent}
use access_kit.Decision.Engine.Safety.{IsSafeAllow}
use access_kit.Decision.Results.{Platform, DecisionResult}
use access_kit.Decision.Evaluate.{
  EngineOptions, NormalizedOptions, normalize_options, new_engine, EngineState, Readings, pins_of,
  evaluate, check, explain,
}
use access_kit.Decision.Evaluate.Audited.{Call, TellsAll, serve, serve-IsAudited}
use access_kit.Decision.Evaluate.Answers.{
  concealed, unexplained_id, decided, check-explain, evaluate-IsSafeAllow,
}
use access_kit.Decision.Evaluate.Made.{classification, evaluate-answers}
use access_kit.Decision.Examples.{dates, policy, graph, request, warm, warm-IsCurrent, answers}

abbrev platform : Platform
platform = record {
  printer = record { text_of = λ s. s; number_of = λ n. "0"; comes_before = λ s t. false };
  digest = λ s. s;
  lower = λ s. s;
  trim = λ s. s;
  dates = dates;
  numbers = record { minus = λ a b. a; to_fixed_3 = λ a. a };
}

abbrev options : EngineOptions
options = record {
  policy_version = some "p1";
  model_version = some "m1";
  relationship_version = some "r1";
  tuple_version = none;
  context_version = none;
  traversal_bounds = none;
  actor = none;
  policy_model = none;
}

abbrev engine : NormalizedOptions
engine = normalize_options platform policy options

abbrev readings : Readings
readings = record {
  started_at = plus 0;
  evaluated_at = "2";
  finished_at = plus 3;
  audit_actor = none;
}

abbrev state : EngineState
state = record { scopes = []; recorded_events = []; decisions = []; audit_events = [] }

abbrev warm_state : EngineState
warm_state = record state { scopes = warm }

abbrev calls : List Call
calls =
    record { explain = true; graph = graph; request = request "plan"; readings = readings }
    ∷ record { explain = false; graph = graph; request = request "report"; readings = readings }
    ∷ []

-- An engine that is new over an empty log.
abbrev fresh : EngineState
fresh = new_engine none [] []

fresh_events : fresh.recorded_events ≡ fresh.audit_events
unfolding new_engine
fresh_events = refl

fresh_verified :
    (verify_audit_chain platform.printer platform.digest fresh.audit_events "3").status
    ≡ AuditStatus.verified
unfolding new_engine verify_audit_chain chain_findings
fresh_verified = refl

serve-IsAudited_example :
    (added : List AuditEvent) × ((serve platform engine calls fresh).1.audit_events
      ≡ fresh.audit_events ++ added)
    × TellsAll (serve platform engine calls fresh).0 added
    × ((verify_audit_chain platform.printer platform.digest
          (serve platform engine calls fresh).1.audit_events
          "3").status
        ≡ AuditStatus.verified)
serve-IsAudited_example =
    serve-IsAudited platform engine calls fresh "3" fresh_events fresh_verified

engine_warm-IsCurrent : All (IsCurrent engine.engine.dates graph) warm
unfolding normalize_options
engine_warm-IsCurrent = warm-IsCurrent

check-explain_example :
    (check platform engine graph (request "plan") readings state).0
    ≡ map_option
        (concealed
          (unexplained_id platform (decided platform engine graph (request "plan") readings [])))
        (explain platform engine graph (request "plan") readings warm_state).0
check-explain_example =
    check-explain platform engine graph (request "plan") readings state warm_state tt
      engine_warm-IsCurrent

plan_allowed :
    (decided platform engine graph (request "plan") readings []).decision ≡ DecisionValue.allow
unfolding normalize_options merge_traversal_bounds positive_integer_or_default
    normalize_version_pins derive_context_version
plan_allowed = answers.0.0

plan_classification :
    (decided platform engine graph (request "plan") readings []).resource_classification
    ≡ some "internal"
unfolding normalize_options merge_traversal_bounds positive_integer_or_default
    normalize_version_pins derive_context_version
plan_classification = answers.0.3

plan_ttl : cache_ttl (classification platform engine graph (request "plan") readings []) ≡ some 120
unfolding cache_ttl normalize_classification
plan_ttl = rw plan_classification refl

abbrev PlanAnswered : Type 0
PlanAnswered =
    (result : DecisionResult) × ((evaluate platform engine true graph (request "plan") readings
        state).0
      ≡ some result)
    × (result.decision ≡ (decided platform engine graph (request "plan") readings []).decision)
    × (JsMap.get (evaluate platform engine true graph (request "plan") readings state).1.decisions
          result.decision_id
        ≡ some result)

evaluate-answers_example : PlanAnswered
evaluate-answers_example =
    evaluate-answers platform engine graph (request "plan") readings true state 2 120 refl plan_ttl
      (ground arith)

plan_answered : PlanAnswered
plan_answered =
    evaluate-answers platform engine graph (request "plan") readings true state 2 120 refl plan_ttl
      (ground arith)

evaluate-IsSafeAllow_example :
    IsSafeAllow engine.engine graph
      (request "plan")
      "2"
      (pins_of platform engine (request "plan") "2")
      (decided platform engine graph (request "plan") readings [])
    × (plan_answered.0.relationship_path ≡ (
        if true
        then (decided platform engine graph (request "plan") readings []).relationship_path
        else []))
evaluate-IsSafeAllow_example =
    evaluate-IsSafeAllow platform policy options graph (request "plan") readings true state
      plan_answered.0 tt plan_answered.1 (plan_answered.2 ∙ plan_allowed)
