-- ===== src/Decision/Evaluate/Made.antt =====
-- When check and explain of packages/core/src/engine.ts give a result at all.
use access_kit.Prelude.{
  eq_refl, String, ℕ, ◌+◌, ◌≤◌, Bool, some, List, ◌≡◌, refl, ap, ◌∙◌, inl, inr, arith,
}
use access_kit.Domain.{DecisionRequest, IsoDateTime, Subject, Resource}
use access_kit.Store.Graph.{Graph}
use access_kit.Decision.Runtime.Pins.{VersionPins}
use access_kit.Decision.Cache.{Scope}
use access_kit.Decision.Paths.{PathResult}
use access_kit.JsMap
use access_kit.Audit.{sha256}
use access_kit.Decision.Runtime.Guard.{Guard}
use access_kit.Decision.Runtime.CacheMetadata.{
  CacheMetadata, cache_ttl, normalize_classification, last_instant,
}
use access_kit.Decision.Runtime.Limits.{create_cache_metadata-made}
use access_kit.Decision.Results.{
  Platform, DecisionResult, result_with, cache_of, to_decision_result,
}
use access_kit.Decision.Evaluate.{
  NormalizedOptions, EngineState, Readings, pins_of, decided_at, elapsed_report, evaluate,
  record_result, record_decision, record_audit_event,
}
use access_kit.Decision.Engine.Context.{Admission-cases}
use access_kit.Decision.Engine.{
  EngineConfig, DecisionContext, build_decision_context, admit_request, decide_paths, conclude,
  decide_allow, decide_caveats, denied, deny_search, allow_search,
}

module _ (c : EngineConfig) (graph : Graph) (request : DecisionRequest) (evaluated_at : IsoDateTime)
    (pins : VersionPins) where
  conclude-evaluated_at :
      (s : Subject) (r : Resource) (deny_result allow_result : PathResult)
      → (conclude c graph request evaluated_at pins s r deny_result allow_result).0.evaluated_at
        ≡ evaluated_at
  unfolding conclude decide_allow decide_caveats denied
  conclude-evaluated_at s r deny_result allow_result = ground arith

  decide_paths-evaluated_at :
      (s : Subject) (r : Resource) (scope : Scope) (guard : Guard)
      → (decide_paths c graph request evaluated_at pins s r scope guard).0.evaluated_at
        ≡ evaluated_at
  unfolding decide_paths
  decide_paths-evaluated_at s r scope guard =
      let found = deny_search c graph request evaluated_at pins s scope guard in
      conclude-evaluated_at s r found
        (allow_search c graph request evaluated_at pins s found.scope found.guard)

  build_decision_context-evaluated_at :
      (scopes : List Scope)
      → (build_decision_context c graph request evaluated_at pins scopes).0.evaluated_at
        ≡ evaluated_at
  unfolding build_decision_context denied
  build_decision_context-evaluated_at scopes =
      elim (Admission-cases c graph request evaluated_at pins
        (admit_request c graph request evaluated_at pins)) [
          | inl (s, r, e) ↦ rw (e, build_decision_context) (decide_paths-evaluated_at s r _ _)
          | inr (reason, at, t, k, e) ↦ rw (e, build_decision_context) refl
        ]

module _ (platform : Platform) (c : NormalizedOptions) (graph : Graph) (request : DecisionRequest)
    (readings : Readings) where
  abbrev context : List Scope → DecisionContext
  context scopes = (decided_at platform c graph request readings scopes).0

  abbrev pub classification : List Scope → String
  classification scopes =
      normalize_classification platform.dates platform.lower platform.trim
        (sha256 platform.printer platform.digest) (context scopes).resource_classification

  record_result-get :
      (explained : Bool) (d : DecisionContext) (result : DecisionResult) (s : EngineState)
      → JsMap.get
          (record_result platform c readings explained d result s).decisions
          result.decision_id
        ≡ some result
  unfolding record_result record_decision record_audit_event
  record_result-get explained d result s =
      JsMap.get-set s.decisions result.decision_id result.decision_id result
      ∙ rw (eq_refl result.decision_id) refl

  cache_of-made :
      (scopes : List Scope) (at ttl : ℕ)
      → platform.dates.parse readings.evaluated_at ≡ some at
      → cache_ttl (classification scopes) ≡ some ttl
      → at + 300000 ≤ last_instant
      → (m : CacheMetadata) × (cache_of platform (context scopes) ≡ some m)
  cache_of-made scopes at ttl parsed live room =
      let d = context scopes in
      let (m, e, _, _, _) =
        create_cache_metadata-made platform.dates platform.lower platform.trim
          (sha256 platform.printer platform.digest) d.request d.version_pins d.evaluated_at
          d.tenant_id d.resource_classification at ttl
          (ap platform.dates.parse (
              build_decision_context-evaluated_at c.engine graph request readings.evaluated_at
                (pins_of platform c request readings.evaluated_at) scopes)
            ∙ parsed)
          live room in
      (m, e)

  -- At a real date that is not in the last five minutes of all dates, and unless the resource's
  -- classification is one that has no time to live, check and explain give a result, whose decision
  -- is the context's, and the store holds it afterwards under its id.
  pub evaluate-answers :
      (explained : Bool) (s : EngineState) (at ttl : ℕ)
      → platform.dates.parse readings.evaluated_at ≡ some at
      → cache_ttl (classification s.scopes) ≡ some ttl
      → at + 300000 ≤ last_instant
      → (result : DecisionResult) × ((evaluate platform c explained graph request readings s).0
          ≡ some result)
        × (result.decision ≡ (context s.scopes).decision)
        × (JsMap.get
              (evaluate platform c explained graph request readings s).1.decisions
              result.decision_id
            ≡ some result)
  unfolding evaluate to_decision_result
  evaluate-answers explained s at ttl parsed live room =
      let (m, e) = cache_of-made s.scopes at ttl parsed live room in
      let d = context s.scopes in
      let result = result_with platform d explained (elapsed_report platform c readings d) m in
      rw (e, evaluate, to_decision_result)
        (
          result,
          refl,
          refl,
          record_result-get explained d result
              (record s { scopes = (decided_at platform c graph request readings s.scopes).1 }),
        )
