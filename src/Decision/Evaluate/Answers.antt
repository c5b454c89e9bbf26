-- ===== src/Decision/Evaluate/Answers.antt =====
-- What check and explain of packages/core/src/engine.ts answer, and that they agree.
use access_kit.Prelude.{
  ◌<◌, Bool, true, false, Option, none, some, List, [], if◌then◌else◌, ◌≡◌, refl, sym, ap, subst,
  ◌∙◌, inl, inr, arith, All, Option-cases,
}
use access_kit.Domain.{CanonicalId, DecisionRequest, DecisionValue}
use access_kit.Store.Graph.{Graph}
use access_kit.Policy.Model.{PolicyModel}
use access_kit.Audit.{map_option}
use access_kit.Decision.Runtime.Guard.{default_traversal_bounds}
use access_kit.Decision.Runtime.CacheMetadata.{CacheMetadata}
use access_kit.Decision.Runtime.Limits.{merge_traversal_bounds-ArePositive}
use access_kit.Decision.Cache.{Scope}
use access_kit.Decision.Engine.{DecisionContext}
use access_kit.Decision.Engine.Scopes.{IsCurrent}
use access_kit.Decision.Engine.Context.{build_decision_context-cache}
use access_kit.Decision.Engine.Safety.{IsSafeAllow, build_decision_context-IsSafeAllow}
use access_kit.Decision.Results.{
  Platform, DecisionResult, PerformanceReport, decision_id, cache_of, to_decision_result,
}
use access_kit.Decision.Evaluate.{
  EngineOptions, NormalizedOptions, normalize_options, EngineState, Readings, pins_of, decided_at,
  elapsed_report, evaluate, check, explain,
}

-- A result of explain as check gives it: under its own id, without the path.
abbrev pub concealed : CanonicalId → DecisionResult → DecisionResult
concealed id result = record result {
  decision_id = id;
  relationship_path = [];
  constraints = record result.constraints { explain = false };
}

module _ (platform : Platform) where
  abbrev result_of : DecisionContext → Bool → PerformanceReport → Option DecisionResult
  result_of = to_decision_result platform

  abbrev pub unexplained_id : DecisionContext → CanonicalId
  unexplained_id context = decision_id platform context false

  abbrev cache_for : DecisionContext → Option CacheMetadata
  cache_for = cache_of platform

  result_of-concealed :
      (context : DecisionContext) (performance : PerformanceReport)
      → result_of context false performance
        ≡ map_option (concealed (unexplained_id context)) (result_of context true performance)
  unfolding to_decision_result
  result_of-concealed context performance = elim (Option-cases (cache_for context)) [
    | inl e ↦ rw (e, to_decision_result) refl
    | inr (cache, e) ↦ rw (e, to_decision_result) refl
  ]

  -- A result says what the context says.
  abbrev Says : DecisionContext → Bool → Option DecisionResult → Type 0
  Says context explained none = Unit
  Says context explained (some result) =
      (result.decision ≡ context.decision)
      × (result.relationship_path ≡ (if explained then context.relationship_path else []))

  result_of-Says :
      (context : DecisionContext) (explained : Bool) (performance : PerformanceReport)
      → Says context explained (result_of context explained performance)
  unfolding to_decision_result
  result_of-Says context explained performance = elim (Option-cases (cache_for context)) [
    | inl e ↦ rw (e, to_decision_result) tt
    | inr (cache, e) ↦ rw (e, to_decision_result) (refl, refl)
  ]

  module _ (c : NormalizedOptions) (graph : Graph) (request : DecisionRequest)
      (readings : Readings) where
    abbrev pub decided : List Scope → DecisionContext
    decided scopes = (decided_at platform c graph request readings scopes).0

    evaluate-result :
        (explained : Bool) (s : EngineState)
        → (evaluate platform c explained graph request readings s).0
          ≡ result_of
              (decided s.scopes)
              explained
              (elapsed_report platform c readings (decided s.scopes))
    unfolding evaluate to_decision_result
    evaluate-result explained s = elim (Option-cases (cache_for (decided s.scopes))) [
      | inl e ↦ rw (e, evaluate, to_decision_result) refl
      | inr (cache, e) ↦ rw (e, evaluate, to_decision_result) refl
    ]

    evaluate-cache :
        (explained : Bool) (s : EngineState)
        → All (IsCurrent c.engine.dates graph) s.scopes
        → (evaluate platform c explained graph request readings s).0
          ≡ result_of (decided []) explained (elapsed_report platform c readings (decided []))
    evaluate-cache explained s current =
        evaluate-result explained s
        ∙ ap (λ d. result_of d explained (elapsed_report platform c readings d))
            (build_decision_context-cache c.engine graph request readings.evaluated_at
              (pins_of platform c request readings.evaluated_at) s.scopes current)

    -- On one graph, with the same readings of the clocks, and each over scopes that, if of the present
    -- revision, hold what the graph gives and no NUL in their times and versions: check and explain
    -- give the same result but for the id, the path, which check leaves out, and the mark that says
    -- which it is. Where one throws, so does the other.
    pub check-explain :
        (s t : EngineState)
        → All (IsCurrent c.engine.dates graph) s.scopes
        → All (IsCurrent c.engine.dates graph) t.scopes
        → (check platform c graph request readings s).0
          ≡ map_option
              (concealed (unexplained_id (decided [])))
              (explain platform c graph request readings t).0
    unfolding check explain
    check-explain s t current same =
        evaluate-cache false s current
        ∙ result_of-concealed (decided []) _
        ∙ sym
            (ap (map_option (concealed (unexplained_id (decided [])))) (evaluate-cache true t same))

  module _ (default_model : PolicyModel) (options : EngineOptions) (graph : Graph)
      (request : DecisionRequest) (readings : Readings) where
    abbrev c : NormalizedOptions
    c = normalize_options platform default_model options

    room : 0 < c.engine.traversal_bounds.max_visited_nodes
    unfolding normalize_options
    room =
        (merge_traversal_bounds-ArePositive default_traversal_bounds options.traversal_bounds
          (ground arith, ground arith, ground arith)).2

    -- Whatever the options of the engine, where check or explain answers allow, over scopes that, if of
    -- the present revision, hold what the graph gives and no NUL in their times and versions: the
    -- request is admissible, nothing denies it, a path of active edges grants it and its caveats pass;
    -- explain shows that path, and check none.
    pub evaluate-IsSafeAllow :
        (explained : Bool) (s : EngineState) (result : DecisionResult)
        → All (IsCurrent c.engine.dates graph) s.scopes
        → (evaluate platform c explained graph request readings s).0 ≡ some result
        → result.decision ≡ DecisionValue.allow
        → IsSafeAllow c.engine graph request readings.evaluated_at
            (pins_of platform c request readings.evaluated_at)
            (decided c graph request readings s.scopes)
          × (result.relationship_path ≡ (
              if explained
              then (decided c graph request readings s.scopes).relationship_path
              else []))
    evaluate-IsSafeAllow explained s result current answer allow =
        let context = decided c graph request readings s.scopes in
        let (same, path) =
          subst (Says context explained)
            (sym (evaluate-result c graph request readings explained s) ∙ answer)
            (result_of-Says context explained (elapsed_report platform c readings context)) in
        (
          build_decision_context-IsSafeAllow c.engine graph request readings.evaluated_at
              (pins_of platform c request readings.evaluated_at) s.scopes current room
              (sym same ∙ allow),
          path,
        )
