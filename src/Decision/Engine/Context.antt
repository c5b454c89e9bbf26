-- ===== src/Decision/Engine/Context.antt =====
-- #buildDecisionContext as a whole: what each decision says, and that the cache has no say in it.
use access_kit.Prelude.{
  ◌otherwise◌, ◌<◌, String, Option, List, [], ◌≡◌, refl, sym, subst, ◌⊎◌, inl, inr, arith, All,
}
use access_kit.JsSet
use access_kit.Domain.{Subject, Resource, DecisionRequest, DecisionValue}
use access_kit.Store.Graph.{Graph, graph_size}
use access_kit.Decision.Runtime.Guard.{Guard, GraphSize, TraversalBounds, new_guard}
use access_kit.Decision.Runtime.Pins.{VersionPins}
use access_kit.Decision.Cache.{Scope}
use access_kit.Decision.Cache.Coherence.{IsCoherent, IsCoherent-pin}
use access_kit.Decision.Search.Fuel.{IsReady}
use access_kit.Decision.Paths.{PathResult, find_deny_path, find_allow_path}
use access_kit.Decision.Paths.Results.{find_path-PathEnds, find_path-IsCoherent, find_path-same}
use access_kit.Decision.Engine.Edges.{
  allow_of, deny_of, allow_verdict-IsMonotone, deny_verdict-IsMonotone,
}
use access_kit.Decision.Engine.Cases.{Cases, conclude-Cases, conclude-scope, conclude-same}
use access_kit.Decision.Keys.{IsPlain}
use access_kit.Decision.Engine.Scopes.{
  IsCurrent, active_relationship_scope-IsScopeFor, new_scope-IsCoherent,
  All-active_relationship_scope, All-write_back,
}
use access_kit.Decision.Engine.{
  EngineConfig, compiled, DecisionContext, ReasonCode, Admission, refused, admitted, admit_request,
  deny_search, allow_search, decide_paths, build_decision_context, denied, subject_tenant,
  pinned_tuple_version,
}

-- A new guard has counted the root, and no more.
pub new_guard-IsReady :
    (b : TraversalBounds) (size : GraphSize) (root : String)
    → 0 < b.max_visited_nodes
    → IsReady b (new_guard b size root)
unfolding new_guard JsSet.add JsSet.has JsSet.size
new_guard-IsReady b size root h = ground arith

module _ (c : EngineConfig) (graph : Graph) (request : DecisionRequest) (evaluated_at : String)
    (pins : VersionPins) where
  abbrev pinned : Option String
  pinned = pinned_tuple_version c graph request evaluated_at pins

  abbrev Coherent : Scope → Type 0
  Coherent = IsCoherent c.dates graph graph.relationship_revision pins.as_of pinned

  module _ (s : Subject) (r : Resource) (scope : Scope) (g : Guard)
      (coherent : Coherent scope) where
    abbrev denial_found : PathResult
    denial_found = deny_search c graph request evaluated_at pins s scope g

    abbrev grant_found : PathResult
    grant_found =
        allow_search c graph request evaluated_at pins s denial_found.scope denial_found.guard

    deny_search-IsCoherent : Coherent denial_found.scope
    unfolding deny_search find_deny_path
    deny_search-IsCoherent =
        find_path-IsCoherent c.dates c.lower graph (compiled c)
          (subject_tenant c graph request evaluated_at pins s) pins.as_of pinned
          (deny_of c.dates graph (compiled c) pins.as_of request.resource_id
            (c.lower request.action))
          (deny_verdict-IsMonotone c.dates graph (compiled c) pins.as_of request.resource_id
            (c.lower request.action))
          request.subject_id c.traversal_bounds scope g coherent

    decide_paths-IsCoherent :
        Coherent (decide_paths c graph request evaluated_at pins s r scope g).1
    unfolding decide_paths allow_search find_allow_path
    decide_paths-IsCoherent =
        conclude-scope c graph request evaluated_at pins pinned s r Coherent denial_found
          grant_found deny_search-IsCoherent
          (find_path-IsCoherent c.dates c.lower graph (compiled c)
            (subject_tenant c graph request evaluated_at pins s) pins.as_of pinned
            (allow_of c.dates graph (compiled c) pins.as_of request.resource_id
              (c.lower request.action))
            (allow_verdict-IsMonotone c.dates graph (compiled c) pins.as_of request.resource_id
              (c.lower request.action))
            request.subject_id c.traversal_bounds denial_found.scope denial_found.guard
            deny_search-IsCoherent)

    decide_paths-Cases :
        IsReady c.traversal_bounds g
        → Cases c graph request evaluated_at pins pinned s
            (decide_paths c graph request evaluated_at pins s r scope g).0
    unfolding decide_paths deny_search allow_search find_deny_path find_allow_path
    decide_paths-Cases ready =
        conclude-Cases c graph request evaluated_at pins pinned s r c.traversal_bounds denial_found
          grant_found
          (find_path-PathEnds c.dates c.lower graph (compiled c)
            (subject_tenant c graph request evaluated_at pins s) pins.as_of pinned
            (deny_of c.dates graph (compiled c) pins.as_of request.resource_id
              (c.lower request.action))
            (deny_verdict-IsMonotone c.dates graph (compiled c) pins.as_of request.resource_id
              (c.lower request.action))
            request.subject_id c.traversal_bounds scope g coherent ready)
          (λ ready'.
            find_path-PathEnds c.dates c.lower graph (compiled c)
              (subject_tenant c graph request evaluated_at pins s) pins.as_of pinned
              (allow_of c.dates graph (compiled c) pins.as_of request.resource_id
                (c.lower request.action))
              (allow_verdict-IsMonotone c.dates graph (compiled c) pins.as_of request.resource_id
                (c.lower request.action))
              request.subject_id c.traversal_bounds denial_found.scope denial_found.guard
              deny_search-IsCoherent ready')

  abbrev decided_in : List Scope → DecisionContext × List Scope
  decided_in = build_decision_context c graph request evaluated_at pins

  abbrev admission : Admission
  admission = admit_request c graph request evaluated_at pins

  pub Admission-cases :
      (a : Admission)
      → ((s : Subject) × (r : Resource) × (a ≡ admitted s r))
        ⊎ ((reason : ReasonCode) × (at : String) × (t : Option String) × (k : Option String) × (a
              ≡ refused reason at t k))
  Admission-cases (admitted s r) = inl (s, r, refl)
  Admission-cases (refused reason at t k) = inr (reason, at, t, k, refl)

  -- Refused before the searches, with the reason of the first check that fails; or decided by them.
  abbrev pub Decision : DecisionContext → Type 0
  Decision d =
      ((reason : ReasonCode) × (at : String) × (t : Option String) × (k : Option String)
        × (admission ≡ refused reason at t k)
        × (d.reason_code ≡ reason)
        × (d.decision ≡ DecisionValue.deny))
      ⊎ ((s : Subject) × (r : Resource) × (admission ≡ admitted s r)
          × Cases c graph request evaluated_at pins pinned s d)

  pub Coherent-IsCurrent :
      IsPlain pins.as_of
      → IsPlain (pinned otherwise "")
      → (t : Scope) → Coherent t
      → IsCurrent c.dates graph t
  Coherent-IsCurrent time version t h revision = (
    record {
      plain_time = subst IsPlain (sym h.same_time) time;
      plain_version = subst IsPlain (sym h.same_version) version;
    },
    subst (λ a. IsCoherent c.dates graph graph.relationship_revision a t.pinned_tuple_version t)
        (sym h.same_time)
        (IsCoherent-pin c.dates graph graph.relationship_revision pins.as_of pinned
          t.pinned_tuple_version (sym h.same_version) t h),
  )

  module _ (scopes : List Scope) (current : All (IsCurrent c.dates graph) scopes) where
    pub context-Decision : 0 < c.traversal_bounds.max_visited_nodes → Decision (decided_in scopes).0
    unfolding build_decision_context denied
    context-Decision positive = elim (Admission-cases admission) [
      | inl (s, r, e) ↦
          rw (e, build_decision_context)
            (inr (
              s,
              r,
              refl,
              decide_paths-Cases s r _ _
                  (active_relationship_scope-IsScopeFor c.dates graph scopes pins.as_of pinned
                    current)
                  (new_guard-IsReady c.traversal_bounds (graph_size graph) request.subject_id
                    positive),
            ))
      | inr (reason, at, t, k, e) ↦
          rw (e, build_decision_context) (inl (reason, at, t, k, refl, refl, refl))
    ]

    -- What holds of every coherent scope, and of the scopes before, holds of the scopes after.
    pub All-build_decision_context :
        (P : Scope → Type 0)
        → ((t : Scope) → Coherent t → P t)
        → All P scopes
        → All P (decided_in scopes).1
    unfolding build_decision_context
    All-build_decision_context P coherent before = elim (Admission-cases admission) [
      | inl (s, r, e) ↦
          rw (e, build_decision_context)
            (All-write_back c.dates graph P _ _
              (All-active_relationship_scope c.dates graph P scopes pins.as_of pinned
                (coherent _ (new_scope-IsCoherent c.dates graph pins.as_of pinned)) before)
              (coherent _ (
                decide_paths-IsCoherent s r _ first_guarded (
                  active_relationship_scope-IsScopeFor c.dates graph scopes pins.as_of pinned
                    current))))
      | inr (reason, at, t, k, e) ↦ rw (e, build_decision_context) before
    ]
      where
        first_guarded : Guard
        first_guarded = new_guard c.traversal_bounds (graph_size graph) request.subject_id

    -- A decision leaves scopes that, if of the graph's present revision, hold what the graph gives and
    -- no NUL in their times and versions, if they did before and the decision's own time and pinned
    -- version hold none.
    pub build_decision_context-IsCurrent :
        IsPlain pins.as_of
        → IsPlain (pinned otherwise "")
        → All (IsCurrent c.dates graph) (decided_in scopes).1
    build_decision_context-IsCurrent time version =
        All-build_decision_context (IsCurrent c.dates graph) (Coherent-IsCurrent time version)
          current

  abbrev Same : PathResult → PathResult → Type 0
  Same x y = (x.path ≡ y.path) × (x.guard ≡ y.guard)

  module _ (s : Subject) where
    deny_search-Same :
        (t u : Scope) (g : Guard)
        → Coherent t
        → Coherent u
        → Same
            (deny_search c graph request evaluated_at pins s t g)
            (deny_search c graph request evaluated_at pins s u g)
    unfolding deny_search find_deny_path
    deny_search-Same t u g =
        find_path-same c.dates c.lower graph (compiled c)
          (subject_tenant c graph request evaluated_at pins s) pins.as_of pinned
          (deny_of c.dates graph (compiled c) pins.as_of request.resource_id
            (c.lower request.action))
          (deny_verdict-IsMonotone c.dates graph (compiled c) pins.as_of request.resource_id
            (c.lower request.action))
          request.subject_id c.traversal_bounds t u g

    allow_search-Same :
        (t u : Scope) (g h : Guard)
        → g ≡ h
        → Coherent t
        → Coherent u
        → Same
            (allow_search c graph request evaluated_at pins s t g)
            (allow_search c graph request evaluated_at pins s u h)
    unfolding allow_search find_allow_path
    allow_search-Same t u g h e ht hu =
        subst
          (λ k.
            Same (allow_search c graph request evaluated_at pins s t g)
              (allow_search c graph request evaluated_at pins s u k))
          e
          (find_path-same c.dates c.lower graph (compiled c)
            (subject_tenant c graph request evaluated_at pins s) pins.as_of pinned
            (allow_of c.dates graph (compiled c) pins.as_of request.resource_id
              (c.lower request.action))
            (allow_verdict-IsMonotone c.dates graph (compiled c) pins.as_of request.resource_id
              (c.lower request.action))
            request.subject_id c.traversal_bounds t u g ht hu)

  -- Two coherent scopes give one decision.
  decide_paths-same :
      (s : Subject) (r : Resource) (t u : Scope) (g : Guard)
      → Coherent t
      → Coherent u
      → (decide_paths c graph request evaluated_at pins s r t g).0
        ≡ (decide_paths c graph request evaluated_at pins s r u g).0
  unfolding decide_paths
  decide_paths-same s r t u g ht hu =
      let (path, guard) = deny_search-Same s t u g ht hu in
      let (path', guard') =
        allow_search-Same s _ _ _ _ guard (deny_search-IsCoherent s r t g ht)
          (deny_search-IsCoherent s r u g hu) in
      conclude-same c graph request evaluated_at pins pinned s r _ _ _ _ path guard path' guard'

  -- Over scopes that are current, the decision
  -- is the one over no scopes: the cache has no say in it.
  pub build_decision_context-cache :
      (scopes : List Scope)
      → All (IsCurrent c.dates graph) scopes
      → (decided_in scopes).0 ≡ (decided_in []).0
  unfolding build_decision_context
  build_decision_context-cache scopes current = elim (Admission-cases admission) [
    | inl (s, r, e) ↦
        rw (e, build_decision_context)
          (decide_paths-same s r _ _ _
            (active_relationship_scope-IsScopeFor c.dates graph scopes pins.as_of pinned current)
            (active_relationship_scope-IsScopeFor c.dates graph [] pins.as_of pinned tt))
    | inr (reason, at, t, k, e) ↦ rw (e, build_decision_context) refl
  ]
