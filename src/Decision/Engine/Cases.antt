-- ===== src/Decision/Engine/Cases.antt =====
-- Every way in which the searches and the caveats decide, against the specification.
use access_kit.Prelude.{
  String, true, false, Option, none, some, List, [], ◌∷◌, map, ◌≡◌, ◌≢◌, refl, sym, ap, subst, ◌∙◌,
  ◌⊎◌, inl, inr, is_some, arith,
}
use access_kit.Domain.{Subject, Resource, RelationshipTuple, DecisionRequest, DecisionValue}
use access_kit.Store.Graph.{Graph}
use access_kit.Decision.Runtime.Guard.{TraversalBounds, report}
use access_kit.Decision.Runtime.Pins.{VersionPins}
use access_kit.Decision.Cache.{Scope, active_relationships}
use access_kit.Decision.Search.Fuel.{IsReady}
use access_kit.Decision.Paths.{PathResult, TraversalPath, traversal_path, to_path_step, tenant_test}
use access_kit.Decision.Paths.Results.{PathEnds}
use access_kit.Decision.Caveats.{
  CaveatExplanation, CaveatResult, allows, refuses, evaluate_conditional_relationship_caveats,
}
use access_kit.Decision.Engine.Spec.{ExplicitDeny, GrantPath}
use access_kit.Decision.Engine.Edges.{
  allow_of, deny_of, allow_verdict-IsMonotone, deny_verdict-IsMonotone, ExplicitDeny-Arrival,
  Arrival-ExplicitDeny, Arrival-GrantPath, GrantPath-Arrival,
}
use access_kit.Decision.Engine.{
  EngineConfig, compiled, DecisionContext, allow_via_relationship_path, deny_explicit_override,
  deny_traversal_bound_exceeded, deny_default_no_relationship_path, caveat_reason, conclude,
  decide_allow, decide_caveats, denied, subject_tenant, is_empty_list,
}

module _ (c : EngineConfig) (graph : Graph) (request : DecisionRequest) (evaluated_at : String)
    (pins : VersionPins) (pinned : Option String) where
  abbrev pub active_now : String → List RelationshipTuple
  active_now = active_relationships c.dates graph pins.as_of pinned

  abbrev pub Denial : Subject → Type 0
  Denial s =
      ExplicitDeny c.dates graph (compiled c) pins.as_of request.resource_id
        (c.lower request.action)
        (tenant_test c.dates c.lower graph (compiled c)
          (subject_tenant c graph request evaluated_at pins s) pins.as_of)
        active_now request.subject_id

  abbrev pub Grant : Subject → List RelationshipTuple → Type 0
  Grant s =
      GrantPath c.dates graph (compiled c) pins.as_of request.resource_id (c.lower request.action)
        (tenant_test c.dates c.lower graph (compiled c)
          (subject_tenant c graph request evaluated_at pins s) pins.as_of)
        active_now request.subject_id

  abbrev pub caveats_of : DecisionContext → CaveatResult
  caveats_of d =
      evaluate_conditional_relationship_caveats c.dates graph request evaluated_at c.policy_model
        d.relationship_path d.relationship_path_relationships

  -- The caveats' word on a path that was found.
  abbrev pub CaveatsDecide : DecisionContext → Type 0
  CaveatsDecide d =
      ((reason : String) × (explanations : List CaveatExplanation) × (caveats_of d
          ≡ refuses reason explanations)
        × (d.reason_code ≡ caveat_reason reason)
        × (d.decision ≡ DecisionValue.deny))
      ⊎ ((explanations : List CaveatExplanation) × (caveats_of d ≡ allows explanations)
          × (d.reason_code ≡ allow_via_relationship_path)
          × (d.decision ≡ DecisionValue.allow))

  -- Denied; or stopped at a bound; or not denied and without a grant; or not denied, granted by the
  -- path that the context shows, and left to the caveats.
  abbrev pub Cases : Subject → DecisionContext → Type 0
  Cases s d =
      ((d.reason_code ≡ deny_explicit_override) × (d.decision ≡ DecisionValue.deny) × Denial s)
      ⊎ (((d.reason_code ≡ deny_traversal_bound_exceeded)
            × (d.decision ≡ DecisionValue.deny)
            × (d.traversal.bounds_exceeded ≢ none))
          ⊎ (((Denial s → ⊥)
                × (d.reason_code ≡ deny_default_no_relationship_path)
                × (d.decision ≡ DecisionValue.deny)
                × ((p : List RelationshipTuple) → Grant s p → ⊥))
              ⊎ ((Denial s → ⊥)
                  × Grant s d.relationship_path_relationships
                  × (d.relationship_path ≡ map to_path_step d.relationship_path_relationships)
                  × CaveatsDecide d)))

  is_some_of_ne-none : {A : Type 0} (o : Option A) → o ≢ none → is_some o ≡ true
  is_some_of_ne-none none h = absurd (h refl)
  is_some_of_ne-none (some a) h = refl

  CaveatResult-cases :
      (o : CaveatResult)
      → ((explanations : List CaveatExplanation) × (o ≡ allows explanations))
        ⊎ ((reason : String) × (explanations : List CaveatExplanation) × (o
              ≡ refuses reason explanations))
  CaveatResult-cases (allows explanations) = inl (explanations, refl)
  CaveatResult-cases (refuses reason explanations) = inr (reason, explanations, refl)

  module _ (s : Subject) (r : Resource) where
    abbrev after_caveats : PathResult → DecisionContext
    after_caveats = decide_caveats c graph request evaluated_at pins s r

    abbrev Decided : PathResult → Type 0
    Decided found =
        CaveatsDecide (after_caveats found)
        × ((after_caveats found).relationship_path ≡ found.path.steps)
        × ((after_caveats found).relationship_path_relationships ≡ found.path.relationships)

    caveats_decide : (found : PathResult) → Decided found
    unfolding decide_caveats
    caveats_decide found =
        elim (CaveatResult-cases (
          evaluate_conditional_relationship_caveats c.dates graph request evaluated_at
            c.policy_model found.path.steps found.path.relationships)) [
              | inl (explanations, e) ↦
                  rw (e, decide_caveats) (inr (explanations, e, refl, refl), refl, refl)
              | inr (reason, explanations, e) ↦
                  rw (e, decide_caveats) (inl (reason, explanations, e, refl, refl), refl, refl)
            ]

    steps_of_path :
        (p : List RelationshipTuple) → p ≢ [] → is_empty_list (traversal_path p).steps ≡ false
    unfolding traversal_path
    steps_of_path [] h = absurd (h refl)
    steps_of_path (x ∷ xs) h = refl

    abbrev DenyEnds : TraversalBounds → PathResult → Type 0
    DenyEnds b d =
        PathEnds c.dates c.lower graph (compiled c)
          (subject_tenant c graph request evaluated_at pins s) pins.as_of pinned
          (deny_of c.dates graph (compiled c) pins.as_of request.resource_id
            (c.lower request.action))
          (deny_verdict-IsMonotone c.dates graph (compiled c) pins.as_of request.resource_id
            (c.lower request.action))
          request.subject_id b d.path d.guard

    abbrev AllowEnds : TraversalBounds → PathResult → Type 0
    AllowEnds b d =
        PathEnds c.dates c.lower graph (compiled c)
          (subject_tenant c graph request evaluated_at pins s) pins.as_of pinned
          (allow_of c.dates graph (compiled c) pins.as_of request.resource_id
            (c.lower request.action))
          (allow_verdict-IsMonotone c.dates graph (compiled c) pins.as_of request.resource_id
            (c.lower request.action))
          request.subject_id b d.path d.guard

    abbrev decided_allow : PathResult → DecisionContext
    decided_allow = decide_allow c graph request evaluated_at pins s r

    decide_allow_of_path :
        (a : PathResult)
        → is_some a.guard.bounds_exceeded ≡ false
        → is_empty_list a.path.steps ≡ false
        → decided_allow a ≡ after_caveats a
    unfolding decide_allow
    decide_allow_of_path a within some_step = ground arith

    decide_allow-Cases :
        (b : TraversalBounds) (a : PathResult)
        → AllowEnds b a
        → (Denial s → ⊥)
        → Cases s (decided_allow a)
    unfolding decide_allow denied traversal_path report
    decide_allow-Cases b a (inl (p, arrival, some_step, path, within)) free =
        let (caveats, same_steps, same_edges) = caveats_decide a in
        let edges = same_edges ∙ ap (λ (t : TraversalPath). t.relationships) path in
        let steps = same_steps ∙ ap (λ (t : TraversalPath). t.steps) path in
        let has_step =
          ap (λ (t : TraversalPath). is_empty_list t.steps) path ∙ steps_of_path p some_step in
        subst (Cases s) (sym (decide_allow_of_path a (ap is_some within) has_step)) (
          inr (
            inr (
              inr (
                free,
                subst (Grant s) (sym edges) (
                    Arrival-GrantPath c.dates graph (compiled c) pins.as_of request.resource_id
                      (c.lower request.action) _ active_now request.subject_id p arrival),
                steps ∙ sym (ap (map to_path_step) edges),
                caveats,
              ))))
    decide_allow-Cases b a (inr (inl (path, over))) free =
        rw (is_some_of_ne-none a.guard.bounds_exceeded over, decide_allow)
          (inr (inl (refl, refl, over)))
    decide_allow-Cases b a (inr (inr (path, none_arrives, ready))) free =
        rw (ready.unexceeded, decide_allow, ap (λ (t : TraversalPath). is_empty_list t.steps) path)
          (inr (
            inr (
              inl (
                free,
                refl,
                refl,
                λ p g. none_arrives p (
                    GrantPath-Arrival c.dates graph (compiled c) pins.as_of request.resource_id
                      (c.lower request.action) _ active_now request.subject_id p g),
              ))))

    -- Every case of the decision after the two searches.
    pub conclude-Cases :
        (b : TraversalBounds) (d a : PathResult)
        → DenyEnds b d
        → (IsReady b d.guard → AllowEnds b a)
        → Cases s (conclude c graph request evaluated_at pins s r d a).0
    unfolding conclude denied traversal_path report
    conclude-Cases b d a (inl (p, arrival, some_step, path, within)) next =
        rw
          (
            ap (λ (t : TraversalPath). is_empty_list t.steps) path ∙ steps_of_path p some_step,
            conclude,
          )
          (inl (
            refl,
            refl,
            Arrival-ExplicitDeny c.dates graph (compiled c) pins.as_of request.resource_id
                (c.lower request.action) _ active_now request.subject_id p arrival,
          ))
    conclude-Cases b d a (inr (inl (path, over))) next =
        rw
          (
            ap (λ (t : TraversalPath). is_empty_list t.steps) path,
            conclude,
            is_some_of_ne-none d.guard.bounds_exceeded over,
          )
          (inr (inl (refl, refl, over)))
    conclude-Cases b d a (inr (inr (path, none_arrives, ready))) next =
        rw (ap (λ (t : TraversalPath). is_empty_list t.steps) path, conclude, ready.unexceeded)
          (decide_allow-Cases b a (next ready) (λ denial.
            let (p, arrival) =
              ExplicitDeny-Arrival c.dates graph (compiled c) pins.as_of request.resource_id
                (c.lower request.action) _ active_now request.subject_id denial in
            none_arrives p arrival))

    abbrev concluded : PathResult → PathResult → DecisionContext × Scope
    concluded = conclude c graph request evaluated_at pins s r

    -- The scope after it is that of one of the searches.
    pub conclude-scope :
        (P : Scope → Type 0) (d a : PathResult) → P d.scope → P a.scope → P (concluded d a).1
    unfolding conclude
    conclude-scope P d a hd ha = ground arith

    rescoped :
        (d a : PathResult) (u v : Scope)
        → (concluded d a).0 ≡ (concluded (record d { scope = u }) (record a { scope = v })).0
    unfolding conclude
    rescoped d a u v = ground arith

    -- The decision does not turn on the scopes.
    pub conclude-same :
        (d a d' a' : PathResult)
        → d.path ≡ d'.path
        → d.guard ≡ d'.guard
        → a.path ≡ a'.path
        → a.guard ≡ a'.guard
        → (concluded d a).0 ≡ (concluded d' a').0
    conclude-same d a d' a' p q p' q' = rescoped d a d'.scope a'.scope ∙ (λ i.
        (concluded (record { path = p i; guard = q i; scope = d'.scope })
          (record { path = p' i; guard = q' i; scope = a'.scope })).0)
