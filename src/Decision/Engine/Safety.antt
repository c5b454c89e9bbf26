-- ===== src/Decision/Engine/Safety.antt =====
-- What a decision of #buildDecisionContext says of the graph: an allow is safe, a denial wins, and a
-- default denial is complete.
use access_kit.Prelude.{◌<◌, String, Bool, true, false, List, map, ◌≡◌, inl, inr, All}
use access_kit.Domain.{Subject, Resource, RelationshipTuple, DecisionRequest, DecisionValue}
use access_kit.Store.Graph.{Graph}
use access_kit.Decision.Runtime.Pins.{VersionPins}
use access_kit.Decision.Cache.{Scope}
use access_kit.Decision.Paths.{to_path_step}
use access_kit.Decision.Caveats.{CaveatExplanation, allows}
use access_kit.Decision.Engine.Cases.{CaveatsDecide, Denial, Grant, caveats_of}
use access_kit.Decision.Engine.Scopes.{IsCurrent}
use access_kit.Decision.Engine.Context.{Decision, context-Decision}
use access_kit.Decision.Engine.Gate.{IsAdmissible, admit_request-IsAdmissible}
use access_kit.Decision.Engine.{
  EngineConfig, DecisionContext, ReasonCode, allow_via_relationship_path, deny_explicit_override,
  deny_traversal_bound_exceeded, deny_default_no_relationship_path, caveat_reason, Admission,
  refused, admitted, admit_request, build_decision_context, pinned_tuple_version,
}
use access_kit.Decision.Engine

abbrev is_of_search : ReasonCode → Bool
is_of_search Engine.deny_explicit_override = true
is_of_search Engine.deny_default_no_relationship_path = true
is_of_search _ = false

module _ (c : EngineConfig) (graph : Graph) (request : DecisionRequest) (evaluated_at : String)
    (pins : VersionPins) where
  abbrev admission : Admission
  admission = admit_request c graph request evaluated_at pins

  abbrev is_refused_by_search : Admission → Bool
  is_refused_by_search (refused reason at t k) = is_of_search reason
  is_refused_by_search (admitted s r) = false

  abbrev pub Denied : Subject → Type 0
  Denied =
      Denial c graph request evaluated_at pins
        (pinned_tuple_version c graph request evaluated_at pins)

  abbrev pub Granted : Subject → List RelationshipTuple → Type 0
  Granted =
      Grant c graph request evaluated_at pins
        (pinned_tuple_version c graph request evaluated_at pins)

  abbrev pub Admissible : Subject → Resource → Type 0
  Admissible = IsAdmissible c graph request evaluated_at pins

  abbrev Decided : DecisionContext → Type 0
  Decided = Decision c graph request evaluated_at pins

  -- What an allow shows: the request is admissible, nothing denies it, its path grants it, and the
  -- caveats on the path pass.
  pub record IsSafeAllow (d : DecisionContext) : Type 0 where
    pub subject : Subject
    pub resource : Resource
    pub admissible : Admissible subject resource
    pub undenied : Denied subject → ⊥
    pub granted : Granted subject d.relationship_path_relationships
    pub shown : d.relationship_path ≡ map to_path_step d.relationship_path_relationships
    pub explanations : List CaveatExplanation
    pub caveats_pass :
        caveats_of c graph request evaluated_at pins
          (pinned_tuple_version c graph request evaluated_at pins)
          d
        ≡ allows explanations

  Decided-allow :
      (d : DecisionContext) → Decided d → d.decision ≡ DecisionValue.allow → IsSafeAllow d
  Decided-allow d (inl (reason, at, t, k, e, same, deny)) h = absurd (cc)
  Decided-allow d (inr (s, r, e, inl (reason, deny, denial))) h = absurd (cc)
  Decided-allow d (inr (s, r, e, inr (inl (reason, deny, over)))) h = absurd (cc)
  Decided-allow d (inr (s, r, e, inr (inr (inl (free, reason, deny, ungranted))))) h = absurd (cc)
  Decided-allow d
        (inr (
          s,
          r,
          e,
          inr (inr (inr (free, grant, steps, inl (reason, explanations, caveats, same, deny)))),
        ))
        h =
      absurd (cc)
  Decided-allow d
        (inr
          (s, r, e, inr (inr (inr (free, grant, steps, inr (explanations, caveats, same, allow))))))
        h =
      record {
        subject = s;
        resource = r;
        admissible = admit_request-IsAdmissible c graph request evaluated_at pins s r e;
        undenied = free;
        granted = grant;
        shown = steps;
        explanations = explanations;
        caveats_pass = caveats;
      }

  -- A path that grants the request, and the caveats' word on it.
  abbrev pub GrantedPathDecided : Subject → DecisionContext → Type 0
  GrantedPathDecided s d =
      Granted s d.relationship_path_relationships
      × (d.relationship_path ≡ map to_path_step d.relationship_path_relationships)
      × CaveatsDecide c graph request evaluated_at pins
          (pinned_tuple_version c graph request evaluated_at pins) d

  module _ (scopes : List Scope) (current : All (IsCurrent c.dates graph) scopes)
      (positive : 0 < c.traversal_bounds.max_visited_nodes) where
    abbrev context : DecisionContext
    context = (build_decision_context c graph request evaluated_at pins scopes).0

    decided : Decided context
    decided = context-Decision c graph request evaluated_at pins scopes current positive

    -- When the engine allows, over any cache of current scopes and with room for the root node: the
    -- request is admissible, its subject is not denied the action on the resource, the edges that the
    -- context shows are a path that grants it, the steps are those edges', and the caveats pass.
    pub build_decision_context-IsSafeAllow :
        context.decision ≡ DecisionValue.allow → IsSafeAllow context
    build_decision_context-IsSafeAllow = Decided-allow context decided
