-- ===== src/Decision/Cache.antt =====
-- The cache of active relationships in packages/core/src/engine.ts: activeRelationshipsForSubject
-- over a scope, and the engine's map of scopes. A scope stands in the map under the key of its own
-- revision, time and pinned version, so the map is the list of its scopes, the oldest first. A
-- revision is compared as a number, since its digits hold no NUL, and what follows it as the joined text.
pub mod Coherence
use access_kit.Prelude.{
  ℕ, zero, suc, String, Bool, true, false, not, ◌&&◌, Option, none, some, List, [], ◌∷◌, ◌++◌,
  if◌then◌else◌, ◌==◌, filter_by, find_by, ◌otherwise◌, leb, ltb, length,
}
use access_kit.JsMap
use access_kit.JsMap.{JsMap}
use access_kit.Domain.{CanonicalId, IsoDateTime, RelationshipTuple}
use access_kit.Domain.Dates.{Dates}
use access_kit.Store.Graph.{Graph, list_relationships_for_subject}
use access_kit.Decision.Visibility.{is_active_relationship_at}
use access_kit.Decision.Keys.{scope_text}
use access_kit.Decision.Search.{
  Search, Verdict, Outcome, arrived, stopped, exhausted, out_of_fuel, Progress, found, halted,
  running, scan,
}

pub record Scope : Type 0 where
  pub revision : ℕ
  pub as_of : IsoDateTime
  pub pinned_tuple_version : Option String
  pub by_subject : JsMap (List RelationshipTuple)

abbrev pub max_active_relationship_scopes : ℕ
max_active_relationship_scopes = 32

abbrev same_number : ℕ → ℕ → Bool
same_number a b = leb a b && leb b a

abbrev pub has_key : ℕ → IsoDateTime → Option String → Scope → Bool
has_key revision as_of pinned s =
    same_number s.revision revision
    && scope_text s.as_of (s.pinned_tuple_version otherwise "")
      == scope_text as_of (pinned otherwise "")

abbrev pub drop_oldest : List Scope → List Scope
drop_oldest [] = []
drop_oldest (s ∷ ss) = ss

abbrev pub new_scope : ℕ → IsoDateTime → Option String → Scope
new_scope revision as_of pinned = record {
  revision = revision;
  as_of = as_of;
  pinned_tuple_version = pinned;
  by_subject = [];
}

-- #activeRelationshipScope: the scope, and the map after it.
unfoldable pub active_relationship_scope :
    Graph → List Scope → IsoDateTime → Option String → Scope × List Scope
active_relationship_scope graph scopes as_of pinned =
    elim (find_by (has_key graph.relationship_revision as_of pinned) scopes) [
      | some cached ↦ (cached, scopes)
      | none ↦
          let scope = new_scope graph.relationship_revision as_of pinned in
          let grown = scopes ++ scope ∷ [] in
          (
            scope,
            if ltb max_active_relationship_scopes (length grown) then drop_oldest grown else grown,
          )
    ]

-- A scope is one object: what is cached in it is seen through the map.
unfoldable pub write_back : List Scope → Scope → List Scope
write_back [] scope = []
write_back (s ∷ ss) scope =
    if has_key scope.revision scope.as_of scope.pinned_tuple_version s
    then scope ∷ ss
    else s ∷ write_back ss scope

module _ (dates : Dates) (graph : Graph) where
  -- What a scope caches for a subject.
  unfoldable pub active_relationships :
      IsoDateTime → Option String → CanonicalId → List RelationshipTuple
  active_relationships as_of pinned subject_id =
      filter_by (λ r. is_active_relationship_at dates r as_of pinned)
        (list_relationships_for_subject graph subject_id)

  -- The relationships, and the scope after it.
  unfoldable pub active_relationships_for_subject :
      Scope → CanonicalId → List RelationshipTuple × Scope
  active_relationships_for_subject scope subject_id = elim (JsMap.get scope.by_subject subject_id) [
    | some cached ↦ (cached, scope)
    | none ↦
        let active = active_relationships scope.as_of scope.pinned_tuple_version subject_id in
        (active, record scope { by_subject = JsMap.set scope.by_subject subject_id active })
  ]

  module _ (tenant_ok : RelationshipTuple → Bool)
      (verdict : Bool → RelationshipTuple → Verdict) where
    -- The outer loop of a search over a scope.
    unfoldable pub search_in_scope : ℕ → Scope → Search → Outcome × Scope
    search_in_scope zero scope s = elim s.pending [
      | [] ↦ (exhausted s.guard, scope)
      | _ ∷ _ ↦ (out_of_fuel, scope)
    ]
    search_in_scope (suc fuel) scope s = elim s.pending [
      | [] ↦ (exhausted s.guard, scope)
      | next ∷ rest ↦
          let (active, scope') = active_relationships_for_subject scope next.current_id in
          elim (scan tenant_ok verdict next active (record s { pending = rest })) [
            | found p g ↦ (arrived p g, scope')
            | halted g ↦ (stopped g, scope')
            | running s' ↦ search_in_scope fuel scope' s'
          ]
    ]
