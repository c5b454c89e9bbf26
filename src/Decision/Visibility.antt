-- ===== src/Decision/Visibility.antt =====
-- What the engine sees of the graph at a time, in packages/core/src/engine.ts: visibility, lifecycle
-- states, active relationships and the tenant boundary.
use access_kit.Prelude.{
  ℕ, String, Bool, true, false, not, ◌&&◌, ◌||◌, Option, none, some, if◌then◌else◌, ◌==◌, truthy,
  is_empty, is_some, holds,
}
use access_kit.Domain.{
  IsoDateTime, Subject, Resource, RelationshipTuple, LifecycleState, TupleStatus, CanonicalId,
  is_active_state,
}
use access_kit.Domain.Json.{JsonRecord, Json, undefined, null, bool, num, text, arr, obj, value_of}
use access_kit.Domain.Dates.{Dates, later, at_most}
use access_kit.Store.Graph.{Graph, get_subject, get_resource}

-- A subject or a resource.
pub data Node : Type 0 where
  subject_node : Subject → Node
  resource_node : Resource → Node

abbrev pub node_attributes : Node → Option JsonRecord
node_attributes (subject_node s) = s.attributes
node_attributes (resource_node r) = r.attributes

abbrev pub node_updated_at : Node → Option IsoDateTime
node_updated_at (subject_node s) = s.updated_at
node_updated_at (resource_node r) = r.updated_at

abbrev pub node_lifecycle_state : Node → LifecycleState
node_lifecycle_state (subject_node s) = s.lifecycle_state
node_lifecycle_state (resource_node r) = r.lifecycle_state

-- A non-empty text.
abbrev non_empty_text : Json → Option String
non_empty_text (text s) = if is_empty s then none else some s
non_empty_text undefined = none
non_empty_text null = none
non_empty_text (bool b) = none
non_empty_text (num n) = none
non_empty_text (arr xs) = none
non_empty_text (obj r) = none

unfoldable pub string_attribute : Option JsonRecord → String → Option String
string_attribute none key = none
string_attribute (some attributes) key = non_empty_text (value_of attributes key)

unfoldable pub tenant_id_for : Option Node → Option String
tenant_id_for none = none
tenant_id_for (some node) = string_attribute (node_attributes node) "tenantId"

-- `!a || !b || a !== b`, unless both are missing.
abbrev pub tenants_differ : Option String → Option String → Bool
tenants_differ none none = false
tenants_differ none (some b) = true
tenants_differ (some a) none = true
tenants_differ (some a) (some b) = not (a == b)

unfoldable pub tenant_boundary_denies : Subject → Resource → Bool
tenant_boundary_denies s r =
    tenants_differ (tenant_id_for (some (subject_node s))) (tenant_id_for (some (resource_node r)))

-- The lifecycle state at a time, `none` where it is unknown.
abbrev pub is_active : Option LifecycleState → Bool
is_active none = false
is_active (some s) = is_active_state s

abbrev is_deleted : Option TupleStatus → Bool
is_deleted none = false
is_deleted (some TupleStatus.deleted) = true
is_deleted (some TupleStatus.active) = false
is_deleted (some TupleStatus.expired) = false

module _ (dates : Dates) where
  -- `a && Date.parse(a) > asOfMs` and `a && Date.parse(a) <= asOfMs`.
  abbrev pub set_and_later : Option IsoDateTime → Option ℕ → Bool
  set_and_later a at = truthy a && holds (λ s. later (dates.parse s) at) a

  abbrev set_and_at_most : Option IsoDateTime → Option ℕ → Bool
  set_and_at_most a at = truthy a && holds (λ s. at_most (dates.parse s) at) a

  -- `!a || Date.parse(a) > asOfMs`.
  abbrev unset_or_later : Option IsoDateTime → Option ℕ → Bool
  unset_or_later a at = not (truthy a) || holds (λ s. later (dates.parse s) at) a

  -- Subjects and resources have no `status`.
  unfoldable pub is_visible_at :
      IsoDateTime → Option IsoDateTime → Option TupleStatus → IsoDateTime → Bool
  is_visible_at created_at updated_at status as_of =
      if later (dates.parse created_at) (dates.parse as_of)
      then false
      else not (is_deleted status && set_and_at_most updated_at (dates.parse as_of))

  unfoldable pub is_active_relationship_at : RelationshipTuple → IsoDateTime → Option String → Bool
  is_active_relationship_at r as_of pinned_tuple_version =
      let at = dates.parse as_of in
      if truthy pinned_tuple_version && not (holds (λ v. r.version == v) pinned_tuple_version)
      then false
      else if not (is_visible_at r.created_at r.updated_at (some r.status) as_of)
      then false
      else if later (dates.parse r.asserted_at) at
      then false
      else elim r.status [
        | TupleStatus.deleted ↦ set_and_later r.updated_at at && unset_or_later r.expires_at at
        | TupleStatus.expired ↦ set_and_later r.expires_at at
        | TupleStatus.active ↦ unset_or_later r.expires_at at
      ]

  unfoldable pub effective_lifecycle_state_at : Node → IsoDateTime → Option LifecycleState
  effective_lifecycle_state_at node as_of =
      if set_and_later (node_updated_at node) (dates.parse as_of)
      then none
      else some (node_lifecycle_state node)

  module _ (graph : Graph) where
    unfoldable pub visible_subject_at : CanonicalId → IsoDateTime → Option Subject
    visible_subject_at id as_of = elim (get_subject graph id) [
      | none ↦ none
      | some s ↦ if is_visible_at s.created_at s.updated_at none as_of then some s else none
    ]

    unfoldable pub visible_resource_at : CanonicalId → IsoDateTime → Option Resource
    visible_resource_at id as_of = elim (get_resource graph id) [
      | none ↦ none
      | some r ↦ if is_visible_at r.created_at r.updated_at none as_of then some r else none
    ]

    -- `visibleSubjectAt(…) ?? visibleResourceAt(…)`.
    unfoldable pub visible_node_at : CanonicalId → IsoDateTime → Option Node
    visible_node_at id as_of = elim (visible_subject_at id as_of) [
      | some s ↦ some (subject_node s)
      | none ↦ elim (visible_resource_at id as_of) [ some r ↦ some (resource_node r) | none ↦ none ]
    ]

    unfoldable pub is_active_graph_node_at : CanonicalId → IsoDateTime → Bool
    is_active_graph_node_at id as_of =
        holds (λ node. is_active (effective_lifecycle_state_at node as_of))
          (visible_node_at id as_of)

    unfoldable pub relationship_matches_tenant_boundary :
        RelationshipTuple → Option String → IsoDateTime → Bool
    relationship_matches_tenant_boundary r root_tenant_id as_of =
        let own = string_attribute r.attributes "tenantId" in
        let object = tenant_id_for (visible_node_at r.object_id as_of) in
        elim root_tenant_id [
          | none ↦ not (is_some own) && not (is_some object)
          | some root ↦
              if is_some own && not (holds (λ t. t == root) own)
              then false
              else holds (λ t. t == root) object
        ]
