-- ===== src/Decision/Paths.antt =====
-- findAllowPath, findDenyPath and the cache of active relationships in packages/core/src/engine.ts.
-- `lower` is `toLowerCase`.
pub mod Results
use access_kit.Prelude.{
  ℕ, suc, String, Bool, true, false, not, ◌&&◌, ◌||◌, Option, none, some, List, [], ◌∷◌,
  if◌then◌else◌, ◌==◌, filter_by, map, ◌otherwise◌,
}
use access_kit.JsMap
use access_kit.JsMap.{JsMap}
use access_kit.JsSet
use access_kit.Domain.{CanonicalId, IsoDateTime, RelationshipTuple, RelationshipPathStep}
use access_kit.Domain.Dates.{Dates}
use access_kit.Store.Graph.{Graph}
use access_kit.Policy.Model.{CompiledPolicyModel}
use access_kit.Policy.Compile.{grant_relations_for, traversal_relations_for, deny_relations_for}
use access_kit.Decision.Runtime.Guard.{Guard}
use access_kit.Decision.Visibility.{is_active_graph_node_at, relationship_matches_tenant_boundary}
use access_kit.Decision.Search.{Verdict, goal, skip, visit, start, path_of, guard_of}
use access_kit.Decision.Cache.{Scope, search_in_scope}

unfoldable pub to_path_step : RelationshipTuple → RelationshipPathStep
to_path_step r = record {
  subject_id = r.subject_id;
  relation = r.relation;
  object_id = r.object_id;
}

unfoldable pub can_traverse_relationship :
    CompiledPolicyModel → String → RelationshipTuple → Bool → Bool → Bool
can_traverse_relationship policy key r relation_grants_action has_action_grant =
    let traversal = JsSet.has (traversal_relations_for policy key) r.relation in
    if JsSet.has policy.membership_relations r.relation
    then traversal
    else if JsSet.has policy.containment_relations r.relation
    then traversal && has_action_grant
    else relation_grants_action

unfoldable pub can_traverse_deny_relationship : CompiledPolicyModel → RelationshipTuple → Bool
can_traverse_deny_relationship policy r = JsSet.has policy.membership_relations r.relation

module _ (dates : Dates) (graph : Graph) (policy : CompiledPolicyModel) (as_of : IsoDateTime) where
  -- What findAllowPath makes of an edge, for the action with this key.
  unfoldable pub allow_verdict : CanonicalId → String → Bool → RelationshipTuple → Verdict
  allow_verdict resource_id key has_action_grant r =
      let relation_grants_action = JsSet.has (grant_relations_for policy key) r.relation in
      let traversable =
        can_traverse_relationship policy key r relation_grants_action has_action_grant in
      if r.object_id == resource_id && relation_grants_action
      then goal
      else if JsSet.has policy.containment_relations r.relation
          && (JsSet.has (traversal_relations_for policy key) r.relation
              && (r.object_id == resource_id && has_action_grant))
      then goal
      else if r.object_id == resource_id
      then skip
      else if not traversable || not (is_active_graph_node_at dates graph r.object_id as_of)
      then skip
      else visit (has_action_grant || relation_grants_action)

  -- What findDenyPath makes of an edge.
  unfoldable pub deny_verdict : CanonicalId → String → Bool → RelationshipTuple → Verdict
  deny_verdict resource_id key has_action_grant r =
      if r.object_id == resource_id && JsSet.has (deny_relations_for policy key) r.relation
      then goal
      else if r.object_id == resource_id
          || (not (can_traverse_deny_relationship policy r)
              || not (is_active_graph_node_at dates graph r.object_id as_of))
      then skip
      else visit false

pub record TraversalPath : Type 0 where
  pub steps : List RelationshipPathStep
  pub relationships : List RelationshipTuple

-- buildAllowPath, buildDenyPath and emptyRelationshipTraversalPath: the search has put the edges in
-- order.
unfoldable pub traversal_path : List RelationshipTuple → TraversalPath
traversal_path relationships = record {
  steps = map to_path_step relationships;
  relationships = relationships;
}

-- A path, with the guard and the scope after the search for it.
pub record PathResult : Type 0 where
  pub path : TraversalPath
  pub guard : Guard
  pub scope : Scope

-- A round for each scan that the guard allows, and one more.
abbrev pub fuel_for : Guard → ℕ
fuel_for g = suc g.bounds.max_relationship_scans

module _ (dates : Dates) (lower : String → String) (graph : Graph) (policy : CompiledPolicyModel)
    (root_tenant_id : Option String) (as_of : IsoDateTime) where
  abbrev pub tenant_test : RelationshipTuple → Bool
  tenant_test r = relationship_matches_tenant_boundary dates graph r root_tenant_id as_of

  unfoldable pub find_path :
      (Bool → RelationshipTuple → Verdict) → Scope → Guard → CanonicalId → PathResult
  find_path verdict scope guard subject_id =
      let (outcome, scope') =
        search_in_scope dates graph tenant_test verdict (fuel_for guard) scope
          (start subject_id guard) in
      record {
        path = traversal_path (path_of outcome);
        guard = guard_of guard outcome;
        scope = scope';
      }

  unfoldable pub find_allow_path : Scope → Guard → CanonicalId → CanonicalId → String → PathResult
  unfolding find_path
  find_allow_path scope guard subject_id resource_id action =
      find_path (allow_verdict dates graph policy as_of resource_id (lower action)) scope guard
        subject_id

  unfoldable pub find_deny_path : Scope → Guard → CanonicalId → CanonicalId → String → PathResult
  unfolding find_path
  find_deny_path scope guard subject_id resource_id action =
      find_path (deny_verdict dates graph policy as_of resource_id (lower action)) scope guard
        subject_id
