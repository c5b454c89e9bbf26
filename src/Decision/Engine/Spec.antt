-- ===== src/Decision/Engine/Spec.antt =====
-- What a decision is about, without a search: a subject's denials and its grants along the edges
-- that are active.
use access_kit.Prelude.{String, Bool, true, false, ◌||◌, List, [], ◌∷◌, reverse, ◌≡◌, ◌≢◌, ◌⊎◌, In}
use access_kit.JsSet
use access_kit.Domain.{RelationshipTuple}
use access_kit.Domain.Dates.{Dates}
use access_kit.Store.Graph.{Graph}
use access_kit.Policy.Model.{CompiledPolicyModel}
use access_kit.Policy.Compile.{grant_relations_for, traversal_relations_for, deny_relations_for}
use access_kit.Decision.Visibility.{is_active_graph_node_at}

module _ (dates : Dates) (graph : Graph) (policy : CompiledPolicyModel)
    (as_of resource_id key : String) where
  abbrev pub is_membership : RelationshipTuple → Bool
  is_membership r = JsSet.has policy.membership_relations r.relation

  abbrev pub is_containment : RelationshipTuple → Bool
  is_containment r = JsSet.has policy.containment_relations r.relation

  abbrev pub is_traversal : RelationshipTuple → Bool
  is_traversal r = JsSet.has (traversal_relations_for policy key) r.relation

  abbrev pub grants_action : RelationshipTuple → Bool
  grants_action r = JsSet.has (grant_relations_for policy key) r.relation

  abbrev pub denies_action : RelationshipTuple → Bool
  denies_action r = JsSet.has (deny_relations_for policy key) r.relation

  -- An edge to an active node that is not the resource.
  abbrev pub Inner : RelationshipTuple → Type 0
  Inner r =
      (r.object_id ≢ resource_id) × (is_active_graph_node_at dates graph r.object_id as_of ≡ true)

  -- An edge may be passed: a membership or a containment that the policy traverses for the action,
  -- the containment only with a grant in hand, or else an edge that grants the action.
  abbrev pub Passes : Bool → RelationshipTuple → Type 0
  Passes flag r =
      ((is_membership r ≡ true) × (is_traversal r ≡ true))
      ⊎ (((is_membership r ≡ false)
            × (is_containment r ≡ true)
            × (is_traversal r ≡ true)
            × (flag ≡ true))
          ⊎ ((is_membership r ≡ false) × (is_containment r ≡ false) × (grants_action r ≡ true)))

  module _ (tenant_ok : RelationshipTuple → Bool) (active : String → List RelationshipTuple)
      (root : String) where
    -- An active edge from a node, inside the tenant.
    abbrev pub Edge : String → RelationshipTuple → Type 0
    Edge u r = In r (active u) × (tenant_ok r ≡ true)

    -- The subject, and what it is a member of, directly or not.
    pub data MemberOf : String → Type 0 where
      self : {v : String} → v ≡ root → MemberOf v
      join :
          {u v : String} (r : RelationshipTuple)
          → MemberOf u
          → Edge u r
          → Inner r
          → is_membership r ≡ true
          → v ≡ r.object_id
          → MemberOf v

    -- The subject, or what it is a member of, is denied the action on the resource.
    pub record ExplicitDeny : Type 0 where
      pub node : String
      pub last : RelationshipTuple
      pub member : MemberOf node
      pub edge : Edge node last
      pub at_resource : last.object_id ≡ resource_id
      pub denied : denies_action last ≡ true

    -- A chain of edges from the subject, the last first, and whether one of them grants the action.
    pub data Chain : String → Bool → List RelationshipTuple → Type 0 where
      from_subject : {v : String} → v ≡ root → Chain v false []
      through :
          {u v : String} {g h : Bool} {t : List RelationshipTuple} (r : RelationshipTuple)
          → Chain u g t
          → Edge u r
          → Inner r
          → Passes g r
          → h ≡ (g || grants_action r)
          → v ≡ r.object_id
          → Chain v h (r ∷ t)

    -- A chain that ends at the resource with an edge that grants the action, or that contains the
    -- resource in a node that is granted.
    pub record GrantPath (path : List RelationshipTuple) : Type 0 where
      pub node : String
      pub flag : Bool
      pub trail : List RelationshipTuple
      pub last : RelationshipTuple
      pub chain : Chain node flag trail
      pub edge : Edge node last
      pub at_resource : last.object_id ≡ resource_id
      pub gives :
          (grants_action last ≡ true)
          ⊎ ((is_containment last ≡ true) × (is_traversal last ≡ true) × (flag ≡ true))
      pub whole : path ≡ reverse (last ∷ trail)
