-- ===== src/Decision/Engine/Edges.antt =====
-- The two verdicts on an edge, read as the specification reads edges, and the walks of the searches
-- as chains.
use access_kit.Prelude.{
  String, Bool, true, false, ◌||◌, List, [], ◌∷◌, reverse, ◌≡◌, refl, ◌⊎◌, arith, eq_iff,
}
use access_kit.Domain.{RelationshipTuple}
use access_kit.Domain.Dates.{Dates}
use access_kit.Store.Graph.{Graph}
use access_kit.Policy.Model.{CompiledPolicyModel}
use access_kit.Decision.Search.{Verdict, goal, visit}
use access_kit.Decision.Search.Walks.{Walk, here, step, Arrival}
use access_kit.Decision.Search.Complete.{IsMonotone}
use access_kit.Decision.Paths.{
  allow_verdict, deny_verdict, can_traverse_relationship, can_traverse_deny_relationship,
}
use access_kit.Decision.Engine.Spec.{
  MemberOf, self, join, ExplicitDeny, Passes, Inner, Chain, from_subject, through, GrantPath,
  is_membership, is_containment, is_traversal, grants_action, denies_action,
}

module _ (dates : Dates) (graph : Graph) (policy : CompiledPolicyModel)
    (as_of resource_id key : String) where
  abbrev pub allow_of : Bool → RelationshipTuple → Verdict
  allow_of = allow_verdict dates graph policy as_of resource_id key

  abbrev pub deny_of : Bool → RelationshipTuple → Verdict
  deny_of = deny_verdict dates graph policy as_of resource_id key

  pub allow_verdict-IsMonotone : IsMonotone allow_of
  unfolding allow_verdict can_traverse_relationship
  allow_verdict-IsMonotone r = ground arith

  pub deny_verdict-IsMonotone : IsMonotone deny_of
  unfolding deny_verdict
  deny_verdict-IsMonotone r = ground arith

  abbrev Leading : Bool → Bool → RelationshipTuple → Type 0
  Leading g h r =
      Inner dates graph policy as_of resource_id key r
      × Passes dates graph policy as_of resource_id key g r
      × (h ≡ (g || grants_action dates graph policy as_of resource_id key r))

  allow_visit : (g h : Bool) (r : RelationshipTuple) → allow_of g r ≡ visit h → Leading g h r
  unfolding allow_verdict can_traverse_relationship
  allow_visit g h r q = ground (arith, eq_iff r.object_id resource_id)

  visit_allow : (g h : Bool) (r : RelationshipTuple) → Leading g h r → allow_of g r ≡ visit h
  unfolding allow_verdict can_traverse_relationship
  visit_allow g h r q = ground (arith, eq_iff r.object_id resource_id)

  abbrev Giving : Bool → RelationshipTuple → Type 0
  Giving g r =
      (r.object_id ≡ resource_id)
      × ((grants_action dates graph policy as_of resource_id key r ≡ true)
          ⊎ ((is_containment dates graph policy as_of resource_id key r ≡ true)
              × (is_traversal dates graph policy as_of resource_id key r ≡ true)
              × (g ≡ true)))

  allow_goal : (g : Bool) (r : RelationshipTuple) → allow_of g r ≡ goal → Giving g r
  unfolding allow_verdict can_traverse_relationship
  allow_goal g r q = ground (arith, eq_iff r.object_id resource_id)

  goal_allow : (g : Bool) (r : RelationshipTuple) → Giving g r → allow_of g r ≡ goal
  unfolding allow_verdict can_traverse_relationship
  goal_allow g r q = ground (arith, eq_iff r.object_id resource_id)

  visit_deny :
      (r : RelationshipTuple)
      → Inner dates graph policy as_of resource_id key r
      → is_membership dates graph policy as_of resource_id key r ≡ true
      → deny_of false r ≡ visit false
  unfolding deny_verdict can_traverse_deny_relationship
  visit_deny r inner member = ground (arith, eq_iff r.object_id resource_id)

  deny_visit :
      (g h : Bool) (r : RelationshipTuple)
      → deny_of g r ≡ visit h
      → Inner dates graph policy as_of resource_id key r
        × (is_membership dates graph policy as_of resource_id key r ≡ true)
        × (h ≡ false)
  unfolding deny_verdict can_traverse_deny_relationship
  deny_visit g h r q = ground (arith, eq_iff r.object_id resource_id)

  goal_deny :
      (g : Bool) (r : RelationshipTuple)
      → r.object_id ≡ resource_id
      → denies_action dates graph policy as_of resource_id key r ≡ true
      → deny_of g r ≡ goal
  unfolding deny_verdict
  goal_deny g r at denied = ground (arith, eq_iff r.object_id resource_id)

  deny_goal :
      (g : Bool) (r : RelationshipTuple)
      → deny_of g r ≡ goal
      → (r.object_id ≡ resource_id)
        × (denies_action dates graph policy as_of resource_id key r ≡ true)
  unfolding deny_verdict
  deny_goal g r q = ground (arith, eq_iff r.object_id resource_id)

  module _ (tenant_ok : RelationshipTuple → Bool) (active : String → List RelationshipTuple)
      (root : String) where
    MemberOf-Walk :
        {u : String}
        → MemberOf dates graph policy as_of resource_id key tenant_ok active root u
        → (t : List RelationshipTuple) × Walk tenant_ok deny_of active root u false t
    MemberOf-Walk (self at_root) = ([], here at_root)
    MemberOf-Walk (join r m edge inner member at) =
        let (t, w) = MemberOf-Walk m in
        (r ∷ t, step r w edge.0 edge.1 (visit_deny r inner member) at)

    -- A denial is a path that the deny search looks for.
    pub ExplicitDeny-Arrival :
        (d : ExplicitDeny dates graph policy as_of resource_id key tenant_ok active root)
        → (p : List RelationshipTuple) × Arrival tenant_ok deny_of active root p
    ExplicitDeny-Arrival d =
        let (t, w) = MemberOf-Walk d.member in
        (
          reverse (d.last ∷ t),
          record {
            node = d.node;
            flag = false;
            trail = t;
            last = d.last;
            walk = w;
            edge = d.edge.0;
            tenant = d.edge.1;
            is_goal = goal_deny false d.last d.at_resource d.denied;
            whole = refl;
          },
        )

    Walk-MemberOf :
        {u : String} {g : Bool} {t : List RelationshipTuple}
        → Walk tenant_ok deny_of active root u g t
        → MemberOf dates graph policy as_of resource_id key tenant_ok active root u
    Walk-MemberOf (here at_root) = self at_root
    Walk-MemberOf (step {u} {v} {g} {h} r w m ok q at) =
        let (inner, member, _) = deny_visit g h r q in
        join r (Walk-MemberOf w) (m, ok) inner member at

    -- What the deny search finds is a denial.
    pub Arrival-ExplicitDeny :
        (p : List RelationshipTuple)
        → Arrival tenant_ok deny_of active root p
        → ExplicitDeny dates graph policy as_of resource_id key tenant_ok active root
    Arrival-ExplicitDeny p a =
        let (at, denied) = deny_goal a.flag a.last a.is_goal in
        record {
          node = a.node;
          last = a.last;
          member = Walk-MemberOf a.walk;
          edge = (a.edge, a.tenant);
          at_resource = at;
          denied = denied;
        }

    Walk-Chain :
        {u : String} {g : Bool} {t : List RelationshipTuple}
        → Walk tenant_ok allow_of active root u g t
        → Chain dates graph policy as_of resource_id key tenant_ok active root u g t
    Walk-Chain (here at_root) = from_subject at_root
    Walk-Chain (step {u} {v} {g} {h} r w m ok q at) =
        let (inner, passes, flag) = allow_visit g h r q in
        through r (Walk-Chain w) (m, ok) inner passes flag at

    Chain-Walk :
        {u : String} {g : Bool} {t : List RelationshipTuple}
        → Chain dates graph policy as_of resource_id key tenant_ok active root u g t
        → Walk tenant_ok allow_of active root u g t
    Chain-Walk (from_subject at_root) = here at_root
    Chain-Walk (through {u} {v} {g} {h} r c edge inner passes flag at) =
        step r (Chain-Walk c) edge.0 edge.1 (visit_allow g h r (inner, passes, flag)) at

    -- What the allow search finds is a grant path.
    pub Arrival-GrantPath :
        (p : List RelationshipTuple)
        → Arrival tenant_ok allow_of active root p
        → GrantPath dates graph policy as_of resource_id key tenant_ok active root p
    Arrival-GrantPath p a =
        let (at, gives) = allow_goal a.flag a.last a.is_goal in
        record {
          node = a.node;
          flag = a.flag;
          trail = a.trail;
          last = a.last;
          chain = Walk-Chain a.walk;
          edge = (a.edge, a.tenant);
          at_resource = at;
          gives = gives;
          whole = a.whole;
        }

    -- A grant path is a path that the allow search looks for.
    pub GrantPath-Arrival :
        (p : List RelationshipTuple)
        → GrantPath dates graph policy as_of resource_id key tenant_ok active root p
        → Arrival tenant_ok allow_of active root p
    GrantPath-Arrival p d = record {
      node = d.node;
      flag = d.flag;
      trail = d.trail;
      last = d.last;
      walk = Chain-Walk d.chain;
      edge = d.edge.0;
      tenant = d.edge.1;
      is_goal = goal_allow d.flag d.last (d.at_resource, d.gives);
      whole = d.whole;
    }
