-- ===== src/Decision/Search/Walks.antt =====
-- What a path is, independently of the search: a walk along active edges that the tenant boundary
-- and the policy let through, and the edge that ends it.
use access_kit.Prelude.{String, Bool, true, false, List, [], ◌∷◌, reverse, ◌≡◌, In}
use access_kit.Domain.{RelationshipTuple}
use access_kit.Decision.Search.{Verdict, goal, visit}

module _ (tenant_ok : RelationshipTuple → Bool) (verdict : Bool → RelationshipTuple → Verdict)
    (active : String → List RelationshipTuple) (root : String) where
  -- A walk from the root to a node: the grant flag that it carries, and its edges, the last first.
  pub data Walk : String → Bool → List RelationshipTuple → Type 0 where
    here : {v : String} → v ≡ root → Walk v false []
    step :
        {u v : String} {g h : Bool} {t : List RelationshipTuple} (r : RelationshipTuple)
        → Walk u g t
        → In r (active u)
        → tenant_ok r ≡ true
        → verdict g r ≡ visit h
        → v ≡ r.object_id
        → Walk v h (r ∷ t)

  -- A path that arrives: a walk, and an edge that is a goal under the walk's flag.
  pub record Arrival (path : List RelationshipTuple) : Type 0 where
    pub node : String
    pub flag : Bool
    pub trail : List RelationshipTuple
    pub last : RelationshipTuple
    pub walk : Walk node flag trail
    pub edge : In last (active node)
    pub tenant : tenant_ok last ≡ true
    pub is_goal : verdict flag last ≡ goal
    pub whole : path ≡ reverse (last ∷ trail)
