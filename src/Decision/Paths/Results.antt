-- ===== src/Decision/Paths/Results.antt =====
-- What a search for a path returns, over a coherent scope and a guard within its bounds.
use mathlib.Core.List.{reverse-cons}
use access_kit.Prelude.{
  String, Bool, Option, none, List, [], ◌∷◌, ◌++◌, reverse, ◌≡◌, ◌≢◌, refl, sym, ap, subst, ◌∙◌,
  ◌⊎◌, inl, inr,
}
use access_kit.Domain.{RelationshipTuple}
use access_kit.Domain.Dates.{Dates}
use access_kit.Store.Graph.{Graph}
use access_kit.Policy.Model.{CompiledPolicyModel}
use access_kit.Decision.Runtime.Guard.{Guard, TraversalBounds}
use access_kit.Decision.Cache.{Scope, active_relationships}
use access_kit.Decision.Cache.Coherence.{IsCoherent, search_in_scope-search}
use access_kit.Decision.Search.{
  Verdict, Outcome, arrived, stopped, exhausted, out_of_fuel, start, search, path_of, guard_of,
}
use access_kit.Decision.Search.Rule.{Exceeded}
use access_kit.Decision.Search.Fuel.{Ends, IsReady}
use access_kit.Decision.Search.Walks.{Arrival}
use access_kit.Decision.Search.Frontier.{Arrived}
use access_kit.Decision.Search.Complete.{IsMonotone, NoArrival, search-Ends}
use access_kit.Decision.Paths.{
  PathResult, TraversalPath, traversal_path, find_path, tenant_test, fuel_for,
}

append-ne-nil : {A : Type 0} (xs : List A) (x : A) → xs ++ x ∷ [] ≢ []
append-ne-nil [] x e = cc
append-ne-nil (y ∷ ys) x e = cc

reverse-cons-ne-nil : {A : Type 0} (x : A) (xs : List A) → reverse (x ∷ xs) ≢ []
reverse-cons-ne-nil x xs e = append-ne-nil (reverse xs) x (sym (reverse-cons x xs) ∙ e)

module _ (dates : Dates) (lower : String → String) (graph : Graph) (policy : CompiledPolicyModel)
    (root_tenant_id : Option String) (as_of : String) (pinned : Option String)
    (verdict : Bool → RelationshipTuple → Verdict) (mono : IsMonotone verdict) (subject_id : String)
    (b : TraversalBounds) where
  abbrev tenant_ok : RelationshipTuple → Bool
  tenant_ok = tenant_test dates lower graph policy root_tenant_id as_of

  abbrev active_now : String → List RelationshipTuple
  active_now = active_relationships dates graph as_of pinned

  abbrev Coherent : Scope → Type 0
  Coherent = IsCoherent dates graph graph.relationship_revision as_of pinned

  -- A path that arrives; or no path, since the guard names a bound; or no path, since none arrives.
  abbrev pub PathEnds : TraversalPath → Guard → Type 0
  PathEnds path g =
      ((p : List RelationshipTuple) × Arrival tenant_ok verdict active_now subject_id p
        × (p ≢ [])
        × (path ≡ traversal_path p)
        × (g.bounds_exceeded ≡ none))
      ⊎ (((path ≡ traversal_path []) × Exceeded g)
          ⊎ ((path ≡ traversal_path [])
              × NoArrival tenant_ok verdict active_now subject_id mono
              × IsReady b g))

  Ends-PathEnds :
      (before : Guard) (o : Outcome)
      → Ends b
          (Arrived tenant_ok verdict active_now subject_id)
          (NoArrival tenant_ok verdict active_now subject_id mono)
          o
      → PathEnds (traversal_path (path_of o)) (guard_of before o)
  unfolding path_of guard_of
  Ends-PathEnds before (arrived p g) h =
      inl (p, h.0, (λ e. reverse-cons-ne-nil h.0.last h.0.trail (sym h.0.whole ∙ e)), refl, h.1)
  Ends-PathEnds before (stopped g) h = inr (inl (refl, h))
  Ends-PathEnds before (exhausted g) h = inr (inr (refl, h.0, h.1))
  Ends-PathEnds before out_of_fuel h = absurd h

  abbrev searched : Scope → Guard → PathResult
  searched scope g =
      find_path dates lower graph policy root_tenant_id as_of verdict scope g subject_id

  -- The scope is left coherent.
  pub find_path-IsCoherent :
      (scope : Scope) (g : Guard) → Coherent scope → Coherent (searched scope g).scope
  unfolding find_path
  find_path-IsCoherent scope g coherent =
      (search_in_scope-search dates graph graph.relationship_revision as_of pinned tenant_ok verdict
        (fuel_for g) scope (start subject_id g) coherent).1

  -- The path and the guard are those of the search over the graph.
  pub find_path-same :
      (scope scope' : Scope) (g : Guard)
      → Coherent scope
      → Coherent scope'
      → ((searched scope g).path ≡ (searched scope' g).path)
        × ((searched scope g).guard ≡ (searched scope' g).guard)
  unfolding find_path
  find_path-same scope scope' g h h' =
      let outcome = λ (t : Scope) (k : Coherent t).
        (search_in_scope-search dates graph graph.relationship_revision as_of pinned tenant_ok
          verdict (fuel_for g) t (start subject_id g) k).0 in
      let same = outcome scope h ∙ sym (outcome scope' h') in
      (ap (λ o. traversal_path (path_of o)) same, ap (guard_of g) same)

  pub find_path-PathEnds :
      (scope : Scope) (g : Guard)
      → Coherent scope
      → IsReady b g
      → PathEnds (searched scope g).path (searched scope g).guard
  unfolding find_path
  find_path-PathEnds scope g coherent ready = Ends-PathEnds g _ (
      rw
        (search_in_scope-search dates graph graph.relationship_revision as_of pinned tenant_ok
          verdict (fuel_for g) scope (start subject_id g) coherent).0
        (subst
          (λ b'.
            Ends b' (Arrived tenant_ok verdict active_now subject_id)
              (NoArrival tenant_ok verdict active_now subject_id mono)
              (search tenant_ok verdict active_now (fuel_for g) (start subject_id g)))
          ready.same_bounds
          (search-Ends tenant_ok verdict active_now subject_id mono g.bounds g
            (subst (λ b'. IsReady b' g) (sym ready.same_bounds) ready))))
