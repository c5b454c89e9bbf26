-- ===== src/Decision/Cache/Coherence.antt =====
-- The cache changes no answer: a scope that holds what the graph gives is kept so, and a search over
-- it is the search over the graph.
use access_kit.Prelude.{
  ℕ, suc, zero, String, Bool, Option, none, some, List, ◌≡◌, refl, ap, ◌∙◌, subst, fun_ext,
  filter_by, ◌otherwise◌, ◌==◌, eq_iff, inl, inr, Option-cases, List-cases, Bool-cases,
}
use access_kit.JsMap
use access_kit.Domain.{RelationshipTuple, CanonicalId}
use access_kit.Domain.Dates.{Dates}
use access_kit.Store.Graph.{Graph, list_relationships_for_subject}
use access_kit.Decision.Visibility.{is_active_relationship_at}
use access_kit.Decision.Search.{
  Search, Verdict, Outcome, arrived, stopped, Progress, found, halted, running, search,
}
use access_kit.Decision.Cache.{
  Scope, active_relationships, active_relationships_for_subject, search_in_scope,
}

-- A missing pin and an empty one are the same.
is_active_relationship_at-pin :
    (dates : Dates) (r : RelationshipTuple) (as_of : String) (p q : Option String)
    → (p otherwise "") ≡ (q otherwise "")
    → is_active_relationship_at dates r as_of p ≡ is_active_relationship_at dates r as_of q
unfolding is_active_relationship_at
is_active_relationship_at-pin dates r as_of none none e = refl
is_active_relationship_at-pin dates r as_of none (some q) e = rw (← e)
is_active_relationship_at-pin dates r as_of (some p) none e = rw e
is_active_relationship_at-pin dates r as_of (some p) (some q) e = rw e

active_relationships-pin :
    (dates : Dates) (graph : Graph) (as_of : String) (p q : Option String)
    → (p otherwise "") ≡ (q otherwise "")
    → active_relationships dates graph as_of p ≡ active_relationships dates graph as_of q
unfolding active_relationships
active_relationships-pin dates graph as_of p q e =
    ap {B = String → List RelationshipTuple}
      (λ f id. filter_by f (list_relationships_for_subject graph id))
      (fun_ext (λ r. is_active_relationship_at-pin dates r as_of p q e))

module _ (dates : Dates) (graph : Graph) (revision : ℕ) (as_of : String)
    (pinned : Option String) where
  abbrev active_now : CanonicalId → List RelationshipTuple
  active_now = active_relationships dates graph as_of pinned

  -- A scope of this revision, time and version that holds nothing but what the graph gives.
  pub record IsCoherent (scope : Scope) : Type 0 where
    pub same_revision : scope.revision ≡ revision
    pub same_time : scope.as_of ≡ as_of
    pub same_version : (scope.pinned_tuple_version otherwise "") ≡ (pinned otherwise "")
    pub right :
        (id : CanonicalId) (rs : List RelationshipTuple)
        → JsMap.get scope.by_subject id ≡ some rs
        → rs ≡ active_now id

  abbrev Served : CanonicalId → List RelationshipTuple × Scope → Type 0
  Served id r = (r.0 ≡ active_now id) × IsCoherent r.1

  IsCoherent-set :
      (scope : Scope) (id : CanonicalId) (active : List RelationshipTuple)
      → active ≡ active_now id
      → IsCoherent scope
      → IsCoherent (record scope { by_subject = JsMap.set scope.by_subject id active })
  IsCoherent-set scope id active right h = record {
    same_revision = h.same_revision;
    same_time = h.same_time;
    same_version = h.same_version;
    right = λ j rs q. elim (Bool-cases (id == j)) [
      | inl same ↦
          subst (λ k. rs ≡ active_now k) ((eq_iff id j).0 same)
            (cc (right, rw (JsMap.get-set scope.by_subject id j active, same) at q))
      | inr other ↦ h.right j rs (rw (JsMap.get-set scope.by_subject id j active, other) at q)
    ];
  }

  active_relationships_for_subject-Served :
      (scope : Scope) (id : CanonicalId)
      → IsCoherent scope
      → Served id (active_relationships_for_subject dates graph scope id)
  unfolding active_relationships_for_subject
  active_relationships_for_subject-Served scope id h =
      elim (Option-cases (JsMap.get scope.by_subject id)) [
        | inr (rs, e) ↦ rw (e, active_relationships_for_subject) (h.right id rs e, h)
        | inl e ↦
            rw (e, active_relationships_for_subject) (fresh, IsCoherent-set scope id _ fresh h)
      ]
    where
      fresh :
          active_relationships dates graph scope.as_of scope.pinned_tuple_version id ≡ active_now id
      fresh =
          ap (λ t. active_relationships dates graph t scope.pinned_tuple_version id) h.same_time
          ∙ ap (λ (f : String → List RelationshipTuple). f id)
              (active_relationships-pin dates graph as_of scope.pinned_tuple_version pinned
                h.same_version)

  module _ (tenant_ok : RelationshipTuple → Bool)
      (verdict : Bool → RelationshipTuple → Verdict) where
    abbrev SameAnswer : Outcome × Scope → Outcome → Type 0
    SameAnswer r o = (r.0 ≡ o) × IsCoherent r.1

    next_round :
        (fuel : ℕ) (scope : Scope) (m : Progress)
        → IsCoherent scope
        → ((s : Search)
            → SameAnswer
                (search_in_scope dates graph tenant_ok verdict fuel scope s)
                (search tenant_ok verdict active_now fuel s))
        → SameAnswer
            (elim m [
              | found p g ↦ (arrived p g, scope)
              | halted g ↦ (stopped g, scope)
              | running s' ↦ search_in_scope dates graph tenant_ok verdict fuel scope s'
            ])
            (elim m [
              | found p g ↦ arrived p g
              | halted g ↦ stopped g
              | running s' ↦ search tenant_ok verdict active_now fuel s'
            ])
    next_round fuel scope (found p g) h again = (refl, h)
    next_round fuel scope (halted g) h again = (refl, h)
    next_round fuel scope (running s) h again = again s

    -- Over a coherent scope the search is the search over the graph, and the scope stays coherent.
    pub search_in_scope-search :
        (fuel : ℕ) (scope : Scope) (s : Search)
        → IsCoherent scope
        → SameAnswer
            (search_in_scope dates graph tenant_ok verdict fuel scope s)
            (search tenant_ok verdict active_now fuel s)
    unfolding search_in_scope search
    search_in_scope-search zero scope s h = elim (List-cases s.pending) [
      | inl e ↦ rw (e, search, search_in_scope) (refl, h)
      | inr (next, rest, e) ↦ rw (e, search, search_in_scope) (refl, h)
    ]
    search_in_scope-search (suc fuel) scope s h = elim (List-cases s.pending) [
      | inl e ↦ rw (e, search, search_in_scope) (refl, h)
      | inr (next, rest, e) ↦
          let served = active_relationships_for_subject-Served scope next.current_id h in
          rw (e, search, search_in_scope, served.0)
            (next_round fuel _ _ served.1 (λ s'. search_in_scope-search fuel _ s' served.1))
    ]

-- Coherence turns on the pin no further than the activity of relationships does.
pub IsCoherent-pin :
    (dates : Dates) (graph : Graph) (revision : ℕ) (as_of : String) (p q : Option String)
    → (p otherwise "") ≡ (q otherwise "")
    → (s : Scope) → IsCoherent dates graph revision as_of p s
    → IsCoherent dates graph revision as_of q s
IsCoherent-pin dates graph revision as_of p q e s h = record {
  same_revision = h.same_revision;
  same_time = h.same_time;
  same_version = h.same_version ∙ e;
  right = λ id rs k.
      h.right id rs k
      ∙ ap (λ (f : String → List RelationshipTuple). f id)
          (active_relationships-pin dates graph as_of p q e);
}
