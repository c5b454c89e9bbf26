-- ===== src/Decision/Search/Complete.antt =====
-- The search as a whole: it finds a path that arrives, or stops at a bound, or no path arrives.
use access_kit.Prelude.{
  suc, String, Bool, true, false, some, List, [], ◌∷◌, ◌≡◌, refl, sym, subst, In, inl, inr, ◌⊎◌,
  arith, eq_iff,
}
use access_kit.JsMap
use access_kit.Domain.{RelationshipTuple}
use access_kit.Decision.Runtime.Guard.{Guard, TraversalBounds}
use access_kit.Decision.Search.{Search, Verdict, goal, skip, visit, search, start}
use access_kit.Decision.Search.Rule.{Spent}
use access_kit.Decision.Search.Fuel.{Ends, IsReady, search_rule}
use access_kit.Decision.Search.Walks.{Walk, here, step, Arrival}
use access_kit.Decision.Search.Frontier.{Covered, Settled, Frontier, Frontier-scan, Arrived, Waits}

-- With a grant an edge leads at least as far as without one.
abbrev pub Leads : Verdict → Verdict → Type 0
Leads goal v = v ≡ goal
Leads skip v = Unit
Leads (visit h) v = (v ≡ goal) ⊎ ((h' : Bool) × (v ≡ visit h') × (h ≡ true → h' ≡ true))

abbrev pub IsMonotone : (Bool → RelationshipTuple → Verdict) → Type 0
IsMonotone verdict = (r : RelationshipTuple) → Leads (verdict false r) (verdict true r)

Leads-refl : (v : Verdict) → Leads v v
Leads-refl goal = refl
Leads-refl skip = tt
Leads-refl (visit h) = inr (h, refl, λ q. q)

flags-Leads :
    (verdict : Bool → RelationshipTuple → Verdict)
    → IsMonotone verdict
    → (g g' : Bool) (r : RelationshipTuple) → (g ≡ true → g' ≡ true)
    → Leads (verdict g r) (verdict g' r)
flags-Leads verdict mono false false r le = Leads-refl _
flags-Leads verdict mono false true r le = mono r
flags-Leads verdict mono true true r le = Leads-refl _
flags-Leads verdict mono true false r le = absurd (cc (le refl))

module _ (tenant_ok : RelationshipTuple → Bool) (verdict : Bool → RelationshipTuple → Verdict)
    (active : String → List RelationshipTuple) (root : String) (mono : IsMonotone verdict) where
  at-Settled :
      (s : Search)
      → Frontier tenant_ok verdict active root s
      → s.pending ≡ []
      → (u : String) (g : Bool) → JsMap.get s.best u ≡ some g
      → (r : RelationshipTuple) → In r (active u)
      → tenant_ok r ≡ true
      → Settled s.best r (verdict g r)
  at-Settled s f e u g q r m ok = elim (f.visited u g q) [
    | inl w ↦ absurd (subst (Waits u g) e w)
    | inr d ↦ d r m ok
  ]

  -- A settled edge under a better flag settles what it leads to under the worse one.
  Leads-Covered :
      (s : Search) (r : RelationshipTuple) (h : Bool) (v v' : Verdict)
      → v ≡ visit h
      → Leads v v'
      → Settled s.best r v'
      → Covered s.best r.object_id h
  Leads-Covered s r h goal v' q leads d = absurd (cc)
  Leads-Covered s r h skip v' q leads d = absurd (cc)
  Leads-Covered s r h (visit k) v' q (inl arrives) d = absurd (subst (Settled s.best r) arrives d)
  Leads-Covered s r h (visit k) v' q (inr (k', q', le)) d =
      let (g, e, le') = subst (Settled s.best r) q' d in (g, e, λ t. le' (le (cc)))

  not-goal_of_Leads :
      (s : Search) (r : RelationshipTuple) (v v' : Verdict)
      → v ≡ goal
      → Leads v v'
      → Settled s.best r v'
      → ⊥
  not-goal_of_Leads s r goal v' q leads d = subst (Settled s.best r) leads d
  not-goal_of_Leads s r skip v' q leads d = cc
  not-goal_of_Leads s r (visit k) v' q leads d = cc

  Walk-Covered :
      (s : Search)
      → Frontier tenant_ok verdict active root s
      → s.pending ≡ []
      → {u : String} {g : Bool} {t : List RelationshipTuple}
      → Walk tenant_ok verdict active root u g t
      → Covered s.best u g
  Walk-Covered s f e (here at_root) = subst (λ v. Covered s.best v false) (sym at_root) f.rooted
  Walk-Covered s f e (step {u} {v} {g} {h} r w m ok q at) =
      let (g', known, le) = Walk-Covered s f e w in
      subst (λ x. Covered s.best x h) (sym at)
        (Leads-Covered s r h (verdict g r) (verdict g' r) q (flags-Leads verdict mono g g' r le)
          (at-Settled s f e u g' known r m ok))

  abbrev pub NoArrival : Type 0
  NoArrival = (p : List RelationshipTuple) → Arrival tenant_ok verdict active root p → ⊥

  NoArrival_of_Frontier :
      (s : Search) → Frontier tenant_ok verdict active root s → s.pending ≡ [] → NoArrival
  NoArrival_of_Frontier s f e p a =
      let (g', known, le) = Walk-Covered s f e a.walk in
      not-goal_of_Leads s a.last (verdict a.flag a.last) (verdict g' a.last) a.is_goal
        (flags-Leads verdict mono a.flag g' a.last le)
        (at-Settled s f e a.node g' known a.last a.edge a.tenant)

  visited_at_start :
      (u : String) (h : Bool) → JsMap.get ((root, false) ∷ []) u ≡ some h → (root ≡ u) × (false ≡ h)
  unfolding JsMap.get
  visited_at_start u h q = ground (arith, eq_iff root u)

  rooted_at_start : JsMap.get ((root, false) ∷ []) root ≡ some false
  unfolding JsMap.get
  rooted_at_start = rw ((eq_iff root root).1 refl, JsMap.get)

  start-Frontier : (g : Guard) → Frontier tenant_ok verdict active root (start root g)
  unfolding start
  start-Frontier g = record {
    walks = (here refl, tt);
    visited = λ u h q. inl (inl (visited_at_start u h q));
    rooted = (false, rooted_at_start, λ q. q);
  }

  start-Spent :
      (b : TraversalBounds) (g : Guard)
      → IsReady b g
      → Spent b (suc b.max_relationship_scans) (start root g)
  unfolding start
  start-Spent b g h = record {
    same_bounds = h.same_bounds;
    unexceeded = h.unexceeded;
    scans_in = h.scans_in;
    paid = omega arith;
  }

  -- With a round of fuel for each scan that the bounds allow, and one more, the search ends: with a
  -- path that arrives, at a bound that it names, or with the knowledge that no path arrives.
  pub search-Ends :
      (b : TraversalBounds) (g : Guard)
      → IsReady b g
      → Ends b
          (Arrived tenant_ok verdict active root)
          NoArrival
          (search tenant_ok verdict active (suc b.max_relationship_scans) (start root g))
  search-Ends b g h =
      search_rule tenant_ok verdict active b (Frontier tenant_ok verdict active root)
        (Arrived tenant_ok verdict active root) NoArrival
        (λ s next rest f e. Frontier-scan tenant_ok verdict active root s next rest f e)
        (λ s f e. NoArrival_of_Frontier s f e) (suc b.max_relationship_scans) (start root g)
        (start-Spent b g h) (start-Frontier g)
