-- ===== src/Decision/Search/Frontier.antt =====
-- The frontier invariant: a visited node waits in the queue or has all its edges settled. It makes
-- the search complete; the walks of the queue's entries make it sound.
use access_kit.Prelude.{
  String, Bool, true, false, none, some, Option, List, [], ◌∷◌, ◌++◌, ◌≡◌, refl, sym, ap, subst, In,
  All, All-append, inl, inr, ◌⊎◌, Bool-cases, ◌==◌, eq_iff, ◌∙◌,
}
use access_kit.JsMap
use access_kit.JsMap.{JsMap}
use access_kit.Domain.{RelationshipTuple}
use access_kit.Decision.Runtime.Guard.{Guard, record_visited_node}
use access_kit.Decision.Search.{
  Search, Entry, Verdict, goal, skip, visit, Progress, found, halted, running, improves, follow,
  enqueue, judge, offer, scan, within,
}
use access_kit.Decision.Search.Rule.{Holds, scan_rule, offer_rule}
use access_kit.Decision.Search.Fuel.{Any}
use access_kit.Decision.Search.Walks.{Walk, step, Arrival}

-- A node is covered for a grant flag: visited, with the flag where it is wanted.
abbrev pub Covered : JsMap Bool → String → Bool → Type 0
Covered best u h = (g : Bool) × (JsMap.get best u ≡ some g) × (h ≡ true → g ≡ true)

-- An edge with this verdict needs no more work.
abbrev pub Settled : JsMap Bool → RelationshipTuple → Verdict → Type 0
Settled best r goal = ⊥
Settled best r skip = Unit
Settled best r (visit h) = Covered best r.object_id h

abbrev pub Waits : String → Bool → List Entry → Type 0
Waits u g [] = ⊥
Waits u g (e ∷ es) = ((e.current_id ≡ u) × (e.has_action_grant ≡ g)) ⊎ Waits u g es

abbrev pub Grows : JsMap Bool → JsMap Bool → Type 0
Grows best best' = (u : String) (h : Bool) → Covered best u h → Covered best' u h

improves-some : (o : Option Bool) (h g : Bool) → improves o h ≡ true → o ≡ some g → h ≡ true
improves-some none h g better e = cc
improves-some (some true) h g better e = cc
improves-some (some false) h g better e = better

Grows-set :
    (best : JsMap Bool) (v : String) (h : Bool)
    → improves (JsMap.get best v) h ≡ true
    → Grows best (JsMap.set best v h)
Grows-set best v h better u k (g, e, le) = elim (Bool-cases (v == u)) [
  | inl same ↦ (
    h,
    rw (JsMap.get-set best v u h, same),
    λ _. improves-some _ h g better (ap (JsMap.get best) ((eq_iff v u).0 same) ∙ e),
  )
  | inr other ↦ (g, rw (JsMap.get-set best v u h, other) e, le)
]

not-improves-Covered :
    (best : JsMap Bool) (v : String) (h : Bool)
    → improves (JsMap.get best v) h ≡ false
    → Covered best v h
not-improves-Covered best v h stays = cases (JsMap.get best v) refl stays
  where
    cases : (o : Option Bool) → JsMap.get best v ≡ o → improves o h ≡ false → Covered best v h
    cases none e q = absurd (cc)
    cases (some true) e q = (true, e, λ _. refl)
    cases (some false) e q = (false, e, λ t. sym q ∙ t)

Settled-Grows :
    (best best' : JsMap Bool)
    → Grows best best'
    → (r : RelationshipTuple) (v : Verdict) → Settled best r v
    → Settled best' r v
Settled-Grows best best' grow r goal s = s
Settled-Grows best best' grow r skip s = tt
Settled-Grows best best' grow r (visit h) s = grow r.object_id h s

Waits-append_left :
    (u : String) (g : Bool) (es fs : List Entry) → Waits u g es → Waits u g (es ++ fs)
Waits-append_left u g [] fs w = absurd w
Waits-append_left u g (e ∷ es) fs (inl h) = inl h
Waits-append_left u g (e ∷ es) fs (inr w) = inr (Waits-append_left u g es fs w)

Waits-append_right :
    (u : String) (g : Bool) (es fs : List Entry) → Waits u g fs → Waits u g (es ++ fs)
Waits-append_right u g [] fs w = w
Waits-append_right u g (e ∷ es) fs w = inr (Waits-append_right u g es fs w)

module _ (tenant_ok : RelationshipTuple → Bool) (verdict : Bool → RelationshipTuple → Verdict)
    (active : String → List RelationshipTuple) (root : String) where
  abbrev pub WalkTo : Entry → Type 0
  WalkTo e = Walk tenant_ok verdict active root e.current_id e.has_action_grant e.trail

  -- Every edge of the node that the tenant boundary lets through is settled.
  abbrev pub Done : JsMap Bool → String → Bool → Type 0
  Done best u g =
      (r : RelationshipTuple) → In r (active u) → tenant_ok r ≡ true → Settled best r (verdict g r)

  -- Between two rounds.
  pub record Frontier (s : Search) : Type 0 where
    pub walks : All WalkTo s.pending
    pub visited :
        (u : String) (g : Bool)
        → JsMap.get s.best u ≡ some g
        → Waits u g s.pending ⊎ Done s.best u g
    pub rooted : Covered s.best root false

  -- Within a round, for the entry `e` with the edges `rs` left.
  record Turn (e : Entry) (rs : List RelationshipTuple) (s : Search) : Type 0 where
    walks : All WalkTo s.pending
    visited :
        (u : String) (g : Bool)
        → JsMap.get s.best u ≡ some g
        → (Waits u g s.pending ⊎ Done s.best u g) ⊎ ((e.current_id ≡ u) × (e.has_action_grant ≡ g))
    rooted : Covered s.best root false
    own : WalkTo e
    edges : (r : RelationshipTuple) → In r rs → In r (active e.current_id)
    settled :
        (r : RelationshipTuple)
        → In r (active e.current_id)
        → tenant_ok r ≡ true
        → In r rs ⊎ Settled s.best r (verdict e.has_action_grant r)

  -- A turn of the inner loop: the visited nodes grow, and the edge `r` is settled.
  Turn-next :
      (e : Entry) (r : RelationshipTuple) (rs : List RelationshipTuple) (s s' : Search)
      → Turn e (r ∷ rs) s
      → Grows s.best s'.best
      → All WalkTo s'.pending
      → ((u : String) (g : Bool)
          → JsMap.get s'.best u ≡ some g
          → (Waits u g s'.pending ⊎ Done s'.best u g)
            ⊎ ((e.current_id ≡ u) × (e.has_action_grant ≡ g)))
      → (tenant_ok r ≡ true → Settled s'.best r (verdict e.has_action_grant r))
      → Turn e rs s'
  Turn-next e r rs s s' t grow walks visited now = record {
    walks = walks;
    visited = visited;
    rooted = grow root false t.rooted;
    own = t.own;
    edges = λ r' m. t.edges r' (inr m);
    settled = λ r' m ok. elim (t.settled r' m ok) [
      | inl (inl same) ↦ inr (
          subst (λ x. Settled s'.best x (verdict e.has_action_grant x)) (sym same)
            (now (subst (λ x. tenant_ok x ≡ true) same ok)))
      | inl (inr left) ↦ inl left
      | inr done ↦ inr (Settled-Grows s.best s'.best grow r' _ done)
    ];
  }

  Turn-skip :
      (e : Entry) (r : RelationshipTuple) (rs : List RelationshipTuple) (s : Search) (g : Guard)
      → Turn e (r ∷ rs) s
      → (tenant_ok r ≡ true → Settled s.best r (verdict e.has_action_grant r))
      → Turn e rs (record s { guard = g })
  Turn-skip e r rs s g t now =
      Turn-next e r rs s (record s { guard = g }) t (λ u h c. c) t.walks t.visited now

  visited-enqueue :
      (e : Entry) (r : RelationshipTuple) (rs : List RelationshipTuple) (h : Bool) (s : Search)
      → improves (JsMap.get s.best r.object_id) h ≡ true
      → Turn e (r ∷ rs) s
      → (u : String) (g : Bool) → JsMap.get (JsMap.set s.best r.object_id h) u ≡ some g
      → (Waits u g (s.pending ++ follow e r h ∷ []) ⊎ Done (JsMap.set s.best r.object_id h) u g)
        ⊎ ((e.current_id ≡ u) × (e.has_action_grant ≡ g))
  visited-enqueue e r rs h s better t u g q = elim (Bool-cases (r.object_id == u)) [
    | inl same ↦ inl (
        inl (
          Waits-append_right u g s.pending _ (
            inl (
              (eq_iff r.object_id u).0 same,
              cc (rw (JsMap.get-set s.best r.object_id u h, same) at q),
            ))))
    | inr other ↦ elim (t.visited u g (rw (JsMap.get-set s.best r.object_id u h, other) at q)) [
      | inl (inl w) ↦ inl (inl (Waits-append_left u g s.pending _ w))
      | inl (inr d) ↦ inl (
          inr (λ r' m ok.
            Settled-Grows s.best _ (Grows-set s.best r.object_id h better) r' _ (d r' m ok)))
      | inr own ↦ inr own
    ]
  ]

  Turn-enqueue :
      (e : Entry) (r : RelationshipTuple) (rs : List RelationshipTuple) (h : Bool) (s : Search)
      (g : Guard)
      → tenant_ok r ≡ true
      → verdict e.has_action_grant r ≡ visit h
      → improves (JsMap.get s.best r.object_id) h ≡ true
      → Turn e (r ∷ rs) s
      → Turn e rs (record {
        guard = g;
        best = JsMap.set s.best r.object_id h;
        pending = s.pending ++ follow e r h ∷ [];
      })
  Turn-enqueue e r rs h s g ok v better t =
      Turn-next e r rs s _ t (Grows-set s.best r.object_id h better)
        (All-append WalkTo s.pending _ t.walks (step r t.own (t.edges r (inl refl)) ok v refl, tt))
        (visited-enqueue e r rs h s better t)
        (λ _. rw v (
          h,
          rw (
            JsMap.get-set s.best r.object_id r.object_id h,
            (eq_iff r.object_id r.object_id).1 refl,
          ),
          λ q. q,
        ))

  abbrev pub Arrived : List RelationshipTuple → Guard → Type 0
  Arrived p g = Arrival tenant_ok verdict active root p

  Turn-judge :
      (e : Entry) (r : RelationshipTuple) (rs : List RelationshipTuple) (s : Search) (v : Verdict)
      → verdict e.has_action_grant r ≡ v
      → tenant_ok r ≡ true
      → (g : Guard) → Turn e (r ∷ rs) s
      → Holds (Turn e rs) Arrived Any (judge v e r (record s { guard = g }))
  unfolding judge enqueue
  Turn-judge e r rs s goal q ok g t = record {
    node = e.current_id;
    flag = e.has_action_grant;
    trail = e.trail;
    last = r;
    walk = t.own;
    edge = t.edges r (inl refl);
    tenant = ok;
    is_goal = q;
    whole = refl;
  }
  Turn-judge e r rs s skip q ok g t = Turn-skip e r rs s g t (λ _. rw q tt)
  Turn-judge e r rs s (visit h) q ok g t =
      elim (Bool-cases (improves (JsMap.get s.best r.object_id) h)) [
        | inl better ↦ rw better (
            within_any (record_visited_node g r.object_id) _
              (λ g'. Turn-enqueue e r rs h s g' ok q better t))
        | inr stays ↦
            rw stays
              (Turn-skip e r rs s g t (λ _. rw q (not-improves-Covered s.best r.object_id h stays)))
      ]
    where
      within_any :
          (c : Guard × Bool) (k : Guard → Progress)
          → ((g' : Guard) → Holds (Turn e rs) Arrived Any (k g'))
          → Holds (Turn e rs) Arrived Any (within c k)
      within_any (g', true) k h' = h' g'
      within_any (g', false) k h' = tt

  Turn-offer :
      (e : Entry) (r : RelationshipTuple) (rs : List RelationshipTuple) (s : Search)
      → Turn e (r ∷ rs) s
      → Holds (Turn e rs) Arrived Any (offer tenant_ok verdict e r s)
  Turn-offer e r rs s t =
      offer_rule (Turn e rs) Arrived Any (λ g _. tt) tenant_ok verdict e r s
        (λ g _ foreign. Turn-skip e r rs s g t (λ ok. absurd (cc)))
        (λ g _ ok. Turn-judge e r rs s _ refl ok g t)

  Waits-popped :
      (u : String) (g : Bool) (s : Search) (next : Entry) (rest : List Entry)
      → s.pending ≡ next ∷ rest
      → Waits u g s.pending
      → ((next.current_id ≡ u) × (next.has_action_grant ≡ g)) ⊎ Waits u g rest
  Waits-popped u g s next rest e w = subst (Waits u g) e w

  -- Taking the next entry opens a turn with all its edges left.
  Turn-open :
      (s : Search) (next : Entry) (rest : List Entry)
      → Frontier s
      → s.pending ≡ next ∷ rest
      → Turn next (active next.current_id) (record s { pending = rest })
  Turn-open s next rest f e = record {
    walks = (subst (All WalkTo) e f.walks).1;
    visited = λ u g q. elim (f.visited u g q) [
      | inl w ↦ elim (Waits-popped u g s next rest e w) [
        | inl own ↦ inr own
        | inr w' ↦ inl (inl w')
      ]
      | inr d ↦ inl (inr d)
    ];
    rooted = f.rooted;
    own = (subst (All WalkTo) e f.walks).0;
    edges = λ r m. m;
    settled = λ r m ok. inl m;
  }

  -- After its last edge the entry's own node is done.
  Turn-Frontier : (e : Entry) (s : Search) → Turn e [] s → Frontier s
  Turn-Frontier e s t = record {
    walks = t.walks;
    visited = λ u g q. elim (t.visited u g q) [
      | inl known ↦ known
      | inr (same_id, same_flag) ↦ inr (
          subst (λ x. Done s.best x g) same_id
            (subst (λ x. Done s.best e.current_id x) same_flag
              (λ r m ok. elim (t.settled r m ok) [ inl none_left ↦ absurd none_left | inr d ↦ d ])))
    ];
    rooted = t.rooted;
  }

  Holds-map :
      (P P' : Search → Type 0) (F : List RelationshipTuple → Guard → Type 0) (H : Guard → Type 0)
      → ((s : Search) → P s → P' s)
      → (m : Progress) → Holds P F H m
      → Holds P' F H m
  Holds-map P P' F H f (found p g) h = h
  Holds-map P P' F H f (halted g) h = h
  Holds-map P P' F H f (running s) h = f s h

  pub Frontier-scan :
      (s : Search) (next : Entry) (rest : List Entry)
      → Frontier s
      → s.pending ≡ next ∷ rest
      → Holds Frontier Arrived Any
          (scan tenant_ok verdict next (active next.current_id) (record s { pending = rest }))
  Frontier-scan s next rest f e =
      Holds-map (Turn next []) Frontier Arrived Any (Turn-Frontier next) _ (
        scan_rule (Turn next) Arrived Any tenant_ok verdict next (Turn-offer next)
          (active next.current_id) _ (Turn-open s next rest f e))
