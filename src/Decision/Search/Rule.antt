-- ===== src/Decision/Search/Rule.antt =====
-- The invariant rule of the search's inner loop, and what one turn does to the guard.
use access_kit.Prelude.{
  ℕ, suc, ◌+◌, ◌-◌, ◌≤◌, Bool, true, false, none, List, [], ◌∷◌, ◌≡◌, ◌≢◌, inl, inr, ◌⊎◌, arith,
  Bool-cases, length, length-append,
}
use access_kit.Domain.{RelationshipTuple}
use access_kit.Decision.Runtime.Guard.{
  Guard, TraversalBounds, record_relationship_scan, record_depth, record_visited_node,
}
use access_kit.Decision.Search.{
  Entry, Search, Verdict, goal, skip, visit, Progress, found, halted, running, within, follow,
  enqueue, judge, offer, scan, weigh, admit,
}

-- A property of each way in which a turn of the inner loop can end.
abbrev pub Holds :
    (Search → Type 0)
    → (List RelationshipTuple → Guard → Type 0)
    → (Guard → Type 0)
    → Progress
    → Type 0
Holds P F H (found p g) = F p g
Holds P F H (halted g) = H g
Holds P F H (running s) = P s

module _ (P : List RelationshipTuple → Search → Type 0)
    (F : List RelationshipTuple → Guard → Type 0) (H : Guard → Type 0)
    (tenant_ok : RelationshipTuple → Bool) (verdict : Bool → RelationshipTuple → Verdict)
    (e : Entry) where
  scan_step :
      (rs : List RelationshipTuple) (m : Progress)
      → ((s : Search) → P rs s → Holds (P []) F H (scan tenant_ok verdict e rs s))
      → Holds (P rs) F H m
      → Holds (P []) F H (elim m [
        | found p g ↦ found p g
        | halted g ↦ halted g
        | running s' ↦ scan tenant_ok verdict e rs s'
      ])
  scan_step rs (found p g) later h = h
  scan_step rs (halted g) later h = h
  scan_step rs (running s) later h = later s h

  -- What every turn keeps, of the search and of the edges that are left, the inner loop keeps.
  pub scan_rule :
      ((r : RelationshipTuple) (rs : List RelationshipTuple) (s : Search)
        → P (r ∷ rs) s
        → Holds (P rs) F H (offer tenant_ok verdict e r s))
      → (rs : List RelationshipTuple) (s : Search) → P rs s
      → Holds (P []) F H (scan tenant_ok verdict e rs s)
  unfolding scan
  scan_rule keep [] s h = h
  scan_rule keep (r ∷ rs) s h =
      scan_step rs (offer tenant_ok verdict e r s) (λ s' h'. scan_rule keep rs s' h')
        (keep r rs s h)

abbrev pub Exceeded : Guard → Type 0
Exceeded g = g.bounds_exceeded ≢ none

-- A check of the guard passes and leaves it in `S`, or fails and names a bound.
abbrev Checked : (Guard → Type 0) → Guard × Bool → Type 0
Checked S c = ((c.1 ≡ true) × S c.0) ⊎ ((c.1 ≡ false) × Exceeded c.0)

-- A scan and a depth were counted, and nothing else happened to the guard.
pub record Scanned (before after : Guard) : Type 0 where
  pub same_bounds : after.bounds ≡ before.bounds
  pub same_exceeded : after.bounds_exceeded ≡ before.bounds_exceeded
  pub same_visited : after.visited_nodes ≡ before.visited_nodes
  pub one_more : after.relationship_scans ≡ suc before.relationship_scans
  pub scans_in : after.relationship_scans ≤ before.bounds.max_relationship_scans

record_relationship_scan-Checked : (g : Guard) → Checked (Scanned g) (record_relationship_scan g)
unfolding record_relationship_scan
record_relationship_scan-Checked g = ground arith

record_depth-Checked :
    (g0 g : Guard) (d : ℕ) → Scanned g0 g → Checked (Scanned g0) (record_depth g d)
unfolding record_depth
record_depth-Checked g0 g d h = ground arith

module _ (P : Search → Type 0) (F : List RelationshipTuple → Guard → Type 0) (H : Guard → Type 0)
    (halt : (g : Guard) → Exceeded g → H g) where
  within_rule :
      (S : Guard → Type 0) (c : Guard × Bool) (k : Guard → Progress)
      → Checked S c
      → ((g : Guard) → S g → Holds P F H (k g))
      → Holds P F H (within c k)
  within_rule S (g, true) k (inl (t, h)) next = next g h
  within_rule S (g, true) k (inr (f, h)) next = absurd (cc)
  within_rule S (g, false) k (inl (t, h)) next = absurd (cc)
  within_rule S (g, false) k (inr (f, h)) next = halt g h

  module _ (tenant_ok : RelationshipTuple → Bool) (verdict : Bool → RelationshipTuple → Verdict)
      (e : Entry) (r : RelationshipTuple) (s : Search) where
    -- One turn of the inner loop: a halt names a bound, and otherwise the edge is passed over for
    -- its tenant or judged.
    pub offer_rule :
        ((g : Guard) → Scanned s.guard g → tenant_ok r ≡ false → P (record s { guard = g }))
        → ((g : Guard)
            → Scanned s.guard g
            → tenant_ok r ≡ true
            → Holds P F H (weigh tenant_ok verdict e r s g))
        → Holds P F H (offer tenant_ok verdict e r s)
    unfolding offer
    offer_rule foreign ours =
        within_rule (Scanned s.guard) _ (admit tenant_ok verdict e r s)
          (record_relationship_scan-Checked s.guard)
          (λ g h. elim (Bool-cases (tenant_ok r)) [
            | inl t ↦ rw t (
                within_rule (Scanned s.guard) _ (weigh tenant_ok verdict e r s)
                  (record_depth-Checked s.guard g (suc e.depth) h) (λ g' h'. ours g' h' t))
            | inr f ↦ rw f (foreign g h f)
          ])

-- While the search runs, no bound has been passed, and each entry of the queue is paid for by a scan.
pub record Spent (b : TraversalBounds) (n : ℕ) (s : Search) : Type 0 where
  pub same_bounds : s.guard.bounds ≡ b
  pub unexceeded : s.guard.bounds_exceeded ≡ none
  pub scans_in : s.guard.relationship_scans ≤ b.max_relationship_scans
  pub paid : b.max_relationship_scans - s.guard.relationship_scans + length s.pending ≤ n

abbrev pub Unexceeded : List RelationshipTuple → Guard → Type 0
Unexceeded p g = g.bounds_exceeded ≡ none

module _ (b : TraversalBounds) (n : ℕ) where
  enqueue-Spent :
      (e : Entry) (r : RelationshipTuple) (grant : Bool) (s : Search)
      → s.guard.bounds ≡ b
      → s.guard.bounds_exceeded ≡ none
      → s.guard.relationship_scans ≤ b.max_relationship_scans
      → suc (b.max_relationship_scans - s.guard.relationship_scans + length s.pending) ≤ n
      → Holds (Spent b n) Unexceeded Exceeded (enqueue e r grant s)
  unfolding enqueue record_visited_node
  enqueue-Spent e r grant s hb hx hs hp =
      ground (arith, length-append s.pending (follow e r grant ∷ []))

  judge-Spent :
      (v : Verdict) (e : Entry) (r : RelationshipTuple) (s : Search)
      → s.guard.bounds ≡ b
      → s.guard.bounds_exceeded ≡ none
      → s.guard.relationship_scans ≤ b.max_relationship_scans
      → suc (b.max_relationship_scans - s.guard.relationship_scans + length s.pending) ≤ n
      → Holds (Spent b n) Unexceeded Exceeded (judge v e r s)
  unfolding judge
  judge-Spent goal e r s hb hx hs hp = hx
  judge-Spent skip e r s hb hx hs hp = record {
    same_bounds = hb;
    unexceeded = hx;
    scans_in = hs;
    paid = omega arith;
  }
  judge-Spent (visit grant) e r s hb hx hs hp = enqueue-Spent e r grant s hb hx hs hp

  pub offer-Spent :
      (tenant_ok : RelationshipTuple → Bool) (verdict : Bool → RelationshipTuple → Verdict)
      (e : Entry) (r : RelationshipTuple) (s : Search)
      → Spent b n s
      → Holds (Spent b n) Unexceeded Exceeded (offer tenant_ok verdict e r s)
  offer-Spent tenant_ok verdict e r s h =
      offer_rule (Spent b n) Unexceeded Exceeded (λ g x. x) tenant_ok verdict e r s
        (λ g k _. ground arith)
        (λ g k _. judge-Spent _ e r _ (ground arith) (ground arith) (ground arith) (ground arith))
