-- ===== src/Decision/Search/Fuel.antt =====
-- The rule of the outer loop: with a round of fuel for each scan that the bounds still allow, and
-- for each entry that waits, the search ends, and it ends as its invariant says.
use access_kit.Prelude.{
  ℕ, zero, suc, ◌≤◌, String, Bool, none, List, [], ◌∷◌, ◌≡◌, ap, arith, length, List-cases, inl,
  inr,
}
use access_kit.Domain.{RelationshipTuple}
use access_kit.Decision.Runtime.Guard.{Guard, TraversalBounds}
use access_kit.Decision.Search.{
  Search, Entry, Verdict, Progress, found, halted, running, Outcome, arrived, stopped, exhausted,
  out_of_fuel, scan, search,
}
use access_kit.Decision.Search.Rule.{Holds, Spent, Unexceeded, Exceeded, scan_rule, offer-Spent}

-- A guard with which another search may start.
pub record IsReady (b : TraversalBounds) (g : Guard) : Type 0 where
  pub same_bounds : g.bounds ≡ b
  pub unexceeded : g.bounds_exceeded ≡ none
  pub scans_in : g.relationship_scans ≤ b.max_relationship_scans

Spent-IsReady : (b : TraversalBounds) (n : ℕ) (s : Search) → Spent b n s → IsReady b s.guard
Spent-IsReady b n s h = record {
  same_bounds = h.same_bounds;
  unexceeded = h.unexceeded;
  scans_in = h.scans_in;
}

-- How a search can end: never for want of fuel.
abbrev pub Ends :
    TraversalBounds → (List RelationshipTuple → Guard → Type 0) → Type 0 → Outcome → Type 0
Ends b F X (arrived p g) = F p g × Unexceeded p g
Ends b F X (stopped g) = Exceeded g
Ends b F X (exhausted g) = X × IsReady b g
Ends b F X out_of_fuel = ⊥

abbrev pub Any : Guard → Type 0
Any g = Unit

module _ (tenant_ok : RelationshipTuple → Bool) (verdict : Bool → RelationshipTuple → Verdict)
    (active : String → List RelationshipTuple) (b : TraversalBounds) (Q : Search → Type 0)
    (F : List RelationshipTuple → Guard → Type 0) (X : Type 0) where
  next_round :
      (fuel n : ℕ) (m : Progress)
      → Holds Q F Any m
      → Holds (Spent b n) Unexceeded Exceeded m
      → ((s : Search) → Spent b n s → Q s → Ends b F X (search tenant_ok verdict active fuel s))
      → Ends b F X (elim m [
        | found p g ↦ arrived p g
        | halted g ↦ stopped g
        | running s ↦ search tenant_ok verdict active fuel s
      ])
  next_round fuel n (found p g) h k again = (h, k)
  next_round fuel n (halted g) h k again = k
  next_round fuel n (running s) h k again = again s k h

  popped :
      (n : ℕ) (s : Search) (next : Entry) (rest : List Entry)
      → s.pending ≡ next ∷ rest
      → Spent b (suc n) s
      → Spent b n (record s { pending = rest })
  popped n s next rest e h = record {
    same_bounds = h.same_bounds;
    unexceeded = h.unexceeded;
    scans_in = h.scans_in;
    paid = omega (arith, h.paid, ap (length {A = Entry}) e);
  }

  module _
      (turn : (s : Search) (next : Entry) (rest : List Entry)
        → Q s
        → s.pending ≡ next ∷ rest
        → Holds Q F Any
            (scan tenant_ok verdict next (active next.current_id) (record s { pending = rest })))
      (dry : (s : Search) → Q s → s.pending ≡ [] → X) where
    pub search_rule :
        (n : ℕ) (s : Search) → Spent b n s → Q s → Ends b F X (search tenant_ok verdict active n s)
    unfolding search
    search_rule zero s h q = elim (List-cases s.pending) [
      | inl e ↦ rw (e, search) (dry s q e, Spent-IsReady b _ s h)
      | inr (next, rest, e) ↦ absurd (omega (arith, h.paid, ap (length {A = Entry}) e))
    ]
    search_rule (suc n) s h q = elim (List-cases s.pending) [
      | inl e ↦ rw (e, search) (dry s q e, Spent-IsReady b _ s h)
      | inr (next, rest, e) ↦
          rw (e, search)
            (next_round n n _ (turn s next rest q e)
              (scan_rule (λ _. Spent b n) Unexceeded Exceeded tenant_ok verdict next
                (λ r rs s' k. offer-Spent b n tenant_ok verdict next r s' k)
                (active next.current_id) _ (popped n s next rest e h))
              (λ s' k q'. search_rule n s' k q'))
    ]
