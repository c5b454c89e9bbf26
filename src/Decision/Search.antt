-- ===== src/Decision/Search.antt =====
-- The breadth-first search that findAllowPath and findDenyPath in packages/core/src/engine.ts both
-- are, statement for statement. They differ in what an edge is worth (`verdict`), and in that the
-- deny search keeps a set of visited nodes where the allow search keeps the best grant flag of each:
-- with a flag that is always false the two are the same. `previous` links are the list `trail`,
-- the last edge first.
pub mod Rule
pub mod Walks
pub mod Frontier
pub mod Complete
pub mod Fuel
use access_kit.Prelude.{
  ℕ, zero, suc, String, Bool, true, false, not, ◌&&◌, Option, none, some, List, [], ◌∷◌, ◌++◌,
  reverse, if◌then◌else◌,
}
use access_kit.JsMap
use access_kit.JsMap.{JsMap}
use access_kit.Domain.{RelationshipTuple}
use access_kit.Decision.Runtime.Guard.{
  Guard, record_relationship_scan, record_depth, record_visited_node,
}

-- AllowQueueEntry and DenyQueueEntry.
pub record Entry : Type 0 where
  pub current_id : String
  pub depth : ℕ
  pub has_action_grant : Bool
  pub trail : List RelationshipTuple

-- What the search knows: the guard, `bestGrantByNode`, and queue[queueIndex ..].
pub record Search : Type 0 where
  pub guard : Guard
  pub best : JsMap Bool
  pub pending : List Entry

-- What an edge is worth: it ends the search, it is passed over, or it leads on under a grant flag.
pub data Verdict : Type 0 where
  goal skip : Verdict
  visit : Bool → Verdict

pub data Progress : Type 0 where
  found : List RelationshipTuple → Guard → Progress
  halted : Guard → Progress
  running : Search → Progress

pub data Outcome : Type 0 where
  arrived : List RelationshipTuple → Guard → Outcome
  stopped : Guard → Outcome
  exhausted : Guard → Outcome
  out_of_fuel : Outcome

-- `if (!traversalGuard.record…()) return empty`.
abbrev pub within : Guard × Bool → (Guard → Progress) → Progress
within (g, true) k = k g
within (g, false) k = halted g

-- `previousBest !== true && previousBest !== hasActionGrant`.
abbrev pub improves : Option Bool → Bool → Bool
improves none grant = true
improves (some true) grant = false
improves (some false) grant = grant

abbrev pub follow : Entry → RelationshipTuple → Bool → Entry
follow e r grant = record {
  current_id = r.object_id;
  depth = suc e.depth;
  has_action_grant = grant;
  trail = r ∷ e.trail;
}

unfoldable pub enqueue : Entry → RelationshipTuple → Bool → Search → Progress
enqueue e r grant s =
    if improves (JsMap.get s.best r.object_id) grant
    then within (record_visited_node s.guard r.object_id) (λ g. running (record {
      guard = g;
      best = JsMap.set s.best r.object_id grant;
      pending = s.pending ++ follow e r grant ∷ [];
    }))
    else running s

unfoldable pub judge : Verdict → Entry → RelationshipTuple → Search → Progress
judge goal e r s = found (reverse (r ∷ e.trail)) s.guard
judge skip e r s = running s
judge (visit grant) e r s = enqueue e r grant s

module _ (tenant_ok : RelationshipTuple → Bool) (verdict : Bool → RelationshipTuple → Verdict) where
  -- The body of the inner loop, in three parts: the scan, the tenant and the depth, the edge.
  abbrev pub weigh : Entry → RelationshipTuple → Search → Guard → Progress
  weigh e r s g = judge (verdict e.has_action_grant r) e r (record s { guard = g })

  abbrev pub admit : Entry → RelationshipTuple → Search → Guard → Progress
  admit e r s g =
      if tenant_ok r
      then within (record_depth g (suc e.depth)) (weigh e r s)
      else running (record s { guard = g })

  unfoldable pub offer : Entry → RelationshipTuple → Search → Progress
  offer e r s = within (record_relationship_scan s.guard) (admit e r s)

  -- The inner loop.
  unfoldable pub scan : Entry → List RelationshipTuple → Search → Progress
  scan e [] s = running s
  scan e (r ∷ rs) s = elim (offer e r s) [
    | found p g ↦ found p g
    | halted g ↦ halted g
    | running s' ↦ scan e rs s'
  ]

  -- The outer loop, over the relationships that `active` gives for a subject.
  module _ (active : String → List RelationshipTuple) where
    unfoldable pub search : ℕ → Search → Outcome
    search zero s = elim s.pending [ [] ↦ exhausted s.guard | _ ∷ _ ↦ out_of_fuel ]
    search (suc fuel) s = elim s.pending [
      | [] ↦ exhausted s.guard
      | next ∷ rest ↦ elim (scan next (active next.current_id) (record s { pending = rest })) [
        | found p g ↦ arrived p g
        | halted g ↦ stopped g
        | running s' ↦ search fuel s'
      ]
    ]

-- The queue holds the subject at depth 0, and it is visited without a grant.
unfoldable pub start : String → Guard → Search
start root g = record {
  guard = g;
  best = (root, false) ∷ [];
  pending = record { current_id = root; depth = 0; has_action_grant = false; trail = [] } ∷ [];
}

-- An empty path where the search ran dry or stopped.
unfoldable pub path_of : Outcome → List RelationshipTuple
path_of (arrived p g) = p
path_of (stopped g) = []
path_of (exhausted g) = []
path_of out_of_fuel = []

unfoldable pub guard_of : Guard → Outcome → Guard
guard_of before (arrived p g) = g
guard_of before (stopped g) = g
guard_of before (exhausted g) = g
guard_of before out_of_fuel = before
