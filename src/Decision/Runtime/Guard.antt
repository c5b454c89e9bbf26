-- ===== src/Decision/Runtime/Guard.antt =====
-- DecisionTraversalGuard in packages/core/src/decision-runtime.ts: what a traversal has used, and
-- the first of the three bounds that it went over.
use access_kit.Prelude.{ℕ, suc, String, Bool, true, false, Option, none, some, max, leb, []}
use access_kit.JsSet
use access_kit.JsSet.{JsSet}

pub record TraversalBounds : Type 0 where
  pub max_depth : ℕ
  pub max_relationship_scans : ℕ
  pub max_visited_nodes : ℕ

pub data TraversalBound : Type 0 where
  depth_bound scans_bound visited_bound : TraversalBound

pub record GraphSize : Type 0 where
  pub subjects : ℕ
  pub resources : ℕ
  pub relationships : ℕ

pub record Guard : Type 0 where
  pub bounds : TraversalBounds
  pub graph_size : GraphSize
  pub visited_nodes : JsSet
  pub relationship_scans : ℕ
  pub max_depth_reached : ℕ
  pub bounds_exceeded : Option TraversalBound

pub record TraversalReport : Type 0 where
  pub bounds : TraversalBounds
  pub graph_size : GraphSize
  pub relationship_scans : ℕ
  pub visited_nodes : ℕ
  pub max_depth_reached : ℕ
  pub bounds_exceeded : Option TraversalBound

abbrev pub default_traversal_bounds : TraversalBounds
default_traversal_bounds = record {
  max_depth = 16;
  max_relationship_scans = 10000;
  max_visited_nodes = 2000;
}

abbrev pub bound_of : TraversalBounds → TraversalBound → ℕ
bound_of b depth_bound = b.max_depth
bound_of b scans_bound = b.max_relationship_scans
bound_of b visited_bound = b.max_visited_nodes

-- `this.#boundsExceeded ??= bound`.
abbrev pub first_exceeded : Option TraversalBound → TraversalBound → Option TraversalBound
first_exceeded none b = some b
first_exceeded (some a) b = some a

-- The answer, and the guard after it.
unfoldable pub require_within_bound : Guard → TraversalBound → ℕ → Guard × Bool
require_within_bound g b n = elim (leb n (bound_of g.bounds b)) [
  | true ↦ (g, true)
  | false ↦ (record g { bounds_exceeded = first_exceeded g.bounds_exceeded b }, false)
]

unfoldable pub record_relationship_scan : Guard → Guard × Bool
unfolding require_within_bound
record_relationship_scan g =
    let scans = suc g.relationship_scans in
    require_within_bound (record g { relationship_scans = scans }) scans_bound scans

unfoldable pub record_visited_node : Guard → String → Guard × Bool
unfolding require_within_bound
record_visited_node g node =
    let nodes = JsSet.add g.visited_nodes node in
    require_within_bound (record g { visited_nodes = nodes }) visited_bound (JsSet.size nodes)

unfoldable pub record_depth : Guard → ℕ → Guard × Bool
unfolding require_within_bound
record_depth g depth =
    require_within_bound (record g { max_depth_reached = max g.max_depth_reached depth })
      depth_bound depth

-- The constructor.
unfoldable pub new_guard : TraversalBounds → GraphSize → String → Guard
unfolding record_visited_node
new_guard bounds graph_size root =
    (record_visited_node
      (record {
        bounds = bounds;
        graph_size = graph_size;
        visited_nodes = [];
        relationship_scans = 0;
        max_depth_reached = 0;
        bounds_exceeded = none;
      })
      root).0

unfoldable pub report : Guard → TraversalReport
report g = record {
  bounds = g.bounds;
  graph_size = g.graph_size;
  relationship_scans = g.relationship_scans;
  visited_nodes = JsSet.size g.visited_nodes;
  max_depth_reached = g.max_depth_reached;
  bounds_exceeded = g.bounds_exceeded;
}
