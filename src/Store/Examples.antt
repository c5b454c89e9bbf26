-- ===== src/Store/Examples.antt =====
-- A store after a few operations, and the theorems at it.
use access_kit.Prelude.{String, some, ◌≡◌, ◌≢◌, refl, In, arith, eq_iff}
use access_kit.JsMap
use access_kit.Store.Graph.{
  Graph, empty_graph, upsert_relationship, delete_relationship, get_relationship,
  list_relationships, list_relationships_for_subject,
}
use access_kit.Store.Index.{
  Reachable, fresh_store, upsert_relationship_step, as_deleted, of_subject, Reachable-IsIndexed,
  delete_relationship-upsert, list_relationships_for_subject-list_relationships,
}
use access_kit.Store.Index.Agreement.{IsIndexed}
use access_kit.Decision.Examples.{edge}

-- An edge moves from Alice to Bob, under its old id.
abbrev moved : Graph
moved =
    upsert_relationship (upsert_relationship empty_graph (edge "e1" "alice" "reader" "plan"))
      (edge "e1" "bob" "reader" "plan")

moved-Reachable : Reachable moved
moved-Reachable =
    upsert_relationship_step (edge "e1" "bob" "reader" "plan")
      (upsert_relationship_step (edge "e1" "alice" "reader" "plan") fresh_store)

Reachable-IsIndexed_example : IsIndexed moved
Reachable-IsIndexed_example = Reachable-IsIndexed moved moved-Reachable

moved-IsIndexed : IsIndexed moved
moved-IsIndexed = Reachable-IsIndexed moved moved-Reachable

moved_edge : get_relationship moved "e1" ≡ some (edge "e1" "bob" "reader" "plan")
unfolding get_relationship JsMap.get upsert_relationship JsMap.set empty_graph
moved_edge = refl

delete_relationship-upsert_example : delete_relationship moved "e1" "3" ≡ (
  upsert_relationship moved (as_deleted (edge "e1" "bob" "reader" "plan") "3"),
  some (as_deleted (edge "e1" "bob" "reader" "plan") "3"),
)
delete_relationship-upsert_example =
    delete_relationship-upsert moved "e1" "3" (edge "e1" "bob" "reader" "plan") moved-IsIndexed
      moved_edge

abbrev bob : String
bob = "bob"

bob_text : bob ≢ ""
bob_text e = ground (arith, e, eq_iff bob "")

list_relationships_for_subject-list_relationships_example :
    (In (edge "e1" "bob" "reader" "plan") (list_relationships_for_subject moved "bob")
      → In (edge "e1" "bob" "reader" "plan") (list_relationships moved (of_subject "bob")))
    × (In (edge "e1" "bob" "reader" "plan") (list_relationships moved (of_subject "bob"))
        → In (edge "e1" "bob" "reader" "plan") (list_relationships_for_subject moved "bob"))
list_relationships_for_subject-list_relationships_example =
    list_relationships_for_subject-list_relationships moved "bob" (edge "e1" "bob" "reader" "plan")
      moved-Reachable bob_text
