-- ===== src/Store/Graph.antt =====
-- The relationship graph of InMemoryRebacStore in packages/core/src/store.ts: subjects, resources,
-- the relationships and their index by subject. An array in the index is shared with nobody, so a
-- `push` or `splice` on it is a new list at its key.
use access_kit.Prelude.{
  ℕ, suc, String, Bool, not, ◌&&◌, ◌||◌, Option, none, some, List, [], ◌∷◌, ◌++◌, if◌then◌else◌,
  ◌==◌, truthy, filter_by, ◌otherwise◌, holds,
}
use access_kit.JsMap
use access_kit.JsMap.{JsMap}
use access_kit.Domain.{CanonicalId, IsoDateTime, Subject, Resource, RelationshipTuple, TupleStatus}
use access_kit.Decision.Runtime.Guard.{GraphSize}

pub record Graph : Type 0 where
  pub subjects : JsMap Subject
  pub resources : JsMap Resource
  pub relationships : JsMap RelationshipTuple
  pub relationships_by_subject : JsMap (List RelationshipTuple)
  pub relationship_revision : ℕ

unfoldable pub empty_graph : Graph
empty_graph = record {
  subjects = [];
  resources = [];
  relationships = [];
  relationships_by_subject = [];
  relationship_revision = 0;
}

unfoldable pub graph_size : Graph → GraphSize
graph_size s = record {
  subjects = JsMap.size s.subjects;
  resources = JsMap.size s.resources;
  relationships = JsMap.size s.relationships;
}

unfoldable pub get_subject : Graph → CanonicalId → Option Subject
get_subject s id = JsMap.get s.subjects id

unfoldable pub list_subjects : Graph → List Subject
list_subjects s = JsMap.values s.subjects

unfoldable pub upsert_subject : Graph → Subject → Graph
upsert_subject s subject = record s { subjects = JsMap.set s.subjects subject.id subject }

unfoldable pub get_resource : Graph → CanonicalId → Option Resource
get_resource s id = JsMap.get s.resources id

unfoldable pub list_resources : Graph → List Resource
list_resources s = JsMap.values s.resources

unfoldable pub upsert_resource : Graph → Resource → Graph
upsert_resource s resource = record s { resources = JsMap.set s.resources resource.id resource }

unfoldable pub get_relationship : Graph → CanonicalId → Option RelationshipTuple
get_relationship s id = JsMap.get s.relationships id

unfoldable pub list_relationships_for_subject : Graph → CanonicalId → List RelationshipTuple
list_relationships_for_subject s subject_id =
    JsMap.get s.relationships_by_subject subject_id otherwise []

pub record RelationshipFilter : Type 0 where
  pub subject_id : Option CanonicalId
  pub object_id : Option CanonicalId
  pub relation : Option String

-- `!wanted || actual === wanted`.
abbrev pub matches_wanted : Option String → String → Bool
matches_wanted wanted actual = not (truthy wanted) || holds (λ w. actual == w) wanted

unfoldable pub list_relationships : Graph → RelationshipFilter → List RelationshipTuple
list_relationships s f =
    filter_by
      (λ r.
        matches_wanted f.subject_id r.subject_id
        && (matches_wanted f.object_id r.object_id && matches_wanted f.relation r.relation))
      (JsMap.values s.relationships)

-- `relationships.push(relationship)`, in a new array where there was none.
unfoldable pub add_relationship_to_subject_index :
    JsMap (List RelationshipTuple) → RelationshipTuple → JsMap (List RelationshipTuple)
add_relationship_to_subject_index index r =
    JsMap.set index r.subject_id ((JsMap.get index r.subject_id otherwise []) ++ r ∷ [])

-- The array without its first entry of this id.
unfoldable pub splice_id : List RelationshipTuple → CanonicalId → List RelationshipTuple
splice_id [] id = []
splice_id (r ∷ rs) id = if r.id == id then rs else r ∷ splice_id rs id

-- An array that becomes empty is deleted.
abbrev pub keep_or_delete :
    JsMap (List RelationshipTuple)
    → CanonicalId
    → List RelationshipTuple
    → JsMap (List RelationshipTuple)
keep_or_delete index subject_id [] = JsMap.remove index subject_id
keep_or_delete index subject_id (r ∷ rs) = JsMap.set index subject_id (r ∷ rs)

unfoldable pub remove_relationship_from_subject_index :
    JsMap (List RelationshipTuple) → RelationshipTuple → JsMap (List RelationshipTuple)
remove_relationship_from_subject_index index r = elim (JsMap.get index r.subject_id) [
  | none ↦ index
  | some rs ↦ keep_or_delete index r.subject_id (splice_id rs r.id)
]

-- The entry of an id is replaced, and the index follows.
abbrev pub unindexed : Graph → Option RelationshipTuple → JsMap (List RelationshipTuple)
unindexed s none = s.relationships_by_subject
unindexed s (some existing) =
    remove_relationship_from_subject_index s.relationships_by_subject existing

unfoldable pub upsert_relationship : Graph → RelationshipTuple → Graph
upsert_relationship s r = record s {
  relationships = JsMap.set s.relationships r.id r;
  relationships_by_subject =
      add_relationship_to_subject_index (unindexed s (get_relationship s r.id)) r;
  relationship_revision = suc s.relationship_revision;
}

-- The graph after it, and the deleted tuple if there was one.
unfoldable pub delete_relationship :
    Graph → CanonicalId → IsoDateTime → Graph × Option RelationshipTuple
delete_relationship s id deleted_at = elim (get_relationship s id) [
  | none ↦ (s, none)
  | some r ↦
      let deleted : RelationshipTuple = record r {
        status = TupleStatus.deleted;
        updated_at = some deleted_at;
      } in
      (
        record s {
          relationships = JsMap.set s.relationships id deleted;
          relationships_by_subject =
              add_relationship_to_subject_index
                (remove_relationship_from_subject_index s.relationships_by_subject r) deleted;
          relationship_revision = suc s.relationship_revision;
        },
        some deleted,
      )
]
