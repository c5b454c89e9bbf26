-- ===== src/Store/Index.antt =====
-- The index by subject of InMemoryRebacStore in packages/core/src/store.ts and its relationships say
-- the same, after any sequence of its operations.
pub mod Entries
pub mod Agreement
use access_kit.Prelude.{
  ℕ, suc, String, Bool, true, false, not, ◌&&◌, Option, none, some, List, [], ◌∷◌, ◌++◌, ◌≡◌, ◌≢◌,
  refl, sym, ap, subst, ◌∙◌, ◌⊎◌, inl, inr, arith, In, All, All-In, if◌then◌else◌, ◌otherwise◌,
  ◌==◌, eq_iff, Bool-cases, Option-cases, In-append_left, In-append_right, In-append_cases,
  filter_by, filter_by-In, In-filter_by,
}
use access_kit.JsMap
use access_kit.JsMap.{JsMap}
use access_kit.Domain.{CanonicalId, RelationshipTuple, Subject, Resource, TupleStatus}
use access_kit.Store.Graph.{
  Graph, matches_wanted, empty_graph, get_relationship, list_relationships_for_subject,
  list_relationships, add_relationship_to_subject_index, remove_relationship_from_subject_index,
  splice_id, keep_or_delete, RelationshipFilter, unindexed, upsert_relationship,
  delete_relationship, upsert_subject, upsert_resource,
}
use access_kit.Store.Index.Entries.{Index, at_subject}
use access_kit.Store.Index.Agreement.{
  Agree, AgreeBut, IsIndexed, remove-AgreeBut, unknown-AgreeBut, set-Agree,
}

unindexed-AgreeBut :
    (g : Graph) (id : CanonicalId)
    → IsIndexed g
    → AgreeBut g.relationships id (unindexed g (get_relationship g id))
unfolding get_relationship
unindexed-AgreeBut g id h = elim (Option-cases (JsMap.get g.relationships id)) [
  | inl e ↦ rw e (unknown-AgreeBut g.relationships g.relationships_by_subject id h e)
  | inr (r, e) ↦ rw e (removed r e (h.own_id id r e))
]
  where
    removed :
        (r : RelationshipTuple)
        → JsMap.get g.relationships id ≡ some r
        → r.id ≡ id
        → AgreeBut g.relationships id
            (remove_relationship_from_subject_index g.relationships_by_subject r)
    removed r e same =
        subst
          (λ own.
            AgreeBut g.relationships own
              (remove_relationship_from_subject_index g.relationships_by_subject r))
          same
          (remove-AgreeBut g.relationships g.relationships_by_subject r h
            (ap (JsMap.get g.relationships) same ∙ e))

-- Replacing or adding a relationship keeps the index in agreement.
pub upsert_relationship-IsIndexed :
    (g : Graph) (r : RelationshipTuple) → IsIndexed g → IsIndexed (upsert_relationship g r)
unfolding upsert_relationship
upsert_relationship-IsIndexed g r h =
    set-Agree g.relationships (unindexed g (get_relationship g r.id)) r h.unique_ids h.own_id
      (unindexed-AgreeBut g r.id h)

abbrev pub as_deleted : RelationshipTuple → String → RelationshipTuple
as_deleted r at = record r { status = TupleStatus.deleted; updated_at = some at }

-- Of a relationship that the store has, a deletion is the upsert of the tuple with its new status and
-- date of change.
pub delete_relationship-upsert :
    (g : Graph) (id : CanonicalId) (at : String) (r : RelationshipTuple)
    → IsIndexed g
    → get_relationship g id ≡ some r
    → delete_relationship g id at
      ≡ (upsert_relationship g (as_deleted r at), some (as_deleted r at))
unfolding delete_relationship upsert_relationship get_relationship
delete_relationship-upsert g id at r h e =
    rw (e, delete_relationship, ← (h.own_id id r e))
      (rw (ap (JsMap.get g.relationships) (h.own_id id r e) ∙ e, upsert_relationship) refl)

delete_relationship-IsIndexed :
    (g : Graph) (id : CanonicalId) (at : String)
    → IsIndexed g
    → IsIndexed (delete_relationship g id at).0
unfolding delete_relationship
delete_relationship-IsIndexed g id at h = elim (Option-cases (get_relationship g id)) [
  | inl e ↦ rw (e, delete_relationship) h
  | inr (r, e) ↦
      subst (λ (x : Graph × Option RelationshipTuple). IsIndexed x.0)
        (sym (delete_relationship-upsert g id at r h e))
        (upsert_relationship-IsIndexed g (as_deleted r at) h)
]

empty_graph-IsIndexed : IsIndexed empty_graph
unfolding empty_graph JsMap.get
empty_graph-IsIndexed = record {
  unique_ids = tt;
  unique_subjects = tt;
  own_id = λ id r e. absurd (cc);
  sound = λ id r m. absurd m;
  complete = λ r e. absurd (cc);
  once = λ id. tt;
}

-- The graphs that the store's operations make.
pub data Reachable : Graph → Type 0 where
  fresh_store : Reachable empty_graph
  upsert_subject_step : {g : Graph} (s : Subject) → Reachable g → Reachable (upsert_subject g s)
  upsert_resource_step : {g : Graph} (r : Resource) → Reachable g → Reachable (upsert_resource g r)
  upsert_relationship_step :
      {g : Graph} (r : RelationshipTuple) → Reachable g → Reachable (upsert_relationship g r)
  delete_relationship_step :
      {g : Graph} (id : CanonicalId) (at : String)
      → Reachable g
      → Reachable (delete_relationship g id at).0

-- After any sequence of the store's operations the index has under each subject its relationships and
-- no others, each once.
pub Reachable-IsIndexed : (g : Graph) → Reachable g → IsIndexed g
unfolding upsert_subject upsert_resource
Reachable-IsIndexed g fresh_store = empty_graph-IsIndexed
Reachable-IsIndexed g (upsert_subject_step s h) = Reachable-IsIndexed _ h
Reachable-IsIndexed g (upsert_resource_step r h) = Reachable-IsIndexed _ h
Reachable-IsIndexed g (upsert_relationship_step r h) =
    upsert_relationship-IsIndexed _ r (Reachable-IsIndexed _ h)
Reachable-IsIndexed g (delete_relationship_step id at h) =
    delete_relationship-IsIndexed _ id at (Reachable-IsIndexed _ h)

abbrev pub of_subject : String → RelationshipFilter
of_subject id = record { subject_id = some id; object_id = none; relation = none }

-- In a graph that the operations made, the index gives for a subject what a scan of all relationships
-- by that subject gives, if the subject's id is not empty.
pub list_relationships_for_subject-list_relationships :
    (g : Graph) (id : CanonicalId) (r : RelationshipTuple)
    → Reachable g
    → id ≢ ""
    → (In r (list_relationships_for_subject g id) → In r (list_relationships g (of_subject id)))
      × (In r (list_relationships g (of_subject id)) → In r (list_relationships_for_subject g id))
unfolding list_relationships_for_subject list_relationships
list_relationships_for_subject-list_relationships g id r reach some_text = (to_scan, from_scan)
  where
    h : IsIndexed g
    h = Reachable-IsIndexed g reach

    wanted : RelationshipTuple → Bool
    wanted x =
        matches_wanted (some id) x.subject_id
        && (matches_wanted none x.object_id && matches_wanted none x.relation)

    is_wanted : (own : String) → own ≡ id → (matches_wanted (some id) own && true) ≡ true
    is_wanted own same = ground (arith, same, eq_iff own id)

    wants : (own : String) → (matches_wanted (some id) own && true) ≡ true → own ≡ id
    wants own h = ground (arith, h, some_text, eq_iff own id, eq_iff id "")

    to_scan :
        In r (at_subject g.relationships_by_subject id)
        → In r (filter_by wanted (JsMap.values g.relationships))
    to_scan m =
        let (known, subject) = h.sound id r m in
        In-filter_by wanted r (JsMap.values g.relationships)
          (JsMap.get-values g.relationships r.id r known) (is_wanted r.subject_id subject)

    from_scan :
        In r (filter_by wanted (JsMap.values g.relationships))
        → In r (at_subject g.relationships_by_subject id)
    from_scan m =
        let (there, right) = filter_by-In wanted r (JsMap.values g.relationships) m in
        let (key, known) = JsMap.values-get g.relationships r h.unique_ids there in
        subst (λ i. In r (at_subject g.relationships_by_subject i)) (wants r.subject_id right)
          (h.complete r (ap (JsMap.get g.relationships) (h.own_id key r known) ∙ known))
