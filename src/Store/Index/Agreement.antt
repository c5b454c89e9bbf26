-- ===== src/Store/Index/Agreement.antt =====
-- Relationships and an index that say the same, and that are kept so.
use access_kit.Prelude.{
  none-ne-some, some-injective, none, some, [], ◌∷◌, ◌≡◌, ◌≢◌, refl, sym, ap, subst, ◌∙◌, ◌⊎◌, inl,
  inr, arith, In, ◌==◌, eq_iff, Bool-cases, In-append_left, In-append_right, In-append_cases,
}
use access_kit.JsMap
use access_kit.JsMap.{JsMap}
use access_kit.Domain.{CanonicalId, RelationshipTuple}
use access_kit.Store.Graph.{
  Graph, add_relationship_to_subject_index, remove_relationship_from_subject_index,
}
use access_kit.Store.Index.Entries.{
  Index, at_subject, HasUniqueIds, at_subject-add, append-HasUniqueIds, remove-In, In-remove,
  remove-HasUniqueIds, remove-HasUniqueKeys,
}

abbrev pub Relationships : Type 0
Relationships = JsMap RelationshipTuple

-- The relationships stand under their ids, and the index has under each subject just its own, each
-- once.
pub record Agree (relationships : Relationships) (index : Index) : Type 0 where
  pub unique_ids : JsMap.HasUniqueKeys relationships
  pub unique_subjects : JsMap.HasUniqueKeys index
  pub own_id :
      (id : CanonicalId) (r : RelationshipTuple) → JsMap.get relationships id ≡ some r → r.id ≡ id
  pub sound :
      (id : CanonicalId) (r : RelationshipTuple)
      → In r (at_subject index id)
      → (JsMap.get relationships r.id ≡ some r) × (r.subject_id ≡ id)
  pub complete :
      (r : RelationshipTuple)
      → JsMap.get relationships r.id ≡ some r
      → In r (at_subject index r.subject_id)
  pub once : (id : CanonicalId) → HasUniqueIds (at_subject index id)

abbrev pub IsIndexed : Graph → Type 0
IsIndexed g = Agree g.relationships g.relationships_by_subject

-- An index without one id, and otherwise in agreement.
pub record AgreeBut (relationships : Relationships) (missing : CanonicalId) (index : Index)
    : Type 0 where
  unique_subjects : JsMap.HasUniqueKeys index
  sound :
      (id : CanonicalId) (r : RelationshipTuple)
      → In r (at_subject index id)
      → (JsMap.get relationships r.id ≡ some r) × (r.subject_id ≡ id) × (r.id ≢ missing)
  complete :
      (r : RelationshipTuple)
      → JsMap.get relationships r.id ≡ some r
      → r.id ≢ missing
      → In r (at_subject index r.subject_id)
  once : (id : CanonicalId) → HasUniqueIds (at_subject index id)

pub remove-AgreeBut :
    (relationships : Relationships) (index : Index) (e : RelationshipTuple)
    → Agree relationships index
    → JsMap.get relationships e.id ≡ some e
    → AgreeBut relationships e.id (remove_relationship_from_subject_index index e)
remove-AgreeBut relationships index e h here = record {
  unique_subjects = remove-HasUniqueKeys index e h.unique_subjects;
  sound = λ id r m.
      let (there, different) = remove-In index e id r h.unique_subjects (h.once id) m in
      let (known, subject) = h.sound id r there in
      (known, subject, λ same. different (entry_of r id known subject same) same);
  complete = λ r k n. In-remove index e r.subject_id r h.unique_subjects (h.complete r k) n;
  once = λ id. remove-HasUniqueIds index e id h.unique_subjects (h.once id);
}
  where
    entry_of :
        (r : RelationshipTuple) (id : CanonicalId)
        → JsMap.get relationships r.id ≡ some r
        → r.subject_id ≡ id
        → r.id ≡ e.id
        → e.subject_id ≡ id
    entry_of r id known subject same =
        let twice = sym here ∙ ap (JsMap.get relationships) (sym same) ∙ known in
        ap (λ x. x.subject_id) (some-injective e r twice) ∙ subject

pub unknown-AgreeBut :
    (relationships : Relationships) (index : Index) (id : CanonicalId)
    → Agree relationships index
    → JsMap.get relationships id ≡ none
    → AgreeBut relationships id index
unknown-AgreeBut relationships index id h unknown = record {
  unique_subjects = h.unique_subjects;
  sound = λ own r m.
      let (known, subject) = h.sound own r m in
      (
        known,
        subject,
        λ same. none-ne-some r (sym unknown ∙ ap (JsMap.get relationships) (sym same) ∙ known),
      );
  complete = λ r k n. h.complete r k;
  once = h.once;
}

-- What an index gives after an entry is added.
add-In :
    (index : Index) (r : RelationshipTuple) (id : CanonicalId) (x : RelationshipTuple)
    → In x (at_subject (add_relationship_to_subject_index index r) id)
    → In x (at_subject index id) ⊎ ((x ≡ r) × (r.subject_id ≡ id))
add-In index r id x m = elim (Bool-cases (r.subject_id == id)) [
  | inl same ↦
      elim (In-append_cases x (at_subject index id) (r ∷ [])
        (subst (In x) (at_subject-add index r id ∙ rw same refl) m)) [
          | inl there ↦ inl there
          | inr (inl e) ↦ inr (e, ground (arith, same, eq_iff r.subject_id id))
          | inr (inr none_left) ↦ absurd none_left
        ]
  | inr other ↦ inl (subst (In x) (at_subject-add index r id ∙ rw other refl) m)
]

In-add_own :
    (index : Index) (r : RelationshipTuple)
    → In r (at_subject (add_relationship_to_subject_index index r) r.subject_id)
In-add_own index r =
    subst (In r)
      (sym (at_subject-add index r r.subject_id ∙ ground (arith, eq_iff r.subject_id r.subject_id)))
      (In-append_right r (at_subject index r.subject_id) (r ∷ []) (inl refl))

In-add :
    (index : Index) (r : RelationshipTuple) (id : CanonicalId) (x : RelationshipTuple)
    → In x (at_subject index id)
    → In x (at_subject (add_relationship_to_subject_index index r) id)
In-add index r id x m = elim (Bool-cases (r.subject_id == id)) [
  | inl same ↦
      subst (In x) (sym (at_subject-add index r id ∙ rw same refl))
        (In-append_left x (at_subject index id) (r ∷ []) m)
  | inr other ↦ subst (In x) (sym (at_subject-add index r id ∙ rw other refl)) m
]

add-HasUniqueIds :
    (index : Index) (r : RelationshipTuple) (id : CanonicalId)
    → HasUniqueIds (at_subject index id)
    → ((x : RelationshipTuple) → In x (at_subject index id) → x.id ≢ r.id)
    → HasUniqueIds (at_subject (add_relationship_to_subject_index index r) id)
add-HasUniqueIds index r id once new = elim (Bool-cases (r.subject_id == id)) [
  | inl same ↦
      subst HasUniqueIds (sym (at_subject-add index r id ∙ rw same refl))
        (append-HasUniqueIds (at_subject index id) r once new)
  | inr other ↦ subst HasUniqueIds (sym (at_subject-add index r id ∙ rw other refl)) once
]

-- What a map gives after an entry is set.
set-get :
    (relationships : Relationships) (own : CanonicalId) (r : RelationshipTuple) (id : CanonicalId)
    (x : RelationshipTuple)
    → JsMap.get (JsMap.set relationships own r) id ≡ some x
    → ((own ≡ id) × (x ≡ r)) ⊎ ((id ≢ own) × (JsMap.get relationships id ≡ some x))
set-get relationships own r id x e = elim (Bool-cases (own == id)) [
  | inl same ↦ inl (
    ground (arith, same, eq_iff own id),
    some-injective x r (sym e ∙ JsMap.get-set relationships own id r ∙ rw same refl),
  )
  | inr other ↦ inr (
    (λ f. ground (arith, sym f, other, eq_iff own id)),
    sym (sym e ∙ JsMap.get-set relationships own id r ∙ rw other refl),
  )
]

get-set_own :
    (relationships : Relationships) (id : CanonicalId) (r : RelationshipTuple)
    → JsMap.get (JsMap.set relationships id r) id ≡ some r
get-set_own relationships id r = JsMap.get-set relationships id id r ∙ ground (arith, eq_iff id id)

get-set_other :
    (relationships : Relationships) (own : CanonicalId) (r : RelationshipTuple) (id : CanonicalId)
    → id ≢ own
    → JsMap.get (JsMap.set relationships own r) id ≡ JsMap.get relationships id
get-set_other relationships own r id n =
    JsMap.get-set relationships own id r ∙ ground (arith, eq_iff own id)

-- Putting a relationship under its id, where the index lacks that id.
module _ (relationships : Relationships) (index : Index) (r : RelationshipTuple)
    (unique : JsMap.HasUniqueKeys relationships)
    (own : (id : CanonicalId) (x : RelationshipTuple)
      → JsMap.get relationships id ≡ some x
      → x.id ≡ id)
    (h : AgreeBut relationships r.id index) where
  abbrev Known : RelationshipTuple → Type 0
  Known x = JsMap.get (JsMap.set relationships r.id r) x.id ≡ some x

  set-own_id :
      (id : CanonicalId) (x : RelationshipTuple)
      → JsMap.get (JsMap.set relationships r.id r) id ≡ some x
      → x.id ≡ id
  set-own_id id x k = elim (set-get relationships r.id r id x k) [
    | inl (same, e) ↦ ap (λ y. y.id) e ∙ same
    | inr (other, k') ↦ own id x k'
  ]

  set_sound :
      (id : CanonicalId) (x : RelationshipTuple)
      → In x (at_subject (add_relationship_to_subject_index index r) id)
      → Known x × (x.subject_id ≡ id)
  set_sound id x m = elim (add-In index r id x m) [
    | inl there ↦
        let (known, subject, different) = h.sound id x there in
        (get-set_other relationships r.id r x.id different ∙ known, subject)
    | inr (e, subject) ↦
        subst (λ y. Known y × (y.subject_id ≡ id)) (sym e)
          (get-set_own relationships r.id r, subject)
  ]

  set_complete :
      (x : RelationshipTuple)
      → Known x
      → In x (at_subject (add_relationship_to_subject_index index r) x.subject_id)
  set_complete x k = elim (set-get relationships r.id r x.id x k) [
    | inl (same, e) ↦
        subst (λ y. In y (at_subject (add_relationship_to_subject_index index r) y.subject_id))
          (sym e) (In-add_own index r)
    | inr (other, k') ↦ In-add index r x.subject_id x (h.complete x k' other)
  ]

  pub set-Agree : Agree (JsMap.set relationships r.id r) (add_relationship_to_subject_index index r)
  unfolding add_relationship_to_subject_index
  set-Agree = record {
    unique_ids = JsMap.set-HasUniqueKeys relationships r.id r unique;
    unique_subjects = JsMap.set-HasUniqueKeys index r.subject_id _ h.unique_subjects;
    own_id = set-own_id;
    sound = set_sound;
    complete = set_complete;
    once = λ id. add-HasUniqueIds index r id (h.once id) (λ x m. (h.sound id x m).2);
  }
