-- ===== src/Store/Index/Entries.antt =====
-- The arrays of the index by subject in packages/core/src/store.ts: what adding and removing an entry
-- leaves in them.
use access_kit.Prelude.{
  true, false, List, [], ◌∷◌, ◌++◌, ◌≡◌, ◌≢◌, refl, sym, ap, subst, ◌∙◌, inl, inr, arith, In,
  if◌then◌else◌, ◌otherwise◌, ◌==◌, eq_iff, Bool-cases, Option-cases, In-append_cases,
}
use access_kit.JsMap
use access_kit.JsMap.{JsMap}
use access_kit.Domain.{CanonicalId, RelationshipTuple}
use access_kit.Store.Graph.{
  add_relationship_to_subject_index, remove_relationship_from_subject_index, splice_id,
  keep_or_delete,
}

abbrev pub Index : Type 0
Index = JsMap (List RelationshipTuple)

abbrev pub at_subject : Index → CanonicalId → List RelationshipTuple
at_subject index id = JsMap.get index id otherwise []

-- No two entries of one id.
abbrev pub HasUniqueIds : List RelationshipTuple → Type 0
HasUniqueIds [] = Unit
HasUniqueIds (r ∷ rs) = ((x : RelationshipTuple) → In x rs → x.id ≢ r.id) × HasUniqueIds rs

splice_id_same :
    (r : RelationshipTuple) (rs : List RelationshipTuple) (id : CanonicalId)
    → (r.id == id) ≡ true
    → splice_id (r ∷ rs) id ≡ rs
unfolding splice_id
splice_id_same r rs id same = rw same refl

splice_id_other :
    (r : RelationshipTuple) (rs : List RelationshipTuple) (id : CanonicalId)
    → (r.id == id) ≡ false
    → splice_id (r ∷ rs) id ≡ r ∷ splice_id rs id
unfolding splice_id
splice_id_other r rs id other = rw other refl

-- What is left is what has another id.
splice_id-In :
    (rs : List RelationshipTuple) (id : CanonicalId) (x : RelationshipTuple)
    → HasUniqueIds rs
    → In x (splice_id rs id)
    → In x rs × (x.id ≢ id)
unfolding splice_id
splice_id-In [] id x h m = absurd m
splice_id-In (r ∷ rs) id x h m = elim (Bool-cases (r.id == id)) [
  | inl same ↦
      let there = subst (In x) (splice_id_same r rs id same) m in
      (inr there, λ e. h.0 x there (ground (arith, e, same, eq_iff r.id id)))
  | inr other ↦ elim (subst (In x) (splice_id_other r rs id other) m) [
    | inl e ↦ (inl e, λ f. ground (arith, other, sym (ap (λ y. y.id) e) ∙ f, eq_iff r.id id))
    | inr there ↦ let (left, different) = splice_id-In rs id x h.1 there in (inr left, different)
  ]
]

In-splice_id :
    (rs : List RelationshipTuple) (id : CanonicalId) (x : RelationshipTuple)
    → In x rs
    → x.id ≢ id
    → In x (splice_id rs id)
In-splice_id [] id x m n = absurd m
In-splice_id (r ∷ rs) id x m n = elim (Bool-cases (r.id == id)) [
  | inl same ↦ subst (In x) (sym (splice_id_same r rs id same)) (elim m [
    | inl e ↦ absurd (n (ap (λ y. y.id) e ∙ ground (arith, same, eq_iff r.id id)))
    | inr there ↦ there
  ])
  | inr other ↦
      subst (In x) (sym (splice_id_other r rs id other))
        (elim m [ inl e ↦ inl e | inr there ↦ inr (In-splice_id rs id x there n) ])
]

splice_id-HasUniqueIds :
    (rs : List RelationshipTuple) (id : CanonicalId)
    → HasUniqueIds rs
    → HasUniqueIds (splice_id rs id)
unfolding splice_id
splice_id-HasUniqueIds [] id h = tt
splice_id-HasUniqueIds (r ∷ rs) id h = elim (Bool-cases (r.id == id)) [
  | inl same ↦ rw same h.1
  | inr other ↦
      rw other ((λ x m. h.0 x (splice_id-In rs id x h.1 m).0), splice_id-HasUniqueIds rs id h.1)
]

pub append-HasUniqueIds :
    (rs : List RelationshipTuple) (r : RelationshipTuple)
    → HasUniqueIds rs
    → ((x : RelationshipTuple) → In x rs → x.id ≢ r.id)
    → HasUniqueIds (rs ++ r ∷ [])
append-HasUniqueIds [] r h n = ((λ x m. absurd m), tt)
append-HasUniqueIds (s ∷ rs) r h n = (
  (λ x m. elim (In-append_cases x rs (r ∷ []) m) [
    | inl there ↦ h.0 x there
    | inr (inl e) ↦ λ f. n s (inl refl) (sym f ∙ ap (λ y. y.id) e)
    | inr (inr none_left) ↦ absurd none_left
  ]),
  append-HasUniqueIds rs r h.1 (λ x m. n x (inr m)),
)

pub at_subject-add :
    (index : Index) (r : RelationshipTuple) (id : CanonicalId)
    → at_subject (add_relationship_to_subject_index index r) id
      ≡ (if r.subject_id == id then at_subject index id ++ r ∷ [] else at_subject index id)
unfolding add_relationship_to_subject_index
at_subject-add index r id = ground (
  arith,
  JsMap.get-set index r.subject_id id (at_subject index r.subject_id ++ r ∷ []),
  eq_iff r.subject_id id,
)

at_subject-keep_or_delete :
    (index : Index) (own : CanonicalId) (rs : List RelationshipTuple) (id : CanonicalId)
    → JsMap.HasUniqueKeys index
    → at_subject (keep_or_delete index own rs) id ≡ (if own == id then rs else at_subject index id)
at_subject-keep_or_delete index own [] id h = ground (arith, JsMap.get-remove index own id h)
at_subject-keep_or_delete index own (r ∷ rs) id h =
    ground (arith, JsMap.get-set index own id (r ∷ rs))

at_own-remove :
    (index : Index) (r : RelationshipTuple)
    → JsMap.HasUniqueKeys index
    → at_subject (remove_relationship_from_subject_index index r) r.subject_id
      ≡ splice_id (at_subject index r.subject_id) r.id
unfolding remove_relationship_from_subject_index splice_id
at_own-remove index r h = elim (Option-cases (JsMap.get index r.subject_id)) [
  | inl e ↦ rw (e, remove_relationship_from_subject_index, e) refl
  | inr (rs, e) ↦
      rw (e, remove_relationship_from_subject_index)
        (at_subject-keep_or_delete index r.subject_id (splice_id rs r.id) r.subject_id h
          ∙ ground (arith, eq_iff r.subject_id r.subject_id))
]

at_other-remove :
    (index : Index) (r : RelationshipTuple) (id : CanonicalId)
    → JsMap.HasUniqueKeys index
    → (r.subject_id == id) ≡ false
    → at_subject (remove_relationship_from_subject_index index r) id ≡ at_subject index id
unfolding remove_relationship_from_subject_index
at_other-remove index r id h other = elim (Option-cases (JsMap.get index r.subject_id)) [
  | inl e ↦ rw (e, remove_relationship_from_subject_index) refl
  | inr (rs, e) ↦
      rw (e, remove_relationship_from_subject_index)
        (at_subject-keep_or_delete index r.subject_id (splice_id rs r.id) id h ∙ rw other refl)
]

same_subject :
    (index : Index) (r : RelationshipTuple) (id : CanonicalId)
    → JsMap.HasUniqueKeys index
    → (r.subject_id == id) ≡ true
    → at_subject (remove_relationship_from_subject_index index r) id
      ≡ splice_id (at_subject index id) r.id
same_subject index r id h same =
    subst
      (λ i.
        at_subject (remove_relationship_from_subject_index index r) i
        ≡ splice_id (at_subject index i) r.id)
      (ground (arith, same, eq_iff r.subject_id id)) (at_own-remove index r h)

pub remove-In :
    (index : Index) (r : RelationshipTuple) (id : CanonicalId) (x : RelationshipTuple)
    → JsMap.HasUniqueKeys index
    → HasUniqueIds (at_subject index id)
    → In x (at_subject (remove_relationship_from_subject_index index r) id)
    → In x (at_subject index id) × (r.subject_id ≡ id → x.id ≢ r.id)
remove-In index r id x h once m = elim (Bool-cases (r.subject_id == id)) [
  | inl same ↦
      let (there, different) =
        splice_id-In (at_subject index id) r.id x once
          (subst (In x) (same_subject index r id h same) m) in
      (there, λ _. different)
  | inr other ↦ (
    subst (In x) (at_other-remove index r id h other) m,
    λ e. ground (arith, e, other, eq_iff r.subject_id id),
  )
]

pub In-remove :
    (index : Index) (r : RelationshipTuple) (id : CanonicalId) (x : RelationshipTuple)
    → JsMap.HasUniqueKeys index
    → In x (at_subject index id)
    → x.id ≢ r.id
    → In x (at_subject (remove_relationship_from_subject_index index r) id)
In-remove index r id x h m n = elim (Bool-cases (r.subject_id == id)) [
  | inl same ↦
      subst (In x) (sym (same_subject index r id h same))
        (In-splice_id (at_subject index id) r.id x m n)
  | inr other ↦ subst (In x) (sym (at_other-remove index r id h other)) m
]

pub remove-HasUniqueIds :
    (index : Index) (r : RelationshipTuple) (id : CanonicalId)
    → JsMap.HasUniqueKeys index
    → HasUniqueIds (at_subject index id)
    → HasUniqueIds (at_subject (remove_relationship_from_subject_index index r) id)
remove-HasUniqueIds index r id h once = elim (Bool-cases (r.subject_id == id)) [
  | inl same ↦
      subst HasUniqueIds (sym (same_subject index r id h same))
        (splice_id-HasUniqueIds (at_subject index id) r.id once)
  | inr other ↦ subst HasUniqueIds (sym (at_other-remove index r id h other)) once
]

keep_or_delete-HasUniqueKeys :
    (index : Index) (own : CanonicalId) (rs : List RelationshipTuple)
    → JsMap.HasUniqueKeys index
    → JsMap.HasUniqueKeys (keep_or_delete index own rs)
keep_or_delete-HasUniqueKeys index own [] h = JsMap.remove-HasUniqueKeys index own h
keep_or_delete-HasUniqueKeys index own (r ∷ rs) h = JsMap.set-HasUniqueKeys index own (r ∷ rs) h

pub remove-HasUniqueKeys :
    (index : Index) (r : RelationshipTuple)
    → JsMap.HasUniqueKeys index
    → JsMap.HasUniqueKeys (remove_relationship_from_subject_index index r)
unfolding remove_relationship_from_subject_index
remove-HasUniqueKeys index r h = elim (Option-cases (JsMap.get index r.subject_id)) [
  | inl e ↦ rw (e, remove_relationship_from_subject_index) h
  | inr (rs, e) ↦
      rw (e, remove_relationship_from_subject_index)
        (keep_or_delete-HasUniqueKeys index r.subject_id (splice_id rs r.id) h)
]
