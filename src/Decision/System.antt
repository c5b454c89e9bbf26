-- ===== src/Decision/System.antt =====
-- A store and an engine over it, in packages/core/src/store.ts and packages/core/src/engine.ts: any
-- sequence of changes and decisions.
use access_kit.Prelude.{
  ◌otherwise◌, suc, ◌≤◌, String, Option, List, [], ◌∷◌, ◌≡◌, refl, sym, ◌∙◌, inl, inr, arith, All,
  Option-cases,
}
use access_kit.Domain.{Subject, Resource, RelationshipTuple, DecisionRequest}
use access_kit.Domain.Dates.{Dates}
use access_kit.Store.Graph.{
  Graph, empty_graph, upsert_subject, upsert_resource, upsert_relationship, delete_relationship,
  get_relationship, list_relationships_for_subject,
}
use access_kit.Decision.Runtime.Pins.{VersionPins}
use access_kit.Decision.Cache.{Scope, active_relationships}
use access_kit.Decision.Cache.Coherence.{IsCoherent}
use access_kit.Decision.Engine.{EngineConfig, pinned_tuple_version, build_decision_context}
use access_kit.Decision.Keys.{IsPlain}
use access_kit.Decision.Engine.Scopes.{IsCurrent, HasPlainKey}
use access_kit.Decision.Engine.Context.{
  All-build_decision_context, Coherent-IsCurrent, build_decision_context-cache,
}

-- A scope that was made by now, and that is current if it is of the present revision.
abbrev IsFresh : Dates → Graph → Scope → Type 0
IsFresh dates g s = (s.revision ≤ g.relationship_revision) × IsCurrent dates g s

IsFresh-IsCurrent :
    (dates : Dates) (g : Graph) (ss : List Scope)
    → All (IsFresh dates g) ss
    → All (IsCurrent dates g) ss
IsFresh-IsCurrent dates g [] h = tt
IsFresh-IsCurrent dates g (s ∷ ss) (h, rest) = (h.1, IsFresh-IsCurrent dates g ss rest)

-- A change of a relationship leaves every scope behind.
IsFresh-next :
    (dates : Dates) (g h : Graph)
    → h.relationship_revision ≡ suc g.relationship_revision
    → (ss : List Scope) → All (IsFresh dates g) ss
    → All (IsFresh dates h) ss
IsFresh-next dates g h next [] k = tt
IsFresh-next dates g h next (s ∷ ss) ((bound, current), rest) = (
  (omega (arith, bound, next), λ same. absurd (omega (arith, bound, next, same))),
  IsFresh-next dates g h next ss rest,
)

-- A change that leaves the relationships alone leaves every scope as it was.
IsFresh-same :
    (dates : Dates) (g h : Graph)
    → h.relationship_revision ≡ g.relationship_revision
    → ((as_of : String) (pinned : Option String) (id : String)
        → active_relationships dates g as_of pinned id
          ≡ active_relationships dates h as_of pinned id)
    → (ss : List Scope) → All (IsFresh dates g) ss
    → All (IsFresh dates h) ss
IsFresh-same dates g h same active [] k = tt
IsFresh-same dates g h same active (s ∷ ss) ((bound, current), rest) = (
  (omega (arith, bound, same), λ e. relabel (current (e ∙ same))),
  IsFresh-same dates g h same active ss rest,
)
  where
    coherent :
        IsCoherent dates g g.relationship_revision s.as_of s.pinned_tuple_version s
        → IsCoherent dates h h.relationship_revision s.as_of s.pinned_tuple_version s
    coherent k = record {
      same_revision = k.same_revision ∙ sym same;
      same_time = k.same_time;
      same_version = k.same_version;
      right = λ id rs e. k.right id rs e ∙ active s.as_of s.pinned_tuple_version id;
    }

    relabel :
        HasPlainKey dates g s
          × IsCoherent dates g g.relationship_revision s.as_of s.pinned_tuple_version s
        → HasPlainKey dates h s
          × IsCoherent dates h h.relationship_revision s.as_of s.pinned_tuple_version s
    relabel (p, k) =
        (record { plain_time = p.plain_time; plain_version = p.plain_version }, coherent k)

upsert_subject-IsFresh :
    (dates : Dates) (g : Graph) (s : Subject) (ss : List Scope)
    → All (IsFresh dates g) ss
    → All (IsFresh dates (upsert_subject g s)) ss
unfolding upsert_subject active_relationships list_relationships_for_subject
upsert_subject-IsFresh dates g s =
    IsFresh-same dates g (upsert_subject g s) refl (λ as_of pinned id. refl)

upsert_resource-IsFresh :
    (dates : Dates) (g : Graph) (r : Resource) (ss : List Scope)
    → All (IsFresh dates g) ss
    → All (IsFresh dates (upsert_resource g r)) ss
unfolding upsert_resource active_relationships list_relationships_for_subject
upsert_resource-IsFresh dates g r =
    IsFresh-same dates g (upsert_resource g r) refl (λ as_of pinned id. refl)

upsert_relationship-IsFresh :
    (dates : Dates) (g : Graph) (r : RelationshipTuple) (ss : List Scope)
    → All (IsFresh dates g) ss
    → All (IsFresh dates (upsert_relationship g r)) ss
unfolding upsert_relationship
upsert_relationship-IsFresh dates g r = IsFresh-next dates g (upsert_relationship g r) refl

delete_relationship-IsFresh :
    (dates : Dates) (g : Graph) (id at : String) (ss : List Scope)
    → All (IsFresh dates g) ss
    → All (IsFresh dates (delete_relationship g id at).0) ss
unfolding delete_relationship
delete_relationship-IsFresh dates g id at ss h = elim (Option-cases (get_relationship g id)) [
  | inl e ↦ rw (e, delete_relationship) h
  | inr (r, e) ↦ rw (e, delete_relationship) (IsFresh-next dates g _ refl ss h)
]

build_decision_context-IsFresh :
    (c : EngineConfig) (g : Graph) (request : DecisionRequest) (at : String) (pins : VersionPins)
    (ss : List Scope)
    → IsPlain pins.as_of
    → IsPlain (pinned_tuple_version c g request at pins otherwise "")
    → All (IsFresh c.dates g) ss
    → All (IsFresh c.dates g) (build_decision_context c g request at pins ss).1
build_decision_context-IsFresh c g request at pins ss time version h =
    All-build_decision_context c g request at pins ss (IsFresh-IsCurrent c.dates g ss h)
      (IsFresh c.dates g)
      (λ t k.
        (omega (arith, k.same_revision), Coherent-IsCurrent c g request at pins time version t k))
      h

-- An engine over a store: the store changes, and the engine decides. The times and pinned versions of the
-- decisions hold no NUL character.
pub data Run (c : EngineConfig) : Graph → List Scope → Type 0 where
  begin : Run c empty_graph []
  subject_step :
      {g : Graph} {ss : List Scope} (s : Subject) → Run c g ss → Run c (upsert_subject g s) ss
  resource_step :
      {g : Graph} {ss : List Scope} (r : Resource) → Run c g ss → Run c (upsert_resource g r) ss
  relationship_step :
      {g : Graph} {ss : List Scope} (r : RelationshipTuple)
      → Run c g ss
      → Run c (upsert_relationship g r) ss
  deletion_step :
      {g : Graph} {ss : List Scope} (id at : String)
      → Run c g ss
      → Run c (delete_relationship g id at).0 ss
  decision_step :
      {g : Graph} {ss : List Scope} (request : DecisionRequest) (at : String) (pins : VersionPins)
      → IsPlain pins.as_of
      → IsPlain (pinned_tuple_version c g request at pins otherwise "")
      → Run c g ss
      → Run c g (build_decision_context c g request at pins ss).1

Run-IsFresh :
    (c : EngineConfig) (g : Graph) (ss : List Scope) → Run c g ss → All (IsFresh c.dates g) ss
Run-IsFresh c g ss begin = tt
Run-IsFresh c g ss (subject_step s run) =
    upsert_subject-IsFresh c.dates _ s ss (Run-IsFresh c _ ss run)
Run-IsFresh c g ss (resource_step r run) =
    upsert_resource-IsFresh c.dates _ r ss (Run-IsFresh c _ ss run)
Run-IsFresh c g ss (relationship_step r run) =
    upsert_relationship-IsFresh c.dates _ r ss (Run-IsFresh c _ ss run)
Run-IsFresh c g ss (deletion_step id at run) =
    delete_relationship-IsFresh c.dates _ id at ss (Run-IsFresh c _ ss run)
Run-IsFresh c g ss (decision_step request at pins time version run) =
    build_decision_context-IsFresh c g request at pins _ time version (Run-IsFresh c g _ run)

-- In every run of an engine over a store that starts empty, whatever was changed and decided before,
-- the next decision is the one that an engine without a cache would give on the present graph. Condition:
-- the times and pinned versions of the decisions before held no NUL, so that no two of them share a key.
-- The next decision's own are unrestricted.
pub Run-cache :
    (c : EngineConfig) (g : Graph) (ss : List Scope) (request : DecisionRequest) (at : String)
    (pins : VersionPins)
    → Run c g ss
    → (build_decision_context c g request at pins ss).0
      ≡ (build_decision_context c g request at pins []).0
Run-cache c g ss request at pins run =
    build_decision_context-cache c g request at pins ss
      (IsFresh-IsCurrent c.dates g ss (Run-IsFresh c g ss run))
