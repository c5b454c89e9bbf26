-- ===== src/Decision/Caveats/Named.antt =====
-- The map of caveats by name that evaluateConditionalRelationshipCaveats of packages/core/src/engine.ts
-- makes of a policy's caveats.
use access_kit.Prelude.{
  some-injective, String, true, some, List, [], ◌∷◌, ◌≡◌, refl, sym, subst, ◌∙◌, inl, inr, arith,
  In, All, Bool-cases, ◌==◌,
}
use access_kit.JsMap
use access_kit.JsMap.{JsMap, get-set}
use access_kit.JsSet
use access_kit.JsSet.{JsSet}
use access_kit.Domain.{DecisionRequest}
use access_kit.Domain.Dates.{Dates}
use access_kit.Store.Graph.{Graph}
use access_kit.Policy.Model.{Caveat}
use access_kit.Policy.Checks.{names_of}
use access_kit.Decision.Caveats.{caveats_by_name}

pub caveat_of : List Caveat → List String
caveat_of = names_of (λ (c : Caveat). c.name)

-- Every caveat of the map is one of these.
abbrev pub From : List Caveat → JsMap Caveat → Type 0
From all m = (name : String) (c : Caveat) → JsMap.get m name ≡ some c → In c all

set-From :
    (all : List Caveat) (m : JsMap Caveat) (c : Caveat)
    → In c all
    → From all m
    → From all (JsMap.set m c.name c)
set-From all m c there f name d h = elim (Bool-cases (c.name == name)) [
  | inl same ↦
      subst (λ x. In x all) (some-injective c d (rw same at (sym (get-set m c.name name c) ∙ h)))
        there
  | inr other ↦ f name d (rw other at (sym (get-set m c.name name c) ∙ h))
]

abbrev pub HasOne : JsMap Caveat → String → Type 0
HasOne m name = (c : Caveat) × (JsMap.get m name ≡ some c)

set-HasOne :
    (m : JsMap Caveat) (c : Caveat) (name : String)
    → HasOne m name
    → HasOne (JsMap.set m c.name c) name
set-HasOne m c name (d, e) = elim (Bool-cases (c.name == name)) [
  | inl same ↦ (c, get-set m c.name name c ∙ rw same refl)
  | inr other ↦ (d, get-set m c.name name c ∙ rw other e)
]

module _ (dates : Dates) (graph : Graph) (request : DecisionRequest) (evaluated_at : String) where
  abbrev pub named : List Caveat → JsMap Caveat → JsMap Caveat
  named = caveats_by_name dates graph request evaluated_at

  pub named-From :
      (all cs : List Caveat) (m : JsMap Caveat)
      → All (λ c. In c all) cs
      → From all m
      → From all (named cs m)
  unfolding caveats_by_name
  named-From all [] m h f = f
  named-From all (c ∷ cs) m h f =
      named-From all cs (JsMap.set m c.name c) h.1 (set-From all m c h.0 f)

  named-kept :
      (cs : List Caveat) (m : JsMap Caveat) (name : String)
      → HasOne m name
      → HasOne (named cs m) name
  unfolding caveats_by_name
  named-kept [] m name h = h
  named-kept (c ∷ cs) m name h = named-kept cs (JsMap.set m c.name c) name (set-HasOne m c name h)

  pub named-HasOne :
      (cs : List Caveat) (m : JsMap Caveat) (name : String)
      → JsSet.has (names_of (λ (c : Caveat). c.name) cs) name ≡ true
      → HasOne (named cs m) name
  unfolding caveats_by_name JsSet.has
  named-HasOne [] m name h = absurd (cc)
  named-HasOne (c ∷ cs) m name h = elim (Bool-cases (c.name == name)) [
    | inl same ↦
        named-kept cs (JsMap.set m c.name c) name (c, get-set m c.name name c ∙ rw same refl)
    | inr other ↦ named-HasOne cs (JsMap.set m c.name c) name (ground (arith, h, other))
  ]
