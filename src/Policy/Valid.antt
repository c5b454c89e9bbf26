-- ===== src/Policy/Valid.antt =====
-- What a model has that validatePolicyModel in packages/core/src/policy-model.ts calls valid.
use access_kit.Prelude.{
  String, Bool, true, false, not, ◌&&◌, ◌||◌, Option, none, some, List, [], ◌∷◌, ◌++◌, ◌≡◌, refl,
  subst, inl, inr, arith, All, ◌otherwise◌, Bool-cases, Option-cases, List-cases, is_empty,
}
use access_kit.JsSet
use access_kit.Domain.Dates.{Dates}
use access_kit.Policy.Model.{PolicyModel, Caveat, InheritanceRule, RelationKind}
use access_kit.Policy.Checks.{
  ValidationCheck, fail_if, names_of, has_duplicates, is_nil, verdict, first,
  check_inheritance_rules, relation_names_of_kind, check_known_resource_types,
}
use access_kit.Policy.CaveatChecks.{caveats_of, check_caveats, check_context_constraints}
use access_kit.Policy.ConditionalChecks.{conditionals_failure, check_conditional_relationships}
use access_kit.Policy.Validation.{
  none_failed, not_failed, relation_names, action_names, checks_of, validate_policy_model,
}
use access_kit.Policy.Distinct.{
  IsKnown, AreDistinct, AreKnown, members-AreKnown, or_else-none, fail_if-none,
  conditionals-AreDistinct,
}

pub record IsValid (model : PolicyModel) : Type 0 where
  pub distinct : AreDistinct (action_names model) (model.conditional_relationships otherwise [])
  pub known :
      All
        (IsKnown (action_names model) (names_of (λ (c : Caveat). c.name) (caveats_of model)))
        (model.conditional_relationships otherwise [])
  pub some_action : (a : String) × (JsSet.has (action_names model) a ≡ true)
  pub reasons : All (λ (c : Caveat). is_empty c.reason_code ≡ false) (caveats_of model)

and_left : (a b : Bool) → (a && b) ≡ true → a ≡ true
and_left true b h = refl
and_left false b h = absurd (cc)

and_right : (a b : Bool) → (a && b) ≡ true → b ≡ true
and_right true b h = h
and_right false b h = absurd (cc)

abbrev Passes : ValidationCheck → Type 0
Passes c = not_failed c ≡ true

none_failed-All : (cs : List ValidationCheck) → none_failed cs ≡ true → All Passes cs
unfolding none_failed
none_failed-All [] h = tt
none_failed-All (c ∷ cs) h = (
  and_left (not_failed c) (none_failed cs) h,
  none_failed-All cs (and_right (not_failed c) (none_failed cs) h),
)

All-parts : (xs ys : List ValidationCheck) → All Passes (xs ++ ys) → All Passes xs × All Passes ys
All-parts [] ys h = (tt, h)
All-parts (x ∷ xs) ys h = let (a, b) = All-parts xs ys h.1 in ((h.0, a), b)

verdict-none : (name : String) (o : Option String) → not_failed (verdict name o) ≡ true → o ≡ none
verdict-none name none h = refl
verdict-none name (some x) h = absurd (cc)

conditionals_pass :
    (model : PolicyModel)
    → All Passes (check_conditional_relationships model (relation_names model) (action_names model))
    → conditionals_failure
        (relation_names model)
        (names_of (λ (c : Caveat). c.name) (caveats_of model))
        (action_names model)
        (model.conditional_relationships otherwise [])
        []
      ≡ none
unfolding check_conditional_relationships
conditionals_pass model h =
    elim (Option-cases (
      conditionals_failure (relation_names model)
        (names_of (λ (c : Caveat). c.name) (caveats_of model)) (action_names model)
        (model.conditional_relationships otherwise []) [])) [
          | inl e ↦ e
          | inr (failure, e) ↦ absurd (ground (arith, e))
        ]

first-All :
    {A : Type 0} (f : A → Option String) (xs : List A)
    → first f xs ≡ none
    → All (λ x. f x ≡ none) xs
first-All f [] h = tt
first-All f (x ∷ xs) h = let (a, b) = or_else-none (f x) (first f xs) h in (a, first-All f xs b)

-- The first rule has an action, and it is known.
rule_action :
    (rules : List InheritanceRule) (f : InheritanceRule → Option String) (names : List String)
    → is_nil rules ≡ false
    → ((r : InheritanceRule) → f r ≡ none → (is_nil r.actions ≡ false) × AreKnown names r.actions)
    → All (λ r. f r ≡ none) rules
    → (a : String) × (JsSet.has names a ≡ true)
rule_action [] f names h known all = absurd (cc)
rule_action (r ∷ rules) f names h known all =
    let (some_one, each) = known r all.0 in
    elim (List-cases r.actions) [
      | inl e ↦ absurd (ground (arith, e, some_one))
      | inr (a, rest, e) ↦ (a, (subst (AreKnown names) e each).0)
    ]

inheritance_action :
    (model : PolicyModel)
    → not_failed (check_inheritance_rules model (relation_names model) (action_names model)) ≡ true
    → (a : String) × (JsSet.has (action_names model) a ≡ true)
unfolding check_inheritance_rules
inheritance_action model h =
    let (some_rule, each) = or_else-none _ _ (verdict-none _ _ h) in
    rule_action model.inheritance_rules _ (action_names model) (fail_if-none _ _ some_rule)
      (λ r e.
        let through_relations =
          relation_names_of_kind model RelationKind.membership
          ++ relation_names_of_kind model RelationKind.containment in
        let (_, e1) =
          or_else-none
            (fail_if (not (JsSet.has (relation_names model) r.relation))
              "inheritance_relations_known")
            _ e in
        let (_, e2) =
          or_else-none
            (fail_if (not (JsSet.has (relation_names model) r.through)) "inheritance_paths_known") _
            e1 in
        let (_, e3) =
          or_else-none
            (fail_if (not (JsSet.has through_relations r.through)) "inheritance_traversal_kinds") _
            e2 in
        let (some_one, e4) =
          or_else-none (fail_if (is_nil r.actions) "inheritance_actions_declared") _ e3 in
        (
          fail_if-none (is_nil r.actions) "inheritance_actions_declared" some_one,
          members-AreKnown r.actions (action_names model) "inheritance_actions_known" e4,
        ))
      (first-All _ model.inheritance_rules each)

or_right : (a b : Bool) → (a || b) ≡ false → b ≡ false
or_right false b h = h
or_right true b h = absurd (cc)

module _ (dates : Dates) where
  reasons_given :
      (cs : List Caveat) (f : Caveat → Option String)
      → ((c : Caveat) → f c ≡ none → is_empty c.reason_code ≡ false)
      → All (λ c. f c ≡ none) cs
      → All (λ (c : Caveat). is_empty c.reason_code ≡ false) cs
  reasons_given [] f given all = tt
  reasons_given (c ∷ cs) f given all = (given c all.0, reasons_given cs f given all.1)

  caveats_pass :
      (model : PolicyModel)
      → not_failed (check_caveats dates model) ≡ true
      → All (λ (c : Caveat). is_empty c.reason_code ≡ false) (caveats_of model)
  unfolding check_caveats
  caveats_pass model h =
      elim (Bool-cases (has_duplicates (names_of (λ (c : Caveat). c.name) (caveats_of model)))) [
        | inl e ↦ absurd (ground (arith, e))
        | inr e ↦
            reasons_given (caveats_of model) _
              (λ c k.
                or_right (not c.fail_closed) (is_empty c.reason_code)
                  (fail_if-none _ _ (or_else-none _ _ k).0))
              (first-All _ (caveats_of model) (verdict-none _ _ (rw e at h)))
      ]

  pub valid-IsValid :
      (model : PolicyModel) → (validate_policy_model dates model).valid ≡ true → IsValid model
  unfolding validate_policy_model
  valid-IsValid model h =
      let all = none_failed-All (checks_of dates model) h in
      let (_, middle) = All-parts (check_known_resource_types model) _ all.1.1.1.1 in
      let (_, late) = All-parts (check_context_constraints dates model) _ middle.1.1.1.1.1.1 in
      let (conditionals, _) =
        All-parts
          (check_conditional_relationships model (relation_names model) (action_names model)) _
          late.1 in
      let (known, distinct, _) =
        conditionals-AreDistinct (action_names model) (relation_names model)
          (names_of (λ (c : Caveat). c.name) (caveats_of model))
          (model.conditional_relationships otherwise []) []
          (conditionals_pass model conditionals) in
      record {
        distinct = distinct;
        known = known;
        some_action = inheritance_action model middle.1.1.0;
        reasons = caveats_pass model late.0;
      }
