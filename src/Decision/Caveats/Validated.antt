-- ===== src/Decision/Caveats/Validated.antt =====
-- The caveats of a valid policy model: validatePolicyModel of packages/core/src/policy-model.ts and
-- evaluateConditionalRelationshipCaveats of packages/core/src/engine.ts together.
use access_kit.Prelude.{
  String, Bool, true, false, none, some, List, [], ◌∷◌, map, ◌≡◌, ◌≢◌, refl, sym, ap, subst, ◌∙◌,
  inl, inr, arith, In, All, All-In, some_by, filter_by, filter_by-In, List-cases, Option-cases,
  Bool-cases, ◌==◌, eq_iff, ◌otherwise◌, is_empty, All-filter_by, All-of_In,
}
use access_kit.JsMap
use access_kit.JsMap.{JsMap, get-set}
use access_kit.JsSet
use access_kit.JsSet.{JsSet}
use access_kit.Domain.{RelationshipTuple, DecisionRequest}
use access_kit.Domain.Dates.{Dates}
use access_kit.Store.Graph.{Graph}
use access_kit.Policy.Model.{PolicyModel, Caveat, ConditionalRelationship}
use access_kit.Policy.Checks.{names_of}
use access_kit.Policy.CaveatChecks.{caveats_of}
use access_kit.Policy.Validation.{action_names, validate_policy_model}
use access_kit.Policy.Distinct.{IsKnown, AreKnown, AreDistinct, Scopes, AreDistinct-filter_by}
use access_kit.Policy.Valid.{IsValid, valid-IsValid}
use access_kit.Decision.Paths.{to_path_step}
use access_kit.Decision.Caveats.{
  CaveatExplanation, CaveatResult, allows, refuses, evaluate_caveats, applicable_conditionals,
  evaluate_steps, evaluate_conditional_relationship_caveats,
}
use access_kit.Decision.Caveats.Conditions.{fails}
use access_kit.Decision.Caveats.Meaning
use access_kit.Decision.Caveats.Named.{From, HasOne, named, named-From, named-HasOne}

module _ (dates : Dates) (graph : Graph) (request : DecisionRequest) (evaluated_at : String) where
  -- The reason is one that a caveat of the policy gives.
  abbrev pub GivenBy : List Caveat → String → Type 0
  GivenBy all reason = (c : Caveat) × In c all × (reason ≡ c.reason_code)

  module _ (all : List Caveat) (by_name : JsMap Caveat) (from_all : From all by_name) where
    abbrev on : RelationshipTuple → List String → List CaveatExplanation → CaveatResult
    on r = evaluate_caveats dates graph request evaluated_at by_name (to_path_step r) (some r)

    refused_by :
        (r : RelationshipTuple) (name : String) (names : List String)
        (before es : List CaveatExplanation) (c : Caveat) (reason : String)
        → JsMap.get by_name name ≡ some c
        → fails dates graph request evaluated_at r c.conditions ≡ true
        → on r (name ∷ names) before ≡ refuses reason es
        → reason ≡ c.reason_code
    unfolding evaluate_caveats to_path_step
    refused_by r name names before es c reason e bad h =
        sym (reason_same _ _ _ _ (rw (e, evaluate_caveats, bad) at h))
      where
        reason_same :
            (a b : String) (x y : List CaveatExplanation) → refuses a x ≡ refuses b y → a ≡ b
        reason_same a b x y k = cc

    allows-ne-refuses :
        {A : Type 0} (a b : List CaveatExplanation) (reason : String)
        → allows a ≡ refuses reason b
        → A
    allows-ne-refuses a b reason e = absurd (cc)

    caveats-GivenBy :
        (r : RelationshipTuple) (names : List String) (before es : List CaveatExplanation)
        (reason : String)
        → All (HasOne by_name) names
        → on r names before ≡ refuses reason es
        → GivenBy all reason
    unfolding evaluate_caveats
    caveats-GivenBy r [] before es reason known h = allows-ne-refuses before es reason h
    caveats-GivenBy r (name ∷ names) before es reason ((c, e), known) h =
        elim (Bool-cases (fails dates graph request evaluated_at r c.conditions)) [
          | inl bad ↦ (c, from_all name c e, refused_by r name names before es c reason e bad h)
          | inr fine ↦ caveats-GivenBy r names _ es reason known (
              sym (
                Meaning.caveats_next dates graph request evaluated_at by_name r name names before c
                  e fine)
              ∙ h)
        ]

    module _ (actions : JsSet) (conditionals : List ConditionalRelationship) (shared : String)
        (scoped : All (λ c. Scopes actions c shared) conditionals)
        (distinct : AreDistinct actions conditionals)
        (known : All
          (λ (c : ConditionalRelationship). All (HasOne by_name) c.caveats)
          conditionals) where
      -- No two conditional relationships of a relation share the action.
      one_matching :
          (r : RelationshipTuple) (c d : ConditionalRelationship)
          (more : List ConditionalRelationship)
          → Meaning.matching dates graph request evaluated_at by_name conditionals r ≢ c ∷ d ∷ more
      one_matching r c d more e =
          let apart =
            subst (AreDistinct actions) e (
              AreDistinct-filter_by actions (λ x. x.relation == r.relation) conditionals
                distinct) in
          let scopes = subst (All (λ x. Scopes actions x shared)) e (
            All-filter_by (λ x. Scopes actions x shared) (λ x. x.relation == r.relation)
              conditionals scoped) in
          let c_here =
            filter_by-In (λ (x : ConditionalRelationship). x.relation == r.relation) c conditionals
              (subst (In c) (sym e) (inl refl)) in
          let d_here =
            filter_by-In (λ (x : ConditionalRelationship). x.relation == r.relation) d conditionals
              (subst (In d) (sym e) (inr (inl refl))) in
          apart.0.0
            ((eq_iff c.relation r.relation).0 c_here.1
              ∙ sym ((eq_iff d.relation r.relation).0 d_here.1))
            shared scopes.0 scopes.1.0

      step-GivenBy :
          (r : RelationshipTuple) (before es : List CaveatExplanation) (reason : String)
          → Meaning.step_on dates graph request evaluated_at by_name conditionals r before
            ≡ refuses reason es
          → GivenBy all reason
      step-GivenBy r before es reason h =
          elim (List-cases
            (Meaning.matching dates graph request evaluated_at by_name conditionals r)) [
              | inl e ↦ allows-ne-refuses before es reason (
                  sym (
                    Meaning.step_none dates graph request evaluated_at by_name conditionals r before
                      e)
                  ∙ h)
              | inr (c, rest, e) ↦ elim (List-cases rest) [
                | inr (d, more, f) ↦ absurd (one_matching r c d more (e ∙ ap (λ t. c ∷ t) f))
                | inl f ↦
                    let one = e ∙ ap (λ t. c ∷ t) f in
                    let c_here =
                      filter_by-In (λ (x : ConditionalRelationship). x.relation == r.relation) c
                        conditionals (subst (In c) (sym one) (inl refl)) in
                    caveats-GivenBy r c.caveats before es reason
                      (All-In (λ (x : ConditionalRelationship). All (HasOne by_name) x.caveats) c
                        conditionals known c_here.0)
                      (sym (
                          Meaning.step_one dates graph request evaluated_at by_name conditionals r
                            before c one)
                        ∙ h)
              ]
            ]

      steps-GivenBy :
          (rs : List RelationshipTuple) (before es : List CaveatExplanation) (reason : String)
          → Meaning.steps_on dates graph request evaluated_at by_name conditionals rs before
            ≡ refuses reason es
          → GivenBy all reason
      unfolding evaluate_steps
      steps-GivenBy [] before es reason h = allows-ne-refuses before es reason h
      steps-GivenBy (r ∷ rs) before es reason h =
          elim (Meaning.allows_or_refuses dates graph request evaluated_at by_name
            (Meaning.step_on dates graph request evaluated_at by_name conditionals r before)) [
              | inl (middle, e) ↦ steps-GivenBy rs middle es reason (
                  sym (
                    Meaning.steps_next dates graph request evaluated_at by_name conditionals r rs
                      before middle e)
                  ∙ h)
              | inr (why, es', e) ↦
                  step-GivenBy r before es reason (e ∙ (rw (e, evaluate_steps) at h))
            ]

  some_by-has :
      (listed : List String) (a : String)
      → some_by (λ x. x == a) listed ≡ true
      → JsSet.has listed a ≡ true
  unfolding JsSet.has
  some_by-has [] a h = absurd (cc)
  some_by-has (x ∷ listed) a h = ground (arith, h, some_by-has listed a)

  AreKnown-has :
      (listed names : List String) (a : String)
      → AreKnown names listed
      → JsSet.has listed a ≡ true
      → JsSet.has names a ≡ true
  unfolding JsSet.has
  AreKnown-has [] names a k h = absurd (cc)
  AreKnown-has (x ∷ listed) names a k h = elim (Bool-cases (x == a)) [
    | inl same ↦ subst (λ y. JsSet.has names y ≡ true) ((eq_iff x a).0 same) k.0
    | inr other ↦ AreKnown-has listed names a k.1 (ground (arith, h, other))
  ]

  module _ (model : PolicyModel) (valid : IsValid model) where
    abbrev conditionals_of : List ConditionalRelationship
    conditionals_of = model.conditional_relationships otherwise []

    abbrev applies : ConditionalRelationship → Bool
    applies c = elim c.actions [
      | none ↦ true
      | some actions ↦ some_by (λ a. a == request.action) actions
    ]

    abbrev Known : ConditionalRelationship → Type 0
    Known = IsKnown (action_names model) (names_of (λ (c : Caveat). c.name) (caveats_of model))

    -- A known action of a request is in the scope of every conditional relationship that applies.
    known_scope :
        (c : ConditionalRelationship)
        → JsSet.has (action_names model) request.action ≡ true
        → applies c ≡ true
        → Scopes (action_names model) c request.action
    known_scope c k h = elim (Option-cases c.actions) [
      | inl e ↦ rw e k
      | inr (listed, e) ↦ rw e (some_by-has listed request.action (rw e at h))
    ]

    -- For an unknown action only those apply that are for all actions.
    unknown_scope :
        (c : ConditionalRelationship) (a : String)
        → JsSet.has (action_names model) request.action ≡ false
        → JsSet.has (action_names model) a ≡ true
        → Known c
        → applies c ≡ true
        → Scopes (action_names model) c a
    unknown_scope c a u k known h = elim (Option-cases c.actions) [
      | inl e ↦ rw e k
      | inr (listed, e) ↦
          let there =
            AreKnown-has listed (action_names model) request.action (rw e at known.actions_known)
              (some_by-has listed request.action (rw e at h)) in
          absurd (ground (arith, u, there))
    ]

    abbrev AllScope : String → Type 0
    AllScope a = All (λ c. Scopes (action_names model) c a) (filter_by applies conditionals_of)

    scoped-All :
        (a : String) (cs : List ConditionalRelationship)
        → ((c : ConditionalRelationship)
            → Known c
            → applies c ≡ true
            → Scopes (action_names model) c a)
        → All Known cs
        → All (λ c. Scopes (action_names model) c a) (filter_by applies cs)
    scoped-All a [] f h = tt
    scoped-All a (c ∷ cs) f h = elim (Bool-cases (applies c)) [
      | inl e ↦ rw (e, All) (f c h.0 e, scoped-All a cs f h.1)
      | inr e ↦ rw (e, All) (scoped-All a cs f h.1)
    ]

    shared_action : (a : String) × AllScope a
    shared_action = elim (Bool-cases (JsSet.has (action_names model) request.action)) [
      | inl k ↦ (
        request.action,
        scoped-All request.action conditionals_of (λ c known. known_scope c k) valid.known,
      )
      | inr u ↦
          let (a, k) = valid.some_action in
          (a, scoped-All a conditionals_of (λ c known. unknown_scope c a u k known) valid.known)
    ]

    abbrev by_name_of : JsMap Caveat
    by_name_of = named dates graph request evaluated_at (caveats_of model) []

    names_found :
        (names : List String)
        → AreKnown (names_of (λ (c : Caveat). c.name) (caveats_of model)) names
        → All (HasOne by_name_of) names
    names_found [] h = tt
    names_found (n ∷ names) h = (
      named-HasOne dates graph request evaluated_at (caveats_of model) [] n h.0,
      names_found names h.1,
    )

    caveats_found :
        (cs : List ConditionalRelationship)
        → All Known cs
        → All (λ (c : ConditionalRelationship). All (HasOne by_name_of) c.caveats) cs
    caveats_found [] h = tt
    caveats_found (c ∷ cs) h = (names_found c.caveats h.0.caveats_known, caveats_found cs h.1)

    empty-From : From (caveats_of model) []
    unfolding JsMap.get
    empty-From name c e = absurd (none_some e)
      where
        none_some : none ≢ some c
        none_some e = cc

    refusal-GivenBy :
        (rs : List RelationshipTuple) (reason : String) (es : List CaveatExplanation)
        → evaluate_conditional_relationship_caveats dates graph request evaluated_at model
            (map to_path_step rs)
            rs
          ≡ refuses reason es
        → GivenBy (caveats_of model) reason
    unfolding evaluate_conditional_relationship_caveats applicable_conditionals
    refusal-GivenBy rs reason es h =
        let (a, scoped) = shared_action in
        steps-GivenBy (caveats_of model) by_name_of
          (named-From dates graph request evaluated_at (caveats_of model) (caveats_of model) []
            (All-of_In (λ c. In c (caveats_of model)) (caveats_of model) (λ c m. m)) empty-From)
          (action_names model) (filter_by applies conditionals_of) a scoped
          (AreDistinct-filter_by (action_names model) applies conditionals_of valid.distinct)
          (All-filter_by (λ (c : ConditionalRelationship). All (HasOne by_name_of) c.caveats)
            applies conditionals_of (caveats_found conditionals_of valid.known))
          rs [] es reason h

  -- Under a model that validation calls valid, caveats refuse a path only for a reason that a caveat of the
  -- model gives, and that is not empty: never for an unknown caveat, or for two conditional relationships
  -- on one edge.
  pub valid-GivenBy :
      (model : PolicyModel) (rs : List RelationshipTuple) (reason : String)
      (es : List CaveatExplanation)
      → (validate_policy_model dates model).valid ≡ true
      → evaluate_conditional_relationship_caveats dates graph request evaluated_at model
          (map to_path_step rs)
          rs
        ≡ refuses reason es
      → (c : Caveat) × In c (caveats_of model)
        × (reason ≡ c.reason_code)
        × (is_empty reason ≡ false)
  valid-GivenBy model rs reason es v h =
      let valid = valid-IsValid dates model v in
      let (c, there, same) = refusal-GivenBy model valid rs reason es h in
      (
        c,
        there,
        same,
        subst (λ r. is_empty r ≡ false) (sym same)
            (All-In (λ (x : Caveat). is_empty x.reason_code ≡ false) c (caveats_of model)
              valid.reasons there),
      )
