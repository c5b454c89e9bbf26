-- ===== src/Decision/Caveats/Meaning.antt =====
-- What evaluateConditionalRelationshipCaveats in packages/core/src/engine.ts lets pass.
use access_kit.Prelude.{
  String, true, false, none, some, List, [], ◌∷◌, ◌++◌, map, ◌≡◌, ◌≢◌, refl, sym, ap, ◌∙◌, ◌⊎◌, inl,
  inr, arith, All, some_by, filter_by, List-cases, Option-cases, Bool-cases, ◌==◌, ◌otherwise◌,
}
use access_kit.JsMap
use access_kit.JsMap.{JsMap}
use access_kit.Domain.{RelationshipTuple, DecisionRequest}
use access_kit.Domain.Dates.{Dates}
use access_kit.Store.Graph.{Graph}
use access_kit.Policy.Model.{PolicyModel, Caveat, ConditionalRelationship}
use access_kit.Decision.Paths.{to_path_step}
use access_kit.Decision.Caveats.{
  CaveatExplanation, CaveatResult, allows, refuses, passed, evaluate_caveat_condition,
  caveats_by_name, evaluate_caveats, applicable_conditionals, evaluate_step, evaluate_steps,
  evaluate_conditional_relationship_caveats,
}
use access_kit.Decision.Caveats.Conditions.{
  ConditionHolds, fails, fails-ConditionHolds, ConditionHolds-fails,
}

module _ (dates : Dates) (graph : Graph) (request : DecisionRequest) (evaluated_at : String) where
  module _ (by_name : JsMap Caveat) where
    pub allows_or_refuses :
        (o : CaveatResult)
        → ((explanations : List CaveatExplanation) × (o ≡ allows explanations))
          ⊎ ((reason : String) × (explanations : List CaveatExplanation) × (o
                ≡ refuses reason explanations))
    allows_or_refuses (allows explanations) = inl (explanations, refl)
    allows_or_refuses (refuses reason explanations) = inr (reason, explanations, refl)

    -- A caveat that the policy has, with all its conditions.
    abbrev pub CaveatHolds : RelationshipTuple → String → Type 0
    CaveatHolds r name =
        (caveat : Caveat) × (JsMap.get by_name name ≡ some caveat)
        × All (ConditionHolds dates graph request evaluated_at r) caveat.conditions

    abbrev pub caveats_on : RelationshipTuple → List String → List CaveatExplanation → CaveatResult
    caveats_on r =
        evaluate_caveats dates graph request evaluated_at by_name (to_path_step r) (some r)

    abbrev pub passed_one : Caveat → RelationshipTuple → CaveatExplanation
    passed_one caveat r = record {
      caveat = caveat.name;
      relation = r.relation;
      status = passed;
      reason_code = none;
      conditions =
          map (evaluate_caveat_condition dates graph request evaluated_at r) caveat.conditions;
    }

    pub caveats_next :
        (r : RelationshipTuple) (name : String) (names : List String)
        (before : List CaveatExplanation) (caveat : Caveat)
        → JsMap.get by_name name ≡ some caveat
        → fails dates graph request evaluated_at r caveat.conditions ≡ false
        → caveats_on r (name ∷ names) before
          ≡ caveats_on r names (before ++ passed_one caveat r ∷ [])
    unfolding evaluate_caveats to_path_step
    caveats_next r name names before caveat e holds_all = rw (e, evaluate_caveats, holds_all) refl

    evaluate_caveats-CaveatHolds :
        (r : RelationshipTuple) (names : List String) (before after : List CaveatExplanation)
        → caveats_on r names before ≡ allows after
        → All (CaveatHolds r) names
    unfolding evaluate_caveats
    evaluate_caveats-CaveatHolds r [] before after h = tt
    evaluate_caveats-CaveatHolds r (name ∷ names) before after h =
        elim (Option-cases (JsMap.get by_name name)) [
          | inl e ↦ absurd (ground (arith, e))
          | inr (caveat, e) ↦
              elim (Bool-cases (fails dates graph request evaluated_at r caveat.conditions)) [
                | inl broken ↦ absurd (ground (arith, e, broken))
                | inr holds_all ↦ (
                  (
                    caveat,
                    e,
                    fails-ConditionHolds dates graph request evaluated_at r caveat.conditions
                        holds_all,
                  ),
                  evaluate_caveats-CaveatHolds r names _ after
                      (sym (caveats_next r name names before caveat e holds_all) ∙ h),
                )
              ]
        ]

    CaveatHolds-evaluate_caveats :
        (r : RelationshipTuple) (names : List String) (before : List CaveatExplanation)
        → All (CaveatHolds r) names
        → (after : List CaveatExplanation) × (caveats_on r names before ≡ allows after)
    unfolding evaluate_caveats
    CaveatHolds-evaluate_caveats r [] before h = (before, refl)
    CaveatHolds-evaluate_caveats r (name ∷ names) before ((caveat, e, holds_all), rest) =
        let (after, k) =
          CaveatHolds-evaluate_caveats r names (before ++ passed_one caveat r ∷ []) rest in
        (
          after,
          caveats_next r name names before caveat e (
                ConditionHolds-fails dates graph request evaluated_at r caveat.conditions holds_all)
              ∙ k,
        )

    module _ (conditionals : List ConditionalRelationship) where
      abbrev pub matching : RelationshipTuple → List ConditionalRelationship
      matching r = filter_by (λ c. c.relation == r.relation) conditionals

      -- No conditional relationship is for the edge, or one is and its caveats hold.
      abbrev pub EdgePasses : RelationshipTuple → Type 0
      EdgePasses r =
          (matching r ≡ [])
          ⊎ ((c : ConditionalRelationship) × (matching r ≡ c ∷ []) × All (CaveatHolds r) c.caveats)

      abbrev pub step_on : RelationshipTuple → List CaveatExplanation → CaveatResult
      step_on r =
          evaluate_step dates graph request evaluated_at by_name conditionals (to_path_step r)
            (some r)

      pub step_none :
          (r : RelationshipTuple) (before : List CaveatExplanation)
          → matching r ≡ []
          → step_on r before ≡ allows before
      unfolding evaluate_step to_path_step
      step_none r before e = rw (e, evaluate_step) refl

      pub step_one :
          (r : RelationshipTuple) (before : List CaveatExplanation) (c : ConditionalRelationship)
          → matching r ≡ c ∷ []
          → step_on r before ≡ caveats_on r c.caveats before
      unfolding evaluate_step to_path_step
      step_one r before c e = rw (e, evaluate_step) refl

      step_two :
          (r : RelationshipTuple) (before after : List CaveatExplanation)
          (c d : ConditionalRelationship) (more : List ConditionalRelationship)
          → matching r ≡ c ∷ d ∷ more
          → step_on r before ≢ allows after
      unfolding evaluate_step to_path_step
      step_two r before after c d more e = rw (e, evaluate_step) (λ f. cc)

      evaluate_step-EdgePasses :
          (r : RelationshipTuple) (before after : List CaveatExplanation)
          → step_on r before ≡ allows after
          → EdgePasses r
      evaluate_step-EdgePasses r before after h = elim (List-cases (matching r)) [
        | inl e ↦ inl e
        | inr (c, rest, e) ↦ elim (List-cases rest) [
          | inl f ↦
              let one = e ∙ ap (λ t. c ∷ t) f in
              inr (
                c,
                one,
                evaluate_caveats-CaveatHolds r c.caveats before after
                    (sym (step_one r before c one) ∙ h),
              )
          | inr (d, more, f) ↦ absurd (step_two r before after c d more (e ∙ ap (λ t. c ∷ t) f) h)
        ]
      ]

      EdgePasses-evaluate_step :
          (r : RelationshipTuple) (before : List CaveatExplanation)
          → EdgePasses r
          → (after : List CaveatExplanation) × (step_on r before ≡ allows after)
      EdgePasses-evaluate_step r before (inl e) = (before, step_none r before e)
      EdgePasses-evaluate_step r before (inr (c, e, holds_all)) =
          let (after, k) = CaveatHolds-evaluate_caveats r c.caveats before holds_all in
          (after, step_one r before c e ∙ k)

      abbrev pub steps_on : List RelationshipTuple → List CaveatExplanation → CaveatResult
      steps_on rs =
          evaluate_steps dates graph request evaluated_at by_name conditionals (map to_path_step rs)
            rs

      pub steps_next :
          (r : RelationshipTuple) (rs : List RelationshipTuple)
          (before after : List CaveatExplanation)
          → step_on r before ≡ allows after
          → steps_on (r ∷ rs) before ≡ steps_on rs after
      unfolding evaluate_steps
      steps_next r rs before after e = rw (e, evaluate_steps) refl

      steps_allow :
          (r : RelationshipTuple) (rs : List RelationshipTuple)
          (before after : List CaveatExplanation)
          → steps_on (r ∷ rs) before ≡ allows after
          → (middle : List CaveatExplanation) × (step_on r before ≡ allows middle)
      unfolding evaluate_steps
      steps_allow r rs before after h = elim (allows_or_refuses (step_on r before)) [
        | inl (middle, e) ↦ (middle, e)
        | inr (reason, explanations, e) ↦
            absurd (refused_ne reason explanations (sym (rw (e, evaluate_steps) refl) ∙ h))
      ]
        where
          refused_ne :
              (reason : String) (es : List CaveatExplanation) → refuses reason es ≢ allows after
          refused_ne reason es f = cc

      evaluate_steps-EdgePasses :
          (rs : List RelationshipTuple) (before after : List CaveatExplanation)
          → steps_on rs before ≡ allows after
          → All EdgePasses rs
      evaluate_steps-EdgePasses [] before after h = tt
      evaluate_steps-EdgePasses (r ∷ rs) before after h =
          let (middle, e) = steps_allow r rs before after h in
          (
            evaluate_step-EdgePasses r before middle e,
            evaluate_steps-EdgePasses rs middle after (sym (steps_next r rs before middle e) ∙ h),
          )

      EdgePasses-evaluate_steps :
          (rs : List RelationshipTuple) (before : List CaveatExplanation)
          → All EdgePasses rs
          → (after : List CaveatExplanation) × (steps_on rs before ≡ allows after)
      unfolding evaluate_steps
      EdgePasses-evaluate_steps [] before h = (before, refl)
      EdgePasses-evaluate_steps (r ∷ rs) before h =
          let (middle, e) = EdgePasses-evaluate_step r before h.0 in
          let (after, k) = EdgePasses-evaluate_steps rs middle h.1 in
          (after, steps_next r rs before middle e ∙ k)

  module _ (model : PolicyModel) (rs : List RelationshipTuple) where
    -- The edge, among the policy's conditional relationships for the request's action.
    abbrev pub PassesCaveats : RelationshipTuple → Type 0
    PassesCaveats =
        EdgePasses
          (caveats_by_name dates graph request evaluated_at (model.caveats otherwise []) [])
          (applicable_conditionals dates graph request evaluated_at model)

    abbrev path_result : CaveatResult
    path_result =
        evaluate_conditional_relationship_caveats dates graph request evaluated_at model
          (map to_path_step rs) rs

    -- Caveats let a path pass only if on each of its edges at most one conditional relationship for
    -- the action is, and the caveats that it names are in the policy with every condition holding.
    pub caveats-PassesCaveats :
        (explanations : List CaveatExplanation)
        → path_result ≡ allows explanations
        → All PassesCaveats rs
    unfolding evaluate_conditional_relationship_caveats
    caveats-PassesCaveats explanations h =
        evaluate_steps-EdgePasses
          (caveats_by_name dates graph request evaluated_at (model.caveats otherwise []) [])
          (applicable_conditionals dates graph request evaluated_at model) rs [] explanations h

    -- Such a path passes.
    pub PassesCaveats-caveats :
        All PassesCaveats rs
        → (explanations : List CaveatExplanation) × (path_result ≡ allows explanations)
    unfolding evaluate_conditional_relationship_caveats
    PassesCaveats-caveats h =
        EdgePasses-evaluate_steps
          (caveats_by_name dates graph request evaluated_at (model.caveats otherwise []) [])
          (applicable_conditionals dates graph request evaluated_at model) rs [] h

    -- A conditional relationship that lists its actions, and not the request's, letter for letter.
    abbrev pub Unlisted : ConditionalRelationship → Type 0
    Unlisted c =
        (actions : List String) × (c.actions ≡ some actions)
        × (some_by (λ a. a == request.action) actions ≡ false)

    Unlisted-filter_by :
        (cs : List ConditionalRelationship)
        → All Unlisted cs
        → filter_by
            (λ c. elim c.actions [
              | none ↦ true
              | some actions ↦ some_by (λ a. a == request.action) actions
            ])
            cs
          ≡ []
    Unlisted-filter_by [] h = refl
    Unlisted-filter_by (c ∷ cs) ((actions, e, unlisted), rest) =
        ground (arith, e, unlisted, Unlisted-filter_by cs rest)

    no_step :
        (by_name : JsMap Caveat) (ts : List RelationshipTuple) (before : List CaveatExplanation)
        → steps_on by_name [] ts before ≡ allows before
    unfolding evaluate_steps evaluate_step
    no_step by_name [] before = refl
    no_step by_name (t ∷ ts) before = no_step by_name ts before

    -- Where every conditional relationship lists actions, none of them the request's letter for letter,
    -- every path passes without a look at a caveat.
    pub Unlisted-allows :
        All Unlisted (model.conditional_relationships otherwise []) → path_result ≡ allows []
    unfolding evaluate_conditional_relationship_caveats applicable_conditionals
    Unlisted-allows h = rw (Unlisted-filter_by (model.conditional_relationships otherwise []) h) (
        no_step (caveats_by_name dates graph request evaluated_at (model.caveats otherwise []) [])
          rs [])
