-- ===== src/Policy/Validation.antt =====
-- validatePolicyModel of packages/core/src/policy-model.ts.
use access_kit.Prelude.{Bool, true, false, ◌&&◌, List, [], ◌∷◌, ◌++◌}
use access_kit.JsSet.{JsSet}
use access_kit.Domain.Dates.{Dates}
use access_kit.Policy.Model.{PolicyModel, Relation, ActionMapping, ModelResourceType}
use access_kit.Policy.Checks.{
  ValidationCheck, ValidationResult, pass, warn, fail, names_of, set_of, check_schema_version,
  check_unique, check_known_resource_types, check_relations, check_action_mappings,
  check_inheritance_rules, check_deny_rules, check_tenant_boundary,
  check_classification_constraints,
}
use access_kit.Policy.CaveatChecks.{check_context_constraints, check_caveats}
use access_kit.Policy.ConditionalChecks.{
  check_conditional_relationships, check_explanation_policy, check_migrations,
  check_generated_metadata,
}

abbrev pub not_failed : ValidationCheck → Bool
not_failed c = elim c.status [ pass ↦ true | warn ↦ true | fail ↦ false ]

unfoldable pub none_failed : List ValidationCheck → Bool
none_failed [] = true
none_failed (c ∷ cs) = not_failed c && none_failed cs

abbrev pub relation_names : PolicyModel → JsSet
relation_names model = set_of (names_of (λ (r : Relation). r.name) model.relations) []

abbrev pub action_names : PolicyModel → JsSet
action_names model = set_of (names_of (λ (a : ActionMapping). a.name) model.actions) []

module _ (dates : Dates) where
  abbrev pub checks_of : PolicyModel → List ValidationCheck
  checks_of model =
      check_schema_version model
      ∷ check_unique "resource_types_unique"
          (names_of (λ (t : ModelResourceType). t.type) model.resource_types)
      ∷ check_unique "relations_unique" (names_of (λ (r : Relation). r.name) model.relations)
      ∷ check_unique "actions_unique" (names_of (λ (a : ActionMapping). a.name) model.actions)
      ∷ (check_known_resource_types model
          ++ (check_relations model
              ∷ check_action_mappings model (relation_names model)
              ∷ check_inheritance_rules model (relation_names model) (action_names model)
              ∷ check_deny_rules model (relation_names model) (action_names model)
              ∷ check_tenant_boundary model
              ∷ check_classification_constraints model (action_names model)
              ∷ (check_context_constraints dates model
                  ++ (check_caveats dates model
                      ∷ (check_conditional_relationships model (relation_names model)
                            (action_names model)
                          ++ (check_explanation_policy model
                              ∷ check_migrations model
                              ∷ check_generated_metadata model
                              ∷ []))))))

  unfoldable pub validate_policy_model : PolicyModel → ValidationResult
  unfolding none_failed set_of
  validate_policy_model model = record {
    valid = none_failed (checks_of model);
    checks = checks_of model;
  }
