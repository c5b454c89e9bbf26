-- ===== src/Decision/ValidatedExamples.antt =====
-- A valid policy model with a caveat, and the theorem on refusals at it.
use access_kit.Prelude.{
  String, true, false, some, none, List, [], ◌∷◌, map, ◌≡◌, refl, In, is_empty,
}
use access_kit.JsMap
use access_kit.Domain.{DecisionRequest}
use access_kit.Domain.Json
use access_kit.Domain.Json.{field, end, text, plus}
use access_kit.Policy.Model.{PolicyModel, Caveat, ContextConstraint, ContextType}
use access_kit.Policy.Checks
use access_kit.Policy.CaveatChecks
use access_kit.Policy.ConditionalChecks
use access_kit.Policy.CaveatChecks.{caveats_of}
use access_kit.Policy.Validation.{validate_policy_model}
use access_kit.Decision.Paths.{to_path_step}
use access_kit.Decision.Caveats
use access_kit.Decision.Caveats.{
  CaveatExplanation, refuses, evaluate_conditional_relationship_caveats,
}
use access_kit.Decision.Caveats.Validated.{valid-GivenBy}
use access_kit.Decision.Examples.{dates, request}
use access_kit.Decision.CaveatExamples.{caveated, path}
use access_kit.Store.Graph.{empty_graph}

abbrev place : ContextConstraint
place = record {
  key = "place";
  type = ContextType.string;
  required = some true;
  auditable = some true;
  min = none;
  max = none;
  max_length = none;
  allowed_values = some (text "office" ∷ text "home" ∷ []);
}

abbrev checked : PolicyModel
checked = record caveated { context_constraints = place ∷ [] }

abbrev from_home : DecisionRequest
from_home = record (request "plan") { context = some (field "place" (text "home") end) }

checked_valid : (validate_policy_model dates checked).valid ≡ true
unfolding validate_policy_model Checks.check_schema_version Checks.check_unique
    Checks.check_known_resource_types Checks.check_relations Checks.check_action_mappings
    Checks.check_inheritance_rules Checks.check_deny_rules Checks.check_tenant_boundary
    Checks.check_classification_constraints CaveatChecks.check_context_constraints
    CaveatChecks.check_caveats JsMap.set ConditionalChecks.check_conditional_relationships
    ConditionalChecks.check_explanation_policy ConditionalChecks.check_migrations
    ConditionalChecks.check_generated_metadata
checked_valid = refl

refused :
    (explanations : List CaveatExplanation) × (evaluate_conditional_relationship_caveats dates
        empty_graph from_home "2" checked
        (map to_path_step path)
        path
      ≡ refuses "DENY_OUTSIDE" explanations)
unfolding evaluate_conditional_relationship_caveats to_path_step JsMap.get JsMap.set
    Caveats.evaluate_caveat_condition Json.has_own Json.value_of Caveats.value_matches_context_type
    Caveats.compare_condition
refused = (_, refl)

valid-GivenBy_example :
    (c : Caveat) × In c (caveats_of checked)
    × ◌≡◌ {A = String} "DENY_OUTSIDE" c.reason_code
    × (is_empty "DENY_OUTSIDE" ≡ false)
valid-GivenBy_example =
    valid-GivenBy dates empty_graph from_home "2" checked path "DENY_OUTSIDE" refused.0
      checked_valid refused.1
