-- ===== src/Policy/ConditionalChecks.antt =====
-- The checks of validatePolicyModel in packages/core/src/policy-model.ts on conditional relationships,
-- the explanation policy, migrations and metadata.
use Prim.Native.String.{◌++◌}
use access_kit.Prelude.{
  String, Bool, true, false, not, ◌||◌, Option, none, some, List, [], ◌∷◌, ◌==◌, if◌then◌else◌,
  ◌otherwise◌, or_else,
}
use access_kit.JsSet
use access_kit.JsSet.{JsSet}
use access_kit.Domain.Json.{JsonRecord, Json, undefined, null, text, value_of}
use access_kit.Policy.Model.{
  PolicyModel, Caveat, ConditionalRelationship, ContextConstraint, Migration, ExplanationPolicy,
}
use access_kit.Policy.Checks.{
  ValidationCheck, pass, warn, passed, failed, verdict, fail_if, is_nil, members, names_of,
  has_duplicates, is_empty_list,
}
use access_kit.Policy.CaveatChecks.{caveats_of}

-- The actions that a conditional relationship binds. The code sorts them where none are given; the
-- order is not seen in a check.
abbrev pub scoped_actions : List String → ConditionalRelationship → List String
scoped_actions action_names c = c.actions otherwise action_names

abbrev pub binding : String → String → String
binding relation action = relation ++ ":" ++ action

-- The loop over the actions of one conditional: the bindings after it, if none was there before.
unfoldable pub bind_actions : String → List String → JsSet → Option JsSet
unfolding JsSet.has
bind_actions relation [] bound = some bound
bind_actions relation (a ∷ actions) bound = elim (JsSet.has bound (binding relation a)) [
  | true ↦ none
  | false ↦ bind_actions relation actions (binding relation a ∷ bound)
]

abbrev pub conditional_failure :
    List String → List String → List String → ConditionalRelationship → Option String
conditional_failure relation_names caveat_names action_names c =
    or_else (fail_if (not (JsSet.has relation_names c.relation)) "conditional_relationships_known")
      (or_else (fail_if (is_nil c.caveats) "conditional_relationships_caveats_known") (
        or_else (members c.caveats caveat_names "conditional_relationships_caveats_known") (
          or_else (fail_if (is_empty_list c.actions) "conditional_relationships_actions_known") (
            or_else
              (members (c.actions otherwise []) action_names
                "conditional_relationships_actions_known")
              (fail_if (has_duplicates (scoped_actions action_names c))
                "conditional_relationships_unique")))))

unfoldable pub conditionals_failure :
    List String → List String → List String → List ConditionalRelationship → JsSet → Option String
unfolding has_duplicates bind_actions JsSet.has
conditionals_failure relation_names caveat_names action_names [] bound = none
conditionals_failure relation_names caveat_names action_names (c ∷ cs) bound =
    elim (conditional_failure relation_names caveat_names action_names c) [
      | some failure ↦ some failure
      | none ↦ elim (bind_actions c.relation (scoped_actions action_names c) bound) [
        | none ↦ some "conditional_relationships_unique"
        | some bound' ↦ conditionals_failure relation_names caveat_names action_names cs bound'
      ]
    ]

unfoldable pub check_conditional_relationships :
    PolicyModel → List String → List String → List ValidationCheck
unfolding conditionals_failure
check_conditional_relationships model relation_names action_names =
    elim (conditionals_failure relation_names (names_of (λ (c : Caveat). c.name) (caveats_of model))
      action_names (model.conditional_relationships otherwise []) []) [
        | some failure ↦ failed failure ∷ []
        | none ↦
            passed "conditional_relationships_unique"
            ∷ passed "conditional_relationships_known"
            ∷ []
      ]

abbrev explanation_failure : PolicyModel → Option ExplanationPolicy → Option String
explanation_failure model none = none
explanation_failure model (some e) =
    or_else (fail_if (not e.deterministic) "deterministic_explanation_policy") (
      or_else
        (members e.include_context_keys
          (names_of (λ (c : ContextConstraint). c.key) model.context_constraints)
          "deterministic_explanation_policy")
        (members e.include_caveat_names (names_of (λ (c : Caveat). c.name) (caveats_of model))
          "deterministic_explanation_policy"))

unfoldable pub check_explanation_policy : PolicyModel → ValidationCheck
unfolding JsSet.has
check_explanation_policy model =
    verdict "deterministic_explanation_policy" (explanation_failure model model.explanation)

unfoldable pub migrations_failure : List Migration → String → List String → Option String
unfolding JsSet.has
migrations_failure [] expected seen = none
migrations_failure (m ∷ ms) expected seen =
    or_else (fail_if (not (m.from_version == expected)) "migrations_ordered") (
      or_else
        (fail_if (m.to_version == m.from_version || JsSet.has seen m.to_version)
          "migrations_acyclic")
        (or_else (fail_if (is_nil m.operations) "migrations_have_operations")
          (migrations_failure ms m.to_version (m.to_version ∷ seen))))

unfoldable pub check_migrations : PolicyModel → ValidationCheck
unfolding migrations_failure
check_migrations model =
    verdict "migrations_ordered"
      (migrations_failure model.migrations model.version (model.version ∷ []))

-- `metadata?.source ?? metadata?.generatedBy` is "llm".
abbrev is_generated : Json → Json → Bool
is_generated undefined (text s) = s == "llm"
is_generated null (text s) = s == "llm"
is_generated (text s) other = s == "llm"
is_generated _ _ = false

abbrev generated : Option JsonRecord → Bool
generated none = false
generated (some m) = is_generated (value_of m "source") (value_of m "generatedBy")

unfoldable pub check_generated_metadata : PolicyModel → ValidationCheck
check_generated_metadata model = record {
  name = "generated_policy_validated";
  status = if generated model.metadata then warn else pass;
}
