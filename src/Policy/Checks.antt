-- ===== src/Policy/Checks.antt =====
-- The checks of validatePolicyModel in packages/core/src/policy-model.ts on types, relations, actions and rules.
-- A check is its name and its status; the messages are left out. Tests of what a type guarantees, as
-- that an operator is one of the six, hold here and are left out too.
use access_kit.Prelude.{
  String, Bool, true, false, not, ◌||◌, Option, none, some, List, [], ◌∷◌, ◌++◌, ◌==◌,
  if◌then◌else◌, ◌otherwise◌, or_else, is_empty, filter_by,
}
use access_kit.JsSet
use access_kit.JsSet.{JsSet}
use access_kit.Policy.Model.{
  PolicyModel, Relation, RelationKind, ActionMapping, InheritanceRule, DenyRule, ModelResourceType,
  ClassificationConstraint,
}

pub data CheckStatus : Type 0 where
  pass warn fail : CheckStatus

pub record ValidationCheck : Type 0 where
  pub name : String
  pub status : CheckStatus

pub record ValidationResult : Type 0 where
  pub valid : Bool
  pub checks : List ValidationCheck

abbrev pub passed : String → ValidationCheck
passed name = record { name = name; status = pass }

abbrev pub failed : String → ValidationCheck
failed name = record { name = name; status = fail }

-- A check that names its first failure, or passes under a name of its own.
abbrev pub verdict : String → Option String → ValidationCheck
verdict name none = passed name
verdict name (some failure) = failed failure

-- A loop that returns its first failure.
abbrev pub first {ℓ} : {A : Type ℓ} → (A → Option String) → List A → Option String
first f [] = none
first f (x ∷ xs) = or_else (f x) (first f xs)

-- `if (test) return fail(name)`.
abbrev pub fail_if : Bool → String → Option String
fail_if true name = some name
fail_if false name = none

abbrev pub is_nil {ℓ} : {A : Type ℓ} → List A → Bool
is_nil [] = true
is_nil (x ∷ xs) = false

abbrev pub members : List String → List String → String → Option String
members [] names name = none
members (x ∷ xs) names name =
    or_else (fail_if (not (JsSet.has names x)) name) (members xs names name)

abbrev pub names_of {ℓ} : {A : Type ℓ} → (A → String) → List A → List String
names_of f [] = []
names_of f (x ∷ xs) = f x ∷ names_of f xs

-- `new Set(values)`.
unfoldable pub set_of : List String → JsSet → JsSet
unfolding JsSet.add
set_of [] s = s
set_of (x ∷ xs) s = set_of xs (JsSet.add s x)

-- Some value stands twice.
unfoldable pub has_duplicates : List String → Bool
unfolding JsSet.has
has_duplicates [] = false
has_duplicates (x ∷ xs) = JsSet.has xs x || has_duplicates xs

unfoldable pub check_unique : String → List String → ValidationCheck
unfolding has_duplicates
check_unique name values = if has_duplicates values then failed name else passed name

abbrev known_resource_types : List String
known_resource_types =
    "organization" ∷ "workspace" ∷ "application" ∷ "sharepoint_site" ∷ "team" ∷ "folder"
    ∷ "document" ∷ "power_app" ∷ "flow" ∷ "dataverse_environment" ∷ "aws_account" ∷ "aws_role"
    ∷ "dataset" ∷ "api" ∷ []

unfoldable pub check_schema_version : PolicyModel → ValidationCheck
check_schema_version model =
    if model.schema_version == "access-kit.policy-model.v1"
    then passed "schema_version"
    else failed "schema_version"

abbrev then_checks : String → Option String → List ValidationCheck → List ValidationCheck
then_checks name none rest = passed name ∷ rest
then_checks name (some failure) rest = failed failure ∷ []

unfoldable pub check_known_resource_types : PolicyModel → List ValidationCheck
unfolding JsSet.has
check_known_resource_types model =
    let names = names_of (λ (t : ModelResourceType). t.type) model.resource_types in
    then_checks "resource_types_known"
      (first
        (λ (t : ModelResourceType).
          fail_if (not (JsSet.has known_resource_types t.type)) "resource_types_known")
        model.resource_types)
      (then_checks "resource_parent_types_known"
        (first
          (λ (t : ModelResourceType).
            members (t.allowed_parent_types otherwise []) names "resource_parent_types_known")
          model.resource_types)
        (then_checks "resource_classifications_declared"
          (first
            (λ (t : ModelResourceType).
              fail_if (is_nil t.classifications) "resource_classifications_declared")
            model.resource_types)
          []))

unfoldable pub check_relations : PolicyModel → ValidationCheck
check_relations model = verdict "relation_endpoints_declared" (
    first
      (λ (r : Relation).
        fail_if (is_nil r.subject_types || is_nil r.object_types) "relation_endpoints_declared")
      model.relations)

abbrev is_kind : RelationKind → RelationKind → Bool
is_kind RelationKind.membership RelationKind.membership = true
is_kind RelationKind.grant RelationKind.grant = true
is_kind RelationKind.containment RelationKind.containment = true
is_kind RelationKind.deny RelationKind.deny = true
is_kind _ _ = false

unfoldable pub relation_names_of_kind : PolicyModel → RelationKind → List String
relation_names_of_kind model kind =
    names_of (λ (r : Relation). r.name)
      (filter_by (λ (r : Relation). is_kind r.kind kind) model.relations)

unfoldable pub check_action_mappings : PolicyModel → List String → ValidationCheck
unfolding relation_names_of_kind JsSet.has
check_action_mappings model relation_names =
    let grants = relation_names_of_kind model RelationKind.grant in
    verdict "action_grants_grant_kind" (
      first
        (λ (a : ActionMapping). or_else (fail_if (is_nil a.grants) "action_grants_declared") (
          first
            (λ grant.
              or_else (fail_if (not (JsSet.has relation_names grant)) "action_grants_known")
                (fail_if (not (JsSet.has grants grant)) "action_grants_grant_kind"))
            a.grants))
        model.actions)

unfoldable pub check_inheritance_rules : PolicyModel → List String → List String → ValidationCheck
unfolding relation_names_of_kind JsSet.has
check_inheritance_rules model relation_names action_names =
    let through_relations =
      relation_names_of_kind model RelationKind.membership
      ++ relation_names_of_kind model RelationKind.containment in
    verdict "inheritance_rules_declared" (
      or_else (fail_if (is_nil model.inheritance_rules) "inheritance_rules_declared") (
        first
          (λ (rule : InheritanceRule).
            or_else
              (fail_if (not (JsSet.has relation_names rule.relation)) "inheritance_relations_known")
              (or_else
                (fail_if (not (JsSet.has relation_names rule.through)) "inheritance_paths_known")
                (or_else
                  (fail_if (not (JsSet.has through_relations rule.through))
                    "inheritance_traversal_kinds")
                  (or_else (fail_if (is_nil rule.actions) "inheritance_actions_declared")
                    (members rule.actions action_names "inheritance_actions_known")))))
          model.inheritance_rules))

-- `actions?.length === 0`.
abbrev pub is_empty_list : Option (List String) → Bool
is_empty_list none = false
is_empty_list (some xs) = is_nil xs

unfoldable pub check_deny_rules : PolicyModel → List String → List String → ValidationCheck
unfolding relation_names_of_kind JsSet.has
check_deny_rules model relation_names action_names =
    let denies = relation_names_of_kind model RelationKind.deny in
    verdict "deny_rules_present" (
      or_else (fail_if (is_nil model.deny_rules) "deny_rules_present") (
        first
          (λ (rule : DenyRule).
            or_else (fail_if (not (JsSet.has relation_names rule.relation)) "deny_relations_known")
              (or_else (fail_if (not (JsSet.has denies rule.relation)) "deny_relations_deny_kind") (
                or_else (fail_if (is_empty_list rule.actions) "deny_actions_declared")
                  (members (rule.actions otherwise []) action_names "deny_actions_known"))))
          model.deny_rules))

unfoldable pub check_tenant_boundary : PolicyModel → ValidationCheck
check_tenant_boundary model = verdict "tenant_boundary_fail_closed" (
    fail_if (is_empty model.tenant_boundary.key || model.tenant_boundary.cross_tenant_traversal)
      "tenant_boundary_fail_closed")

unfoldable pub check_classification_constraints : PolicyModel → List String → ValidationCheck
unfolding JsSet.has
check_classification_constraints model action_names =
    verdict "classification_constraints_declared" (
      or_else
        (fail_if (is_nil model.classification_constraints) "classification_constraints_declared")
        (first
          (λ (c : ClassificationConstraint).
            or_else
              (fail_if (is_empty c.classification || is_nil c.allowed_actions)
                "classification_constraints_declared")
              (members c.allowed_actions action_names "classification_actions_known"))
          model.classification_constraints))
